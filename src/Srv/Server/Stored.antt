-- ===== src/Srv/Server/Stored.antt =====
-- What a successful request has stored.
use aws_nitro_enclaves_acm.Prelude.{◌≡◌, refl, sym, ◌∙◌, ap, some, Result, ok, err}
use aws_nitro_enclaves_acm.Common.Config
use aws_nitro_enclaves_acm.Common.Config.{
  Json, RoundTrips, Io, Slots, Device, whole, load, load_device, save, expire, expire_slots,
}
use aws_nitro_enclaves_acm.Common.Config.Save.{save-stores}
use aws_nitro_enclaves_acm.Rpc.Schema.{ApiRequest, nothing}
use aws_nitro_enclaves_acm.Srv.Kms.{Kms}
use aws_nitro_enclaves_acm.Srv.Worker.{handle}
use aws_nitro_enclaves_acm.Srv.Edit.{Serves}
use aws_nitro_enclaves_acm.Srv.Edit.Outcome.{
  Outcome, untouched, saved, saved_response, config_of, handle-Outcome,
}

module _ (j : Json) (k : Kms) (io : Io) (text : j.Text) where
  -- The slots that a request loaded and those that the file now holds.
  pub record Stored (request : ApiRequest) : Type 0 where
    pub slots : Slots
    pub slots' : Slots
    pub loaded : load_device j io.load_clock text ≡ ok (record { slots = slots })
    pub served : Serves k io request slots slots'
    pub reads : j.from_json (handle j k io request text).1 ≡ some (record { slots = slots' })

  -- A request that is answered with `ApiOk::None`, and whose write is complete, has done what its
  -- specification says to the slots that the file held and that had not expired: the file now reads
  -- as the changed slots.
  pub handle-Stored :
      (request : ApiRequest)
      → RoundTrips j
      → io.written ≡ whole
      → (handle j k io request text).0 ≡ ok nothing
      → Stored request
  handle-Stored request rt w h = go (handle-Outcome j io text k request)
    where
      cases : (r : Result Config.Error (Unit {0})) → saved_response r ≡ ok nothing → r ≡ ok tt
      cases (ok _) p = refl
      cases (err _) p = cc

      go : Outcome j io text (Serves k io request) (handle j k io request text) → Stored request
      go (untouched same refused) = absurd (refused h)
      go (saved slots slots' loaded served answered written) = record {
        slots = slots;
        slots' = slots';
        loaded = loaded;
        served = served;
        reads =
            ap j.from_json written
            ∙ save-stores j io (config_of slots') text rt w (cases _ (sym answered ∙ h));
      }
