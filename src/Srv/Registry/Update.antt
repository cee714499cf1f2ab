-- ===== src/Srv/Registry/Update.antt =====
-- What `UpdateToken` does with a new label and a new PIN.
use aws_nitro_enclaves_acm.Prelude.{
  ◌≡◌, ◌≢◌, ◌∙◌, ap, some, false, Bytes, bytes_eq, bytes_eq_refl, bytes_eq_iff, if◌then◌else◌, ok,
  arith,
}
use aws_nitro_enclaves_acm.Common.Config
use aws_nitro_enclaves_acm.Common.Config.{Slots, Json, Io, whole, load_device}
use aws_nitro_enclaves_acm.Rpc.Schema.{Token, nothing, update_token}
use aws_nitro_enclaves_acm.Srv.Kms.{Kms}
use aws_nitro_enclaves_acm.Srv.Slots.Search.{lookup}
use aws_nitro_enclaves_acm.Srv.Worker.{handle}
use aws_nitro_enclaves_acm.Srv.Server.Sound.{JsonLaws, IsSound}
use aws_nitro_enclaves_acm.Srv.Registry.{handle-MapStep}

-- `UpdateToken` with a label that differs from the token's present one, when it succeeds and its
-- write is complete, renames nothing: the token is found under the old label, with the old label
-- and the old PIN in it, and under the new label there is what was there before.
pub update-keeps_label :
    (j : Json) (k : Kms) (io : Io) (label pin : Bytes) (t : Token) (text : j.Text)
    → JsonLaws j
    → IsSound j text
    → io.written ≡ whole
    → (handle j k io (update_token label pin t) text).0 ≡ ok nothing
    → t.label ≢ label
    → (slots slots' : Slots) × (new : Config.Token) × (load_device j io.load_clock text
        ≡ ok (record { slots = slots }))
      × (j.from_json (handle j k io (update_token label pin t) text).1
          ≡ some (record { slots = slots' }))
      × (lookup label slots' ≡ some new)
      × (new.label ≡ label)
      × (new.pin ≡ pin)
      × (lookup t.label slots' ≡ lookup t.label slots)
update-keeps_label j k io label pin t text laws s w h ne =
    let (slots, slots', loaded, reads, (old, new, held, same, made, agree)) =
      handle-MapStep j k io (update_token label pin t) text laws s w h in
    let other : bytes_eq label t.label ≡ false = ground (arith, bytes_eq_iff label t.label) in
    (
      slots,
      slots',
      new,
      loaded,
      reads,
      agree label ∙ ap (λ b. if b then some new else lookup label slots) (bytes_eq_refl label),
      made.new_label,
      made.new_pin,
      agree t.label ∙ ap (λ b. if b then some new else lookup t.label slots) other,
    )
