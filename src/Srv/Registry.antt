-- ===== src/Srv/Registry.antt =====
-- The abstract contract of the RPC server: a map from labels to tokens, which forgets slots.
pub mod RoundTrip
pub mod Describe
pub mod Update
use aws_nitro_enclaves_acm.Prelude.{
  ℕ, List, ◌≡◌, refl, sym, ◌∙◌, none, some, Option, Bytes, bytes_eq, if◌then◌else◌, ok, ap,
}
use aws_nitro_enclaves_acm.Common.Config
use aws_nitro_enclaves_acm.Common.Config.{Slots, Json, Io, whole, load_device}
use aws_nitro_enclaves_acm.Rpc.Schema.{
  PrivateKey, EnvelopeKey, ApiRequest, nothing, add_token, describe_device, describe_token,
  refresh_token, remove_token, update_token,
}
use aws_nitro_enclaves_acm.Srv.Kms.{Kms}
use aws_nitro_enclaves_acm.Srv.Kms.Decrypted.{AllDecrypt, decrypt_token_keys_iff}
use aws_nitro_enclaves_acm.Srv.Slots.{find_label}
use aws_nitro_enclaves_acm.Srv.Slots.Search.{
  Unique, lookup, token_of, lookup-find_label, count_label-zero,
}
use aws_nitro_enclaves_acm.Srv.Worker.{attest, expiry_from, handle}
use aws_nitro_enclaves_acm.Srv.Edit.{Serves}
use aws_nitro_enclaves_acm.Srv.Edit.Views.{
  Adds-lookup, Removes-lookup, Updates-lookup, Refreshes-lookup,
}
use aws_nitro_enclaves_acm.Srv.Server.Sound.{JsonLaws, IsSound, load-GoodSlots}
use aws_nitro_enclaves_acm.Srv.Server.Stored.{Stored, handle-Stored}

abbrev pub Registry : Type 0
Registry = Bytes → Option Config.Token

abbrev pub put : Bytes → Option Config.Token → Registry → Registry
put label tok m l = if bytes_eq label l then tok else m l

abbrev pub view : Slots → Registry
view slots label = lookup label slots

abbrev pub Agree : Registry → Registry → Type 0
Agree m m' = (label : Bytes) → m label ≡ m' label

module _ (k : Kms) (now : ℕ) where
  -- A token as provisioned by a request: decrypted keys, and a life of 48 hours from now.
  pub record Provisions (label pin : Bytes) (e : EnvelopeKey) (keys : List PrivateKey)
      (new : Config.Token) : Type 0 where
    pub new_label : new.label ≡ label
    pub new_pin : new.pin ≡ pin
    pub new_expiry : new.expiry_ts ≡ expiry_from now
    pub new_keys : AllDecrypt k e keys new.private_keys

  -- What a successful request does to the map. The requests that only describe never get here.
  abbrev pub MapStep : ApiRequest → Registry → Registry → Type 0
  MapStep (add_token t) m m' =
      (new : Config.Token) × (m t.label ≡ none)
      × Provisions t.label t.pin t.envelope_key t.keys new
      × Agree m' (put t.label (some new) m)
  MapStep describe_device m m' = ⊥
  MapStep (describe_token label pin) m m' = ⊥
  MapStep (refresh_token label pin e) m m' =
      (old : Config.Token) × (m label ≡ some old)
      × (old.pin ≡ pin)
      × (attest k e old.private_keys ≡ ok tt)
      × Agree m' (put label (some (record old { expiry_ts = expiry_from now })) m)
  MapStep (remove_token label pin) m m' =
      (old : Config.Token) × (m label ≡ some old) × (old.pin ≡ pin) × Agree m' (put label none m)
  MapStep (update_token label pin t) m m' =
      (old new : Config.Token) × (m label ≡ some old)
      × (old.pin ≡ pin)
      × Provisions label pin t.envelope_key t.keys new
      × Agree m' (put label (some new) m)

lookup_of_find :
    (label : Bytes) (slots : Slots) (i : ℕ) (tok : Config.Token)
    → find_label label slots ≡ some (i, tok)
    → lookup label slots ≡ some tok
lookup_of_find label slots i tok h = lookup-find_label label slots ∙ ap token_of h

Serves-MapStep :
    (k : Kms) (io : Io) (request : ApiRequest) (slots slots' : Slots)
    → Unique slots
    → Serves k io request slots slots'
    → MapStep k (io.call_clock 0) request (view slots) (view slots')
Serves-MapStep k io (add_token t) slots slots' u s = (
  s.new,
  count_label-zero t.label slots s.fresh,
  record {
    new_label = s.new_label;
    new_pin = s.new_pin;
    new_expiry = s.new_expiry;
    new_keys = (decrypt_token_keys_iff k t.envelope_key t.keys s.new.private_keys).0 s.new_keys;
  },
  Adds-lookup k io slots slots' t s,
)
Serves-MapStep k io describe_device slots slots' u s = s
Serves-MapStep k io (describe_token label pin) slots slots' u s = s
Serves-MapStep k io (refresh_token label pin e) slots slots' u s = (
  s.old,
  lookup_of_find label slots s.i s.old s.found,
  s.same_pin,
  s.attested,
  Refreshes-lookup k io slots slots' label pin e s,
)
Serves-MapStep k io (remove_token label pin) slots slots' u s = (
  s.old,
  lookup_of_find label slots s.i s.old s.found,
  s.same_pin,
  λ l. Removes-lookup k io slots slots' label pin s l u,
)
Serves-MapStep k io (update_token label pin t) slots slots' u s = (
  s.old,
  s.new,
  lookup_of_find label slots s.i s.old s.found,
  s.same_pin,
  record {
    new_label = s.new_label;
    new_pin = s.new_pin;
    new_expiry = s.new_expiry;
    new_keys = (decrypt_token_keys_iff k t.envelope_key t.keys s.new.private_keys).0 s.new_keys;
  },
  Updates-lookup k io slots slots' label pin t s,
)

-- A request that is answered with `ApiOk::None`, and whose write is complete, makes one step of the
-- abstract map: from the tokens that the file held with time left to those that it now holds.
-- Its JSON library reads back what it writes, and the file satisfied the server's invariant.
pub handle-MapStep :
    (j : Json) (k : Kms) (io : Io) (request : ApiRequest) (text : j.Text)
    → JsonLaws j
    → IsSound j text
    → io.written ≡ whole
    → (handle j k io request text).0 ≡ ok nothing
    → (slots slots' : Slots) × (load_device j io.load_clock text ≡ ok (record { slots = slots }))
      × (j.from_json (handle j k io request text).1 ≡ some (record { slots = slots' }))
      × MapStep k (io.call_clock 0) request (view slots) (view slots')
handle-MapStep j k io request text laws s w h =
    let st = handle-Stored j k io text request laws.round_trip w h in
    let g = load-GoodSlots j laws io.load_clock text st.slots s st.loaded in
    (st.slots, st.slots', st.loaded, st.reads, Serves-MapStep k io request _ _ g.0 st.served)
