-- ===== src/Srv/Edit.antt =====
-- The specification of the worker: what each request may do to the slots of the config.
pub mod Outcome
pub mod Keeps
pub mod Views
use aws_nitro_enclaves_acm.Prelude.{ℕ, ◌≡◌, Option, none, some, Bytes, set, ok}
use aws_nitro_enclaves_acm.Common.Config
use aws_nitro_enclaves_acm.Common.Config.{Slots, Io}
use aws_nitro_enclaves_acm.Rpc.Schema.{
  Token, EnvelopeKey, ApiRequest, add_token, describe_device, describe_token, refresh_token,
  remove_token, update_token,
}
use aws_nitro_enclaves_acm.Srv.Kms.{Kms, decrypt_token_keys}
use aws_nitro_enclaves_acm.Srv.Slots.{count_label, find_label, find_free}
use aws_nitro_enclaves_acm.Srv.Worker.{attest, expiry_from}

module _ (k : Kms) (io : Io) where
  -- A token with an unused label goes to the first free slot, its keys decrypted.
  pub record Adds (token : Token) (slots slots' : Slots) : Type 0 where
    pub i : ℕ
    pub new : Config.Token
    pub free : find_free slots ≡ some i
    pub fresh : count_label token.label slots ≡ 0
    pub new_label : new.label ≡ token.label
    pub new_pin : new.pin ≡ token.pin
    pub new_expiry : new.expiry_ts ≡ expiry_from (io.call_clock 0)
    pub new_keys : decrypt_token_keys k token.envelope_key token.keys ≡ ok new.private_keys
    pub stored : slots' ≡ set slots i (some new)

  -- The first token of the label, if the PIN is its own and it attests, gets a new expiry time.
  pub record Refreshes (label pin : Bytes) (e : EnvelopeKey) (slots slots' : Slots) : Type 0 where
    pub i : ℕ
    pub old : Config.Token
    pub found : find_label label slots ≡ some (i, old)
    pub same_pin : old.pin ≡ pin
    pub attested : attest k e old.private_keys ≡ ok tt
    pub stored :
        slots' ≡ set slots i (some (record old { expiry_ts = expiry_from (io.call_clock 0) }))

  -- The slot of the first token of the label, if the PIN is its own, is emptied.
  pub record Removes (label pin : Bytes) (slots slots' : Slots) : Type 0 where
    pub i : ℕ
    pub old : Config.Token
    pub found : find_label label slots ≡ some (i, old)
    pub same_pin : old.pin ≡ pin
    pub stored : slots' ≡ set slots i none

  -- The first token of the label, if the PIN is its own, gets the decrypted keys of the request and
  -- a new expiry time. Its label and its PIN stay.
  pub record Updates (label pin : Bytes) (token : Token) (slots slots' : Slots) : Type 0 where
    pub i : ℕ
    pub old : Config.Token
    pub new : Config.Token
    pub found : find_label label slots ≡ some (i, old)
    pub same_pin : old.pin ≡ pin
    pub new_label : new.label ≡ label
    pub new_pin : new.pin ≡ pin
    pub new_expiry : new.expiry_ts ≡ expiry_from (io.call_clock 0)
    pub new_keys : decrypt_token_keys k token.envelope_key token.keys ≡ ok new.private_keys
    pub stored : slots' ≡ set slots i (some new)

  abbrev pub Serves : ApiRequest → Slots → Slots → Type 0
  Serves (add_token token) slots slots' = Adds token slots slots'
  Serves describe_device slots slots' = ⊥
  Serves (describe_token label pin) slots slots' = ⊥
  Serves (refresh_token label pin e) slots slots' = Refreshes label pin e slots slots'
  Serves (remove_token label pin) slots slots' = Removes label pin slots slots'
  Serves (update_token label pin token) slots slots' = Updates label pin token slots slots'
