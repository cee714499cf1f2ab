-- ===== src/Srv/Worker.antt =====
-- vtok_srv/src/worker.rs: the handlers of the RPC requests, over the contents of the config file.
-- `_mut` lookups and the writes through them are an index and a `set`.
use aws_nitro_enclaves_acm.Prelude.{
  ℕ, suc, ◌+◌, ◌-◌, ◌%◌, not, ◌||◌, Option, none, some, List, [], ◌∷◌, map, Bytes, bytes_eq, ltb,
  length, set, is_some, from_utf8, Result, err, ok_or, map_err, guard,
}
use aws_nitro_enclaves_acm.Prelude.Exec.{Exec, pure, lift, ◌>>=◌, ◌>>◌}
use aws_nitro_enclaves_acm.Common.Defs.{device_max_slots, token_expiry_secs, u64_mod}
use aws_nitro_enclaves_acm.Common.Config
use aws_nitro_enclaves_acm.Common.Config.{
  Slots, Config, Json, Io, checked_sub, load_ro, load_rw, save,
}
use aws_nitro_enclaves_acm.Rpc.Schema.{
  EnvelopeKey, Token, ApiRequest, add_token, describe_device, describe_token, refresh_token,
  remove_token, update_token, PrivateKeyDescription, TokenDescription, ApiOk, nothing,
  device_description, token_description, ApiError, access_denied, empty_token, invalid_args,
  internal_error, token_label_in_use, token_not_found, too_many_tokens, token_refresh_failed,
  token_key_decoding_failed,
}
use aws_nitro_enclaves_acm.Rpc.Validators.{validate_args}
use aws_nitro_enclaves_acm.Srv.Kms.{Kms, decrypt_with, decrypt_token_keys}
use aws_nitro_enclaves_acm.Srv.Slots.{count_label, find_label, find_free}
use aws_nitro_enclaves_acm.Srv.Uri.{key_uri}

-- `config.slots_mut()[i] = slot`
abbrev pub set_slot : Config → ℕ → Option Config.Token → Config
set_slot config i slot = record config { device = record { slots = set config.slots i slot } }

abbrev pub expiry_from : ℕ → ℕ
expiry_from now = (now + token_expiry_secs) % u64_mod

-- One entry of the device description: a slot with a token that has not expired.
abbrev pub describe_slot : ℕ → ℕ → Option Config.Token → Option TokenDescription
describe_slot now i none = none
describe_slot now i (some tok) = elim (checked_sub tok.expiry_ts now) [
  | none ↦ none
  | some ttl ↦ some (record { label = tok.label; slot_id = i; ttl_secs = ttl; keys = none })
]

abbrev pub push {ℓ} : {A : Type ℓ} → Option A → List A → List A
push none xs = xs
push (some x) xs = x ∷ xs

unfoldable pub describe_slots : (ℕ → ℕ) → ℕ → Slots → List TokenDescription
describe_slots clock i [] = []
describe_slots clock i (slot ∷ slots) =
    push (describe_slot (clock i) i slot) (describe_slots clock (suc i) slots)

unfoldable pub describe_keys : ℕ → Bytes → List Config.PrivateKey → List PrivateKeyDescription
describe_keys slot_id token_label = map λ key. record {
  label = key.label;
  id = key.id;
  uri = key_uri slot_id token_label key.id key.label;
}

abbrev pub or_zero : Option ℕ → ℕ
or_zero none = 0
or_zero (some t) = t

-- Re-attestation: the first key of the token is decrypted again, and must give the stored PEM.
unfoldable pub attest : Kms → EnvelopeKey → List Config.PrivateKey → Result ApiError (Unit {0})
attest k envelope_key [] = err empty_token
attest k envelope_key (key ∷ keys) = elim (k.decode key.encrypted_pem_b64) [
  | none ↦ err token_key_decoding_failed
  | some ciphertext ↦ elim (decrypt_with k envelope_key ciphertext) [
    | none ↦ err token_refresh_failed
    | some plaintext ↦ elim (from_utf8 plaintext) [
      | none ↦ err token_refresh_failed
      | some pem ↦ guard (bytes_eq pem key.pem) token_refresh_failed
    ]
  ]
]

module _ (j : Json) (k : Kms) (io : Io) where
  -- `.map_err(|_| ApiError::InternalError)`
  abbrev or_internal {ℓ} : {A : Type ℓ} → Exec j.Text Config.Error A → Exec j.Text ApiError A
  or_internal m text = (map_err (λ _. internal_error) (m text).0, (m text).1)

  abbrev load_ro' : Exec j.Text ApiError Config
  load_ro' = or_internal (load_ro j io)

  abbrev load_rw' : Exec j.Text ApiError Config
  load_rw' = or_internal (load_rw j io)

  abbrev save' : Config → Exec j.Text ApiError (Unit {0})
  save' config = or_internal (save j io config)

  unfoldable pub add : Token → Exec j.Text ApiError ApiOk
  add token = do
    config ← load_rw'
    lift (guard (not (ltb 0 (count_label token.label config.slots))) token_label_in_use)
    private_keys ← lift (decrypt_token_keys k token.envelope_key token.keys)
    i ← lift (ok_or (find_free config.slots) too_many_tokens)
    save' (
        set_slot config i (
          some (record {
            label = token.label;
            private_keys = private_keys;
            pin = token.pin;
            expiry_ts = expiry_from (io.call_clock 0);
          })))
    pure nothing

  unfoldable pub describe : Exec j.Text ApiError ApiOk
  describe = do
    config ← load_ro'
    let tokens = describe_slots io.call_clock 0 config.slots
    pure (
        device_description (record {
          free_slot_count = (device_max_slots + u64_mod - length tokens) % u64_mod;
          tokens = tokens;
        }))

  unfoldable pub describe_one : (label pin : Bytes) → Exec j.Text ApiError ApiOk
  describe_one label pin = do
    config ← load_ro'
    (slot_id, token) ← lift (ok_or (find_label label config.slots) token_not_found)
    lift (guard (bytes_eq token.pin pin) access_denied)
    pure (
        token_description (record {
          label = token.label;
          slot_id = slot_id;
          ttl_secs = or_zero (checked_sub token.expiry_ts (io.call_clock 0));
          keys = some (describe_keys slot_id token.label token.private_keys);
        }))

  unfoldable pub refresh : (label pin : Bytes) → EnvelopeKey → Exec j.Text ApiError ApiOk
  refresh label pin envelope_key = do
    config ← load_rw'
    (i, token) ← lift (ok_or (find_label label config.slots) token_not_found)
    lift (guard (bytes_eq token.pin pin) access_denied)
    lift (attest k envelope_key token.private_keys)
    save' (set_slot config i (some (record token { expiry_ts = expiry_from (io.call_clock 0) })))
    pure nothing

  unfoldable pub remove : (label pin : Bytes) → Exec j.Text ApiError ApiOk
  remove label pin = do
    config ← load_rw'
    (i, token) ← lift (ok_or (find_label label config.slots) token_not_found)
    lift (guard (bytes_eq token.pin pin) access_denied)
    save' (set_slot config i none)
    pure nothing

  unfoldable pub update : (label pin : Bytes) → Token → Exec j.Text ApiError ApiOk
  update label pin token = do
    config ← load_rw'
    lift (
        guard (bytes_eq label token.label || not (is_some (find_label token.label config.slots)))
          token_label_in_use)
    (i, old) ← lift (ok_or (find_label label config.slots) token_not_found)
    lift (guard (bytes_eq old.pin pin) access_denied)
    private_keys ← lift (decrypt_token_keys k token.envelope_key token.keys)
    save' (
        set_slot config i (
          some (record {
            label = label;
            private_keys = private_keys;
            pin = pin;
            expiry_ts = expiry_from (io.call_clock 0);
          })))
    pure nothing

  unfoldable pub dispatch : ApiRequest → Exec j.Text ApiError ApiOk
  unfolding add describe describe_one refresh remove update
  dispatch (add_token token) = add token
  dispatch describe_device = describe
  dispatch (describe_token label pin) = describe_one label pin
  dispatch (refresh_token label pin envelope_key) = refresh label pin envelope_key
  dispatch (remove_token label pin) = remove label pin
  dispatch (update_token label pin token) = update label pin token

  -- The response to a request that was received.
  unfoldable pub handle : ApiRequest → Exec j.Text ApiError ApiOk
  unfolding dispatch
  handle request = do lift (map_err invalid_args (validate_args request)); dispatch request
