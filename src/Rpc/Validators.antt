-- ===== src/Rpc/Validators.antt =====
-- vtok_rpc/src/api.rs, the module `validators`. A `HashSet` is the list of what was inserted.
pub mod Accepts
use aws_nitro_enclaves_acm.Prelude.{
  ℕ, ◌≡◌, Bool, true, false, not, ◌||◌, List, [], ◌∷◌, Bytes, bytes_eq, length, leb, ltb, ◌==◌,
  if◌then◌else◌, Result, ok, err, guard, ◌>>=◌, ◌>>◌,
}
use aws_nitro_enclaves_acm.Common.Defs.{
  token_min_pin_len, token_max_pin_len, token_min_label_len, token_max_label_len,
}
use aws_nitro_enclaves_acm.Rpc.Schema.{
  ArgError, duplicate_key_id, duplicate_key_label, label_too_long, label_too_short, pin_too_long,
  pin_too_short, PrivateKey, Token, ApiRequest, add_token, describe_device, describe_token,
  refresh_token, remove_token, update_token,
}

unfoldable pub has_id : ℕ → List ℕ → Bool
has_id i [] = false
has_id i (k ∷ ks) = i == k || has_id i ks

unfoldable pub has_label : Bytes → List Bytes → Bool
has_label l [] = false
has_label l (k ∷ ks) = bytes_eq l k || has_label l ks

unfoldable pub validate_token_pin : Bytes → Result ArgError (Unit {0})
validate_token_pin pin = do
  guard (not (ltb (length pin) token_min_pin_len)) pin_too_short
  guard (not (ltb token_max_pin_len (length pin))) pin_too_long

unfoldable pub validate_token_label : Bytes → Result ArgError (Unit {0})
validate_token_label label = do
  guard (not (ltb (length label) token_min_label_len)) label_too_short
  guard (not (ltb token_max_label_len (length label))) label_too_long

-- The loop over the keys, with the ids and the labels seen so far.
unfoldable pub validate_keys : List ℕ → List Bytes → List PrivateKey → Result ArgError (Unit {0})
unfolding has_id has_label
validate_keys ids labels [] = ok tt
validate_keys ids labels (k ∷ ks) = do
  guard (not (has_id k.id ids)) (duplicate_key_id k.id)
  guard (not (has_label k.label labels)) (duplicate_key_label k.label)
  validate_keys (k.id ∷ ids) (k.label ∷ labels) ks

unfoldable pub validate_token : Token → Result ArgError (Unit {0})
unfolding validate_token_pin validate_token_label validate_keys
validate_token token = do
  validate_token_pin token.pin
  validate_token_label token.label
  validate_keys [] [] token.keys

unfoldable pub validate_args : ApiRequest → Result ArgError (Unit {0})
unfolding validate_token validate_token_pin validate_token_label
validate_args (add_token token) = validate_token token
validate_args describe_device = ok tt
validate_args (describe_token label pin) = do validate_token_pin pin; validate_token_label label
validate_args (refresh_token label pin _) = do validate_token_pin pin; validate_token_label label
validate_args (remove_token label pin) = do validate_token_pin pin; validate_token_label label
validate_args (update_token label pin token) = do
  validate_token_pin pin
  validate_token_label label
  validate_token token
