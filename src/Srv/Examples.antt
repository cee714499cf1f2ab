-- ===== src/Srv/Examples.antt =====
-- Tests of the server, and its theorems at concrete inputs: an in-memory file, a KMS that returns
-- the ciphertext, and one token.
mod Requests
use aws_nitro_enclaves_acm.Prelude.{
  from_utf8, ℕ, suc, ◌+◌, ◌<◌, ◌≡◌, ◌≢◌, ◌↔◌, zero, refl, subst, ap, none, some, Option, [], ◌∷◌,
  Bytes, codes, bytes_eq, bytes_eq_iff, true, set, replicate, length, All, get_elem?, ok, err,
  arith,
}
use aws_nitro_enclaves_acm.Common.Config
use aws_nitro_enclaves_acm.Common.Config.{
  init_new, Json, Io, Device, Slots, whole, short, load, load_device, save, expire_slots,
}
use aws_nitro_enclaves_acm.Common.Config.Load.{get_elem?-expire_slots_iff}
use aws_nitro_enclaves_acm.Rpc.Schema.{
  EnvelopeKey, kms, PrivateKey, Token, add_token, describe_device, describe_token, remove_token,
  update_token, nothing, device_description, token_description, DeviceDescription, internal_error,
  access_denied, token_label_in_use,
}
use aws_nitro_enclaves_acm.Rpc.Validators.{validate_token, validate_args}
use aws_nitro_enclaves_acm.Rpc.Validators.Accepts.{TokenFits, validate_token_iff}
use aws_nitro_enclaves_acm.Srv.Kms.{Kms, decrypt_token_keys, decrypt_pem, decrypt_with}
use aws_nitro_enclaves_acm.Srv.Kms.Decrypted.{AllDecrypt, decrypt_token_keys_iff}
use aws_nitro_enclaves_acm.Srv.Slots.{count_label, find_label, find_free}
use aws_nitro_enclaves_acm.Srv.Slots.Search.{lookup}
use aws_nitro_enclaves_acm.Srv.Worker.{handle, describe_slots}
use aws_nitro_enclaves_acm.Srv.Server.{Client, serve, run_server}
use aws_nitro_enclaves_acm.Srv.Server.Sound.{
  JsonLaws, IsSound, GoodSlots, handle-IsSound, run_server-IsSound,
}
use aws_nitro_enclaves_acm.Srv.Server.Replies.{
  handle-error_unchanged, serve-stays_lost, handle-access_denied,
}
use aws_nitro_enclaves_acm.Srv.Registry.{view, MapStep, Provisions, handle-MapStep}
use aws_nitro_enclaves_acm.Srv.Registry.RoundTrip.{description_of}
use aws_nitro_enclaves_acm.Srv.Registry.Describe.{Describes, handle-describe_device}
use aws_nitro_enclaves_acm.Srv.Registry.Update.{update-keeps_label}

abbrev pub memory : Json
memory = record {
  Text = Option Device;
  to_json = λ d. some d;
  from_json = λ t. t;
  prefix = λ n t. none;
}

pub memory_laws : JsonLaws memory
memory_laws = record {
  round_trip = λ d. refl;
  prefix_reads = λ n d d' h. cc;
  empty_fails = λ t. refl;
}

abbrev pub echo : Kms
echo = record { kms_decrypt = λ r a s t c. some c; decode = λ b. some b }

abbrev pub all_well : Io
all_well = record {
  opened = true;
  load_clock = λ i. 10;
  call_clock = λ i. 10;
  sought = true;
  truncated = true;
  written = whole;
  flushed = true;
}

abbrev pub envelope : EnvelopeKey
envelope = kms (codes "us-east-1") (codes "id") (codes "secret") (codes "session")

abbrev pub web_key : PrivateKey
web_key = record { encrypted_pem_b64 = codes "pem"; id = 1; label = codes "web"; cert_pem = none }

abbrev pub web_token : Token
web_token = record {
  label = codes "acm";
  pin = codes "1234";
  envelope_key = envelope;
  keys = web_key ∷ [];
}

abbrev pub renamed_token : Token
renamed_token = record web_token { label = codes "acm2"; pin = codes "5678" }

abbrev stored_key : Config.PrivateKey
stored_key = record {
  pem = codes "pem";
  encrypted_pem_b64 = codes "pem";
  id = 1;
  label = codes "web";
  cert_pem = none;
}

abbrev pub stored_token : Config.Token
stored_token = record {
  label = codes "acm";
  private_keys = stored_key ∷ [];
  pin = codes "1234";
  expiry_ts = 172810;
}

abbrev pub free_text : Option Device
free_text = some (record { slots = replicate 128 none })

abbrev pub web_text : Option Device
web_text = some (record { slots = set (replicate 128 none) 0 (some stored_token) })

pub add_test : handle memory echo all_well (add_token web_token) free_text ≡ (ok nothing, web_text)
unfolding handle validate_args load save count_label find_free decrypt_token_keys decrypt_pem
    decrypt_with from_utf8
add_test = refl

-- Adding it again, or removing it with a wrong PIN, is refused.
pub refusal_test :
    (handle memory echo all_well (add_token web_token) web_text
      ≡ (err token_label_in_use, web_text))
    × (handle memory echo all_well (remove_token (codes "acm") (codes "0000")) web_text
        ≡ (err access_denied, web_text))
    × (handle memory echo all_well (remove_token (codes "acm") (codes "1234")) web_text
        ≡ (ok nothing, free_text))
unfolding handle validate_args load save count_label find_label bytes_eq
refusal_test = (refl, refl, refl)

validate_token_iff_example : (validate_token web_token ≡ ok tt) ↔ TokenFits web_token
validate_token_iff_example = validate_token_iff web_token

get_elem?-expire_slots_iff_example :
    (get_elem? (expire_slots (λ i. 10) (none ∷ some stored_token ∷ [])) 1
      ≡ some (some stored_token))
    ↔ ((get_elem? {A = Option Config.Token} (none ∷ some stored_token ∷ []) 1
          ≡ some (some stored_token))
        × (10 < 172810))
get_elem?-expire_slots_iff_example =
    get_elem?-expire_slots_iff (λ i. 10) (none ∷ some stored_token ∷ []) 1 stored_token

decrypt_token_keys_iff_example :
    (decrypt_token_keys echo envelope (web_key ∷ []) ≡ ok (stored_key ∷ []))
    ↔ AllDecrypt echo envelope (web_key ∷ []) (stored_key ∷ [])
decrypt_token_keys_iff_example =
    decrypt_token_keys_iff echo envelope (web_key ∷ []) (stored_key ∷ [])

abbrev pub free_device : Device
free_device = record { slots = replicate 128 none }

count-replicate : (label : Bytes) (n : ℕ) → count_label label (replicate n none) ≡ 0
unfolding count_label
count-replicate label zero = refl
count-replicate label (suc n) = count-replicate label n

pub free-GoodSlots : GoodSlots (replicate 128 none)
free-GoodSlots = (λ label. omega (arith, count-replicate label 128), refl)

pub wrong_pin : codes "1234" ≢ codes "0000"
unfolding bytes_eq
wrong_pin e = cc ((bytes_eq_iff (codes "1234") (codes "0000")).1 e)

pub other_label : codes "acm2" ≢ codes "acm"
unfolding bytes_eq
other_label e = cc ((bytes_eq_iff (codes "acm2") (codes "acm")).1 e)

abbrev pub web_description : DeviceDescription
web_description = record {
  free_slot_count = 127;
  tokens = record { label = codes "acm"; slot_id = 0; ttl_secs = 172800; keys = none } ∷ [];
}

pub describe_test :
    (handle memory echo all_well describe_device web_text).0
    ≡ ok (device_description web_description)
unfolding handle validate_args load describe_slots
describe_test = refl

pub update_test :
    (handle memory echo all_well
      (update_token (codes "acm") (codes "1234") renamed_token)
      web_text).0
    ≡ ok nothing
unfolding handle validate_args load save find_label bytes_eq decrypt_token_keys decrypt_pem
    decrypt_with from_utf8
update_test = refl

pub args_test : validate_args (describe_token (codes "acm") (codes "1234")) ≡ ok tt
unfolding validate_args
args_test = refl

pub args_test' : validate_args (remove_token (codes "acm") (codes "0000")) ≡ ok tt
unfolding validate_args
args_test' = refl

pub valid_test : validate_args describe_device ≡ ok tt
unfolding validate_args
valid_test = refl

pub load_test :
    load_device memory all_well.load_clock web_text
    ≡ ok (record { slots = set (replicate 128 none) 0 (some stored_token) })
unfolding load_device
load_test = refl

pub find_test :
    find_label (codes "acm") (set (replicate 128 none) 0 (some stored_token))
    ≡ some (0, stored_token)
unfolding find_label bytes_eq
find_test = refl
