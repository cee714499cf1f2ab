-- ===== src/P11/Examples.antt =====
-- The theorems on the PKCS#11 provider at concrete inputs, over a libcrypto of numbers.
mod Objects
mod Sessions
mod Certs
use aws_nitro_enclaves_acm.Prelude.{
  ℕ, ◌+◌, ◌≡◌, ◌↔◌, ◌⊎◌, refl, true, false, none, some, List, [], ◌∷◌, All, length, get_elem?,
  Bytes, codes, ok, arith,
}
use aws_nitro_enclaves_acm.Prelude.Assoc.{get, remove}
use aws_nitro_enclaves_acm.Common.Config
use aws_nitro_enclaves_acm.P11.Ck.Mech
use aws_nitro_enclaves_acm.P11.Ck.Attrs
use aws_nitro_enclaves_acm.P11.Mechanism.{
  Mechanism, sha256, rsa_pkcs, rsa_pkcs_pss, ck_type, from_ckraw_mech,
}
use aws_nitro_enclaves_acm.P11.Mechanism.RoundTrip.{
  raw_of, IsConsistent, from_ckraw_mech_sound, from_ckraw_mech_complete,
}
use aws_nitro_enclaves_acm.P11.OpCtx.{OpCtxState, initialized, multipart_active, multipart_ready}
use aws_nitro_enclaves_acm.P11.OpCtx.Reach.{Entered, OnlySingle, UpdatesThenFinal, enter_all_iff}
use aws_nitro_enclaves_acm.P11.RawAttr.{CkRawAttr}
use aws_nitro_enclaves_acm.P11.Object.{Object, new_rsa_public_key, is_mechanism}
use aws_nitro_enclaves_acm.P11.Object.Template.{fill_attr_template, match_attr_template}
use aws_nitro_enclaves_acm.P11.Object.Matches.{Matches, asks_class, match_attr_template_iff}
use aws_nitro_enclaves_acm.P11.Object.Fills.{Fillable, fill_attr_template_iff, match-fill}
use aws_nitro_enclaves_acm.P11.Db.{Db}
use aws_nitro_enclaves_acm.P11.Crypto.Evp.{Evp}
use aws_nitro_enclaves_acm.P11.Session.{
  Session, EnumCtx, ro_user, new_session, sign_init, verify_init,
}
use aws_nitro_enclaves_acm.P11.Session.Chunks
use aws_nitro_enclaves_acm.P11.Session.Init
use aws_nitro_enclaves_acm.P11.Crypto.Pkey.{rsa}
use aws_nitro_enclaves_acm.P11.Crypto.Sign
use aws_nitro_enclaves_acm.P11.Error.{key_handle_invalid}
use aws_nitro_enclaves_acm.P11.Ck.Rv
use aws_nitro_enclaves_acm.P11.Api.Output.{OutBuf, only}
use aws_nitro_enclaves_acm.P11.Api.Query.{Fits}
use aws_nitro_enclaves_acm.P11.Api.Operations.{digest, sign_final}
use aws_nitro_enclaves_acm.P11.Api.Multipart
use aws_nitro_enclaves_acm.P11.Api.Calls
use aws_nitro_enclaves_acm.P11.Token
use aws_nitro_enclaves_acm.P11.Token.Login
use aws_nitro_enclaves_acm.P11.Device.{
  Device, World, token, open_session, close_session, session, do_reload_slots, new_device,
}
use aws_nitro_enclaves_acm.P11.Device.Sessions.{WellPlaced}
use aws_nitro_enclaves_acm.P11.Device.Given.{Descending}
use aws_nitro_enclaves_acm.P11.Device.Reach
use aws_nitro_enclaves_acm.P11.Device.Handles.{session-open, session-close}
use aws_nitro_enclaves_acm.P11.Device.Reloaded.{reloaded?, get_elem?-do_reload_slots}
use aws_nitro_enclaves_acm.P11.Object.{RsaKeyInfo, new_rsa_private_key}
use aws_nitro_enclaves_acm.Prelude.{take, drop, err}
use aws_nitro_enclaves_acm.Prelude.{from_utf8, ◌++◌, length-append}
use aws_nitro_enclaves_acm.P11.Ck.Flags
use aws_nitro_enclaves_acm.P11.Api.Entry.{c_login}
use aws_nitro_enclaves_acm.P11.Api.Authentic.{HasPin, c_login-HasPin}
use aws_nitro_enclaves_acm.P11.Crypto.Digest.{
  DigestCtx, new_digest_ctx, digest_finalize, digest_once,
}
use aws_nitro_enclaves_acm.P11.Crypto.Parts.{DigestLaws, concat, value_of, feed, finalize-feed}

abbrev pub key_info : RsaKeyInfo
key_info = record {
  priv_pem = codes "pem";
  id = 7;
  label = codes "key";
  num_bits = 2048;
  modulus = 187 ∷ [];
  public_exponent = 3 ∷ [];
}

abbrev pub public_key : Object
public_key = new_rsa_public_key key_info

-- A libcrypto in which every value is a number, and every call gives a number or the bytes it got.
abbrev pub toy : Evp
toy = record {
  EvpPkey = ℕ;
  EvpMd = ℕ;
  EvpCtx = ℕ;
  Bignum = ℕ;
  pem_read_private_key = λ pem. some (length pem);
  evp_pkey_id = λ k. 6;
  evp_pkey_bits = λ k. 2048;
  evp_pkey_size = λ k. 256;
  evp_sha1 = 1;
  evp_sha224 = 224;
  evp_sha256 = 256;
  evp_sha384 = 384;
  evp_sha512 = 512;
  evp_md_size = λ md. md;
  evp_md_ctx_new = some 0;
  evp_pkey_ctx_new = λ k. some k;
  evp_digest_init_ex = λ c md. some md;
  evp_digest_update = λ c data_in. (c + length data_in, true);
  evp_digest_final_ex = λ c. some (c ∷ []);
  evp_digest = λ md data_in. some data_in;
  evp_digest_sign_init = λ c md k. some k;
  evp_digest_sign_update = λ c data_in. (c + length data_in, true);
  evp_digest_sign_final = λ c n. some (c ∷ []);
  evp_digest_sign = λ c n data_in. some data_in;
  evp_pkey_sign_init = λ c. some c;
  evp_pkey_sign = λ c n data_in. some data_in;
  evp_pkey_ctx_has_pkey = λ c. true;
  evp_digest_verify_init = λ c md k. some k;
  evp_digest_verify_update = λ c data_in. (c + length data_in, true);
  evp_digest_verify_final = λ c sig. true;
  evp_digest_verify = λ c sig data_in. true;
  evp_pkey_verify_init = λ c. some c;
  evp_pkey_verify = λ c sig data_in. true;
  evp_pkey_encrypt_init = λ c. some c;
  evp_pkey_encrypt = λ c n data_in. some data_in;
  evp_pkey_decrypt_init = λ c. some c;
  evp_pkey_decrypt = λ c n data_in. some data_in;
  set_rsa_padding = λ c p. some c;
  set_signature_md = λ c md. some c;
  set_rsa_mgf1_md = λ c md. some c;
  set_rsa_pss_saltlen = λ c n. some c;
  d2i_ecdsa_sig = λ sig. some (some 1, some 2);
  i2d_ecdsa_sig = λ r s. some (r ∷ s ∷ []);
  bn_bin2bn = λ bs. some (length bs);
  bn_num_bytes = λ n. 1;
  bn_bn2bin_padded = λ len n. some (n ∷ []);
}

abbrev pub pin : Bytes
pin = codes "1234"

abbrev token_config : Config.Token
token_config = record { label = codes "a"; private_keys = []; pin = pin; expiry_ts = 1000 }

abbrev load_db : Token.DbLoader
load_db c = ok (record { token_pin = c.pin; objects = public_key ∷ [] })

abbrev loaded : Token.Token toy
loaded = record {
  slot_id = 0;
  label = codes "a";
  sessions = [];
  db = some (record { token_pin = pin; objects = public_key ∷ [] });
  user_login = false;
  expiry_ts = 1000;
}

from_config-loaded : Token.from_config load_db 0 token_config ≡ ok loaded
unfolding Token.from_config
from_config-loaded = refl

abbrev after_login : Token.Token toy
after_login = (Token.login 1 pin (Token.open_session 1 loaded).1).1

reachable-WellFormed_example : Login.WellFormed after_login
reachable-WellFormed_example = Login.reachable-WellFormed after_login (
    Login.stepped
      (Login.stepped (Login.loaded load_db 0 token_config from_config-loaded) (Login.by_open 1))
      (Login.by_login 1 pin))

abbrev pub world : World
world = record {
  reload_clock = λ i. 10;
  now = 10;
  modification_time = some 5;
  config = some (some token_config ∷ none ∷ []);
}

abbrev device : Device toy
device = record {
  slots = record { id = 0; token = some loaded } ∷ record { id = 1; token = none } ∷ [];
  session_slot_map = [];
  next_session_handle = 1;
  config_update_time = 5;
}

new_device-device : new_device load_db world ≡ ok device
unfolding new_device
new_device-device = refl

device-Reachable : Reach.Reachable device
device-Reachable = Reach.initial load_db world new_device-device

abbrev pub with_one : Device toy
with_one = (open_session 10 0 device).1

-- The first session is closed and a second one opened: it has a handle of its own.
abbrev reopened : Device toy
reopened = (open_session 30 0 (close_session 20 1 with_one).1).1

reopened-Reachable : Reach.Reachable reopened
unfolding open_session close_session
reopened-Reachable =
    Reach.stepped
      (Reach.stepped (Reach.stepped device-Reachable (Reach.by_open 10 0 (omega arith)))
        (Reach.by_close 20 1))
      (Reach.by_open 30 0 (omega arith))

given-reopened : Reach.given reopened-Reachable ≡ 2 ∷ 1 ∷ []
unfolding Reach.given reopened-Reachable device-Reachable
given-reopened = refl

reachable-WellPlaced_example : WellPlaced reopened × Descending (Reach.given reopened-Reachable)
reachable-WellPlaced_example = Reach.reachable-WellPlaced reopened reopened-Reachable

open_session-device : open_session 10 0 device ≡ (ok 1, with_one)
unfolding open_session
open_session-device = refl

session-open_example :
    (get 1 device.session_slot_map ≡ none)
    × (t : Token.Token toy) × (db : Db) × (token 10 0 device ≡ ok t)
    × (t.db ≡ some db)
    × (session 10 1 with_one ≡ some (new_session t.slot_id db (Token.login_state t.user_login)))
session-open_example =
    session-open 10 0 1 device with_one (Reach.reachable-WellPlaced device device-Reachable).0
      open_session-device

abbrev closed_one : Device toy
closed_one = (close_session 20 1 with_one).1

close_session-with_one : close_session 20 1 with_one ≡ (ok tt, closed_one)
unfolding close_session open_session
close_session-with_one = refl

session-close_example : session 30 1 closed_one ≡ none
session-close_example = session-close 20 30 1 with_one closed_one close_session-with_one

-- The config has gained a token in slot 1, and slot 0 was refreshed.
abbrev changed : World
changed = record {
  reload_clock = λ i. 30;
  now = 30;
  modification_time = some 6;
  config = some (some (record token_config { expiry_ts = 2000 }) ∷ some token_config ∷ []);
}

get_elem?-do_reload_slots_example :
    get_elem? (do_reload_slots changed with_one).1.slots 1
    ≡ reloaded? 1
        (get_elem? (some (record token_config { expiry_ts = 2000 }) ∷ some token_config ∷ []) 1)
        (get_elem? with_one.slots 1)
get_elem?-do_reload_slots_example =
    get_elem?-do_reload_slots changed
      (some (record token_config { expiry_ts = 2000 }) ∷ some token_config ∷ []) with_one 1 refl
