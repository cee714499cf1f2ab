-- ===== src/P11/Examples/Objects.antt =====
-- The theorems on mechanisms, operation states and objects of vtok_p11/src/backend at concrete inputs.
use aws_nitro_enclaves_acm.Prelude.{◌≡◌, ◌↔◌, ◌⊎◌, refl, true, false, some, List, [], ◌∷◌, All, ok}
use aws_nitro_enclaves_acm.Prelude.Assoc.{get, remove}
use aws_nitro_enclaves_acm.P11.Ck.Mech
use aws_nitro_enclaves_acm.P11.Ck.Attrs
use aws_nitro_enclaves_acm.P11.Mechanism.{Mechanism, sha256, rsa_pkcs_pss, ck_type, from_ckraw_mech}
use aws_nitro_enclaves_acm.P11.Mechanism.RoundTrip.{
  raw_of, IsConsistent, from_ckraw_mech_sound, from_ckraw_mech_complete,
}
use aws_nitro_enclaves_acm.P11.OpCtx.{OpCtxState, initialized, multipart_active, multipart_ready}
use aws_nitro_enclaves_acm.P11.OpCtx.Reach.{Entered, OnlySingle, UpdatesThenFinal, enter_all_iff}
use aws_nitro_enclaves_acm.P11.RawAttr.{CkRawAttr}
use aws_nitro_enclaves_acm.P11.Object.{new_rsa_public_key, is_mechanism}
use aws_nitro_enclaves_acm.P11.Object.Template.{fill_attr_template, match_attr_template}
use aws_nitro_enclaves_acm.P11.Object.Matches.{Matches, asks_class, match_attr_template_iff}
use aws_nitro_enclaves_acm.P11.Object.Fills.{Fillable, fill_attr_template_iff, match-fill}
use aws_nitro_enclaves_acm.P11.Examples.{public_key}

abbrev pss256 : Mechanism
pss256 =
    rsa_pkcs_pss (some sha256)
      (some (record { hash_alg = Mech.ckm_sha256; mgf = Mech.ckg_mgf1_sha256; s_len = 32 }))

from_ckraw_mech_complete_example : from_ckraw_mech (raw_of pss256) ≡ ok pss256
unfolding ck_type
from_ckraw_mech_complete_example = from_ckraw_mech_complete pss256 refl

from_ckraw_mech_sound_example : (ck_type pss256 ≡ (raw_of pss256).type) × IsConsistent pss256
unfolding ck_type
from_ckraw_mech_sound_example =
    from_ckraw_mech_sound (raw_of pss256) pss256 (from_ckraw_mech_complete pss256 refl)

abbrev requests : List OpCtxState
requests = multipart_active ∷ multipart_active ∷ multipart_ready ∷ []

enter_all_iff_example :
    Entered initialized requests ↔ (OnlySingle requests ⊎ UpdatesThenFinal requests)
enter_all_iff_example = enter_all_iff requests tt

-- A template that asks for the label, with a buffer of four bytes.
abbrev template : List CkRawAttr
template = record { type = Attrs.cka_label; value = some (0 ∷ 0 ∷ 0 ∷ 0 ∷ []); value_len = 4 } ∷ []

match_attr_template_iff_example : (match_attr_template public_key template ≡ true) ↔ (
    All (Matches public_key) template
    × (is_mechanism public_key ≡ true → asks_class template ≡ true))
match_attr_template_iff_example = match_attr_template_iff public_key template

fill_attr_template_iff_example :
    ((fill_attr_template public_key template).1 ≡ ok tt) ↔ All (Fillable public_key) template
fill_attr_template_iff_example = fill_attr_template_iff public_key template

public_key-is_mechanism : is_mechanism public_key ≡ false
unfolding is_mechanism new_rsa_public_key
public_key-is_mechanism = refl

public_key-fill : (fill_attr_template public_key template).1 ≡ ok tt
unfolding fill_attr_template new_rsa_public_key get remove
public_key-fill = refl

match-fill_example :
    match_attr_template public_key (fill_attr_template public_key template).0 ≡ true
match-fill_example =
    match-fill public_key template public_key-is_mechanism ((_, refl), tt) public_key-fill
