-- ===== src/Srv/Registry/RoundTrip.antt =====
-- A token that was added is described as it was added.
use aws_nitro_enclaves_acm.Prelude.{
  ℕ, ◌-◌, List, ◌++◌, codes, hex_upper, hex_lower, ◌≡◌, some, [], ◌∷◌, Bytes,
}
use aws_nitro_enclaves_acm.Common.Config
use aws_nitro_enclaves_acm.Common.Config.{Slots, load_device, expire, checked_sub}
use aws_nitro_enclaves_acm.Rpc.Schema.{Token, TokenDescription, PrivateKey, PrivateKeyDescription}
use aws_nitro_enclaves_acm.Srv.Kms.{Kms}
use aws_nitro_enclaves_acm.Srv.Worker.{describe_keys}

abbrev pub join : List Bytes → Bytes
join [] = []
join (part ∷ parts) = part ++ join parts

-- The URI of a key, by its parts.
abbrev pub uri_of : ℕ → Bytes → PrivateKey → Bytes
uri_of i label key = join (
    codes "pkcs11:model=p11ne-token;manufacturer=Amazon;serial=EVT"
    ∷ hex_upper i
    ∷ codes ";token="
    ∷ label
    ∷ codes ";id=%"
    ∷ hex_lower key.id
    ∷ codes ";object="
    ∷ key.label
    ∷ codes ";type=private"
    ∷ [])

-- The descriptions of the keys of a request, in order: each has the ID and the label of its key, and
-- the PKCS#11 URI with them, the slot and the label of the token.
abbrev pub Describes : ℕ → Bytes → List PrivateKey → List PrivateKeyDescription → Type 0
Describes i label [] [] = Unit
Describes i label [] (d ∷ ds) = ⊥
Describes i label (key ∷ keys) [] = ⊥
Describes i label (key ∷ keys) (d ∷ ds) =
    ((d.id ≡ key.id) × (d.label ≡ key.label) × (d.uri ≡ uri_of i label key))
    × Describes i label keys ds

-- The description of a token, apart from the slot in which it is.
abbrev pub description_of : Config.Token → ℕ → ℕ → TokenDescription
description_of tok now i = record {
  label = tok.label;
  slot_id = i;
  ttl_secs = tok.expiry_ts - now;
  keys = some (describe_keys i tok.label tok.private_keys);
}
