-- ===== src/Srv/Kms/Decrypted.antt =====
-- What the decrypted keys of a token are, in terms of the keys that were sent.
use aws_nitro_enclaves_acm.Prelude.{◌≡◌, ◌↔◌, refl, List, [], ◌∷◌, ok, arith}
use aws_nitro_enclaves_acm.Common.Config
use aws_nitro_enclaves_acm.Rpc.Schema.{EnvelopeKey, PrivateKey}
use aws_nitro_enclaves_acm.Srv.Kms.{Kms, decrypt_pem, decrypt_token_keys}

module _ (k : Kms) (e : EnvelopeKey) where
  -- The stored key is the sent key with its PEM decrypted.
  abbrev pub Decrypts : PrivateKey → Config.PrivateKey → Type 0
  Decrypts key stored =
      (decrypt_pem k e key.encrypted_pem_b64 ≡ ok stored.pem)
      × (stored.encrypted_pem_b64 ≡ key.encrypted_pem_b64)
      × (stored.id ≡ key.id)
      × (stored.label ≡ key.label)
      × (stored.cert_pem ≡ key.cert_pem)

  abbrev pub AllDecrypt : List PrivateKey → List Config.PrivateKey → Type 0
  AllDecrypt [] [] = Unit
  AllDecrypt [] (s ∷ ss) = ⊥
  AllDecrypt (key ∷ keys) [] = ⊥
  AllDecrypt (key ∷ keys) (s ∷ ss) = Decrypts key s × AllDecrypt keys ss

  decrypt_token_keys_sound :
      (keys : List PrivateKey) (stored : List Config.PrivateKey)
      → decrypt_token_keys k e keys ≡ ok stored
      → AllDecrypt keys stored
  unfolding decrypt_token_keys
  decrypt_token_keys_sound [] [] h = tt
  decrypt_token_keys_sound [] (s ∷ ss) h = cc
  decrypt_token_keys_sound (key ∷ keys) [] h = ground arith
  decrypt_token_keys_sound (key ∷ keys) (s ∷ ss) h =
      (ground arith, decrypt_token_keys_sound keys ss (ground arith))

  decrypt_token_keys_complete :
      (keys : List PrivateKey) (stored : List Config.PrivateKey)
      → AllDecrypt keys stored
      → decrypt_token_keys k e keys ≡ ok stored
  unfolding decrypt_token_keys
  decrypt_token_keys_complete [] [] h = refl
  decrypt_token_keys_complete [] (s ∷ ss) h = absurd h
  decrypt_token_keys_complete (key ∷ keys) [] h = absurd h
  decrypt_token_keys_complete (key ∷ keys) (s ∷ ss) h =
      ground (arith, decrypt_token_keys_complete keys ss h.1)

  -- The server decrypts the keys of a token to a list exactly when that list holds, in order, each
  -- key with its own id, label and certificate and with the PEM that decrypting its ciphertext gives.
  pub decrypt_token_keys_iff :
      (keys : List PrivateKey) (stored : List Config.PrivateKey)
      → (decrypt_token_keys k e keys ≡ ok stored) ↔ AllDecrypt keys stored
  decrypt_token_keys_iff keys stored =
      (decrypt_token_keys_sound keys stored, decrypt_token_keys_complete keys stored)
