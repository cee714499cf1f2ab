-- ===== src/P11/Crypto/Chain.antt =====
-- vtok_p11/src/crypto/cert.rs, `X509Chain::chain_from_pem`: the loop ends.
use aws_nitro_enclaves_acm.Prelude.{
  ℕ, zero, suc, ◌<◌, ◌≤◌, ◌≡◌, refl, ap, some, ◌∷◌, length, Bytes, ok, ◌>>=◌, arith, Option-cases,
  inl, inr,
}
use aws_nitro_enclaves_acm.P11.Crypto.Evp.{Evp}
use aws_nitro_enclaves_acm.P11.Crypto.X509Lib.{X509Lib}
use aws_nitro_enclaves_acm.P11.Crypto.Cert.{read_chain, chain_from_pem}

-- Each certificate that is read leaves less of the text of a BIO.
module _ (E : Evp) (C : X509Lib E) (left : C.Bio → ℕ)
    (takes : (b : C.Bio) (x : C.X509)
      → (C.pem_read_bio_x509 b).0 ≡ some x
      → left (C.pem_read_bio_x509 b).1 < left b) where
  read_chain-fuel :
      (f g : ℕ) (b : C.Bio) → left b < f → left b < g → read_chain E C f b ≡ read_chain E C g b
  unfolding read_chain
  read_chain-fuel zero g b h k = absurd (omega (arith, h))
  read_chain-fuel (suc f) zero b h k = absurd (omega (arith, k))
  read_chain-fuel (suc f) (suc g) b h k = elim (Option-cases (C.pem_read_bio_x509 b).0) [
    | inl none_ ↦ rw (none_, read_chain) refl
    | inr (x, found) ↦
        let less = takes b x found in
        let same =
          read_chain-fuel f g (C.pem_read_bio_x509 b).1 (omega (arith, less, h))
            (omega (arith, less, k)) in
        rw (found, read_chain) (ap (λ r. r >>= λ certs. ok (x ∷ certs)) same)
  ]

  -- The bytes of a text are enough rounds for its certificates: more change nothing.
  chain_from_pem-enough :
      (pem : Bytes) (b : C.Bio) (more : ℕ)
      → C.bio_new_mem_buf pem ≡ some b
      → left b ≤ length pem
      → length pem < more
      → chain_from_pem E C pem ≡ read_chain E C more b
  unfolding chain_from_pem
  chain_from_pem-enough pem b more e h k =
      rw (e, chain_from_pem)
        (read_chain-fuel (suc (length pem)) more b (omega (arith, h)) (omega (arith, h, k)))
