-- ===== src/Agent/Target/Rewrite.antt =====
-- vtok_agent/src/agent/httpd.rs: what the rewriting of a configuration does to its lines.
use aws_nitro_enclaves_acm.Prelude.{
  ℕ, ◌≡◌, refl, ◌∙◌, sym, ap, false, Option, some, List, [], ◌∷◌, ◌++◌, map, Bytes, codes,
  from_utf8, ◌==◌, arith, All, inl, inr, Bool-cases, Option-cases, subst,
}
use aws_nitro_enclaves_acm.Agent.Imds.{split_byte, starts_with}
use aws_nitro_enclaves_acm.Agent.Target.{
  quoted, rewrite_line, strip_return, lines_of, rewrite_lines, httpd_entries,
}

abbrev pub NoFeed : Bytes → Type 0
NoFeed = All (λ b. (b == b'\n') ≡ false)

-- UTF-8 text with no line feed in it, and no carriage return at its end.
pub record IsLine (l : Bytes) : Type 0 where
  pub no_feed : NoFeed l
  pub no_return : strip_return l ≡ l
  pub utf8 : from_utf8 l ≡ some l

abbrev pub unlines : List Bytes → Bytes
unlines [] = []
unlines (l ∷ ls) = l ++ b'\n' ∷ unlines ls

split_byte-line :
    (l rest : Bytes) → NoFeed l → split_byte b'\n' (l ++ b'\n' ∷ rest) ≡ l ∷ split_byte b'\n' rest
unfolding split_byte
split_byte-line [] rest h = refl
split_byte-line (c ∷ cs) rest h =
    let (plain, others) = h in ground (arith, plain, split_byte-line cs rest others)

split_byte-cons :
    (b : ℕ) (text : Bytes) → (w : Bytes) × (ws : List Bytes) × (split_byte b text ≡ w ∷ ws)
unfolding split_byte
split_byte-cons b [] = ([], [], refl)
split_byte-cons b (c ∷ cs) =
    let (w, ws, e) = split_byte-cons b cs in
    elim (Bool-cases (c == b)) [
      | inl here ↦ ([], split_byte b cs, ground (arith, here))
      | inr past ↦ (c ∷ w, ws, ground (arith, past, e))
    ]

lines_of-cons :
    (l w : Bytes) (ws : List Bytes) → lines_of (l ∷ w ∷ ws) ≡ strip_return l ∷ lines_of (w ∷ ws)
unfolding lines_of
lines_of-cons l w ws = refl

lines_of_feed :
    (l text : Bytes)
    → strip_return l ≡ l
    → lines_of (l ∷ split_byte b'\n' text) ≡ l ∷ lines_of (split_byte b'\n' text)
lines_of_feed l text h =
    let (w, ws, e) = split_byte-cons b'\n' text in
    rw e (lines_of-cons l w ws ∙ ap (λ v. v ∷ lines_of (w ∷ ws)) h)

lines-unlines : (ls : List Bytes) → All IsLine ls → lines_of (split_byte b'\n' (unlines ls)) ≡ ls
lines-unlines [] h = unfold split_byte lines_of in refl
lines-unlines (l ∷ ls) h =
    ap lines_of (split_byte-line l (unlines ls) h.0.no_feed)
    ∙ lines_of_feed l (unlines ls) h.0.no_return
    ∙ ap (λ ms. l ∷ ms) (lines-unlines ls h.1)

module _ (uri : Bytes) (cert : Option Bytes) where
  rewrite_lines-map :
      (ls : List Bytes)
      → All IsLine ls
      → rewrite_lines uri cert ls ≡ unlines (map (rewrite_line uri cert) ls)
  unfolding rewrite_lines
  rewrite_lines-map [] h = refl
  rewrite_lines-map (l ∷ ls) h =
      rw (h.0.utf8, rewrite_lines)
        (ap (λ rest. rewrite_line uri cert l ++ b'\n' ∷ rest) (rewrite_lines-map ls h.1))

  -- What becomes of a line: it stays, or it is one of the two that are written.
  data Rewritten (l : Bytes) : Type 0 where
    stays : rewrite_line uri cert l ≡ l → Rewritten l
    key : rewrite_line uri cert l ≡ quoted (codes "SSLCertificateKeyFile") uri → Rewritten l
    certificate :
        (cp : Bytes)
        → cert ≡ some cp
        → rewrite_line uri cert l ≡ quoted (codes "SSLCertificateFile") cp
        → Rewritten l

  line-Rewritten : (l : Bytes) → Rewritten l
  unfolding rewrite_line
  line-Rewritten l = elim (Bool-cases (starts_with (codes "SSLCertificateKeyFile") l)) [
    | inl k ↦ key (rw (k, rewrite_line) refl)
    | inr n ↦ elim (Bool-cases (starts_with (codes "SSLCertificateFile") l)) [
      | inr m ↦ stays (rw (n, rewrite_line) (rw m refl))
      | inl c ↦ elim (Option-cases cert) [
        | inl e ↦ stays (rw (n, rewrite_line) (rw c (rw e refl)))
        | inr (cp, e) ↦ certificate cp e (rw (n, rewrite_line) (rw c (rw e refl)))
      ]
    ]
  ]

  key_again :
      rewrite_line uri cert (quoted (codes "SSLCertificateKeyFile") uri)
      ≡ quoted (codes "SSLCertificateKeyFile") uri
  unfolding rewrite_line
  key_again = refl

  certificate_again :
      (cp : Bytes)
      → cert ≡ some cp
      → rewrite_line uri cert (quoted (codes "SSLCertificateFile") cp)
        ≡ quoted (codes "SSLCertificateFile") cp
  unfolding rewrite_line
  certificate_again cp e = rw e refl

  rewrite_line_twice :
      (l : Bytes) → rewrite_line uri cert (rewrite_line uri cert l) ≡ rewrite_line uri cert l
  rewrite_line_twice l = elim (line-Rewritten l) [
    | stays e ↦ ap (rewrite_line uri cert) e
    | key e ↦ ap (rewrite_line uri cert) e ∙ key_again ∙ sym e
    | certificate cp f e ↦ ap (rewrite_line uri cert) e ∙ certificate_again cp f ∙ sym e
  ]

  map_twice :
      (ls : List Bytes)
      → map (rewrite_line uri cert) (map (rewrite_line uri cert) ls)
        ≡ map (rewrite_line uri cert) ls
  map_twice [] = refl
  map_twice (l ∷ ls) =
      rw (rewrite_line_twice l) (ap (λ ms. rewrite_line uri cert l ∷ ms) (map_twice ls))

  rewrite_line-IsLine :
      (l : Bytes)
      → IsLine (quoted (codes "SSLCertificateKeyFile") uri)
      → ((cp : Bytes) → cert ≡ some cp → IsLine (quoted (codes "SSLCertificateFile") cp))
      → IsLine l
      → IsLine (rewrite_line uri cert l)
  rewrite_line-IsLine l k c h = elim (line-Rewritten l) [
    | stays e ↦ subst IsLine (sym e) h
    | key e ↦ subst IsLine (sym e) k
    | certificate cp f e ↦ subst IsLine (sym e) (c cp f)
  ]

  lines-IsLine :
      (ls : List Bytes)
      → IsLine (quoted (codes "SSLCertificateKeyFile") uri)
      → ((cp : Bytes) → cert ≡ some cp → IsLine (quoted (codes "SSLCertificateFile") cp))
      → All IsLine ls
      → All IsLine (map (rewrite_line uri cert) ls)
  lines-IsLine [] k c h = tt
  lines-IsLine (l ∷ ls) k c h = (rewrite_line-IsLine l k c h.0, lines-IsLine ls k c h.1)

  entries-map :
      (ls : List Bytes)
      → All IsLine ls
      → httpd_entries uri cert (unlines ls) ≡ unlines (map (rewrite_line uri cert) ls)
  unfolding httpd_entries
  entries-map ls h = ap (rewrite_lines uri cert) (lines-unlines ls h) ∙ rewrite_lines-map ls h

  -- A configuration of lines is rewritten line by line, and to rewrite it again changes nothing, if
  -- the lines and the two that may be written hold no line end and are UTF-8.
  pub httpd_entries_twice :
      (ls : List Bytes)
      → All IsLine ls
      → IsLine (quoted (codes "SSLCertificateKeyFile") uri)
      → ((cp : Bytes) → cert ≡ some cp → IsLine (quoted (codes "SSLCertificateFile") cp))
      → (httpd_entries uri cert (unlines ls) ≡ unlines (map (rewrite_line uri cert) ls))
        × (httpd_entries uri cert (httpd_entries uri cert (unlines ls))
            ≡ httpd_entries uri cert (unlines ls))
  httpd_entries_twice ls h k c =
      let once = entries-map ls h in
      (
        once,
        ap (httpd_entries uri cert) once
            ∙ entries-map (map (rewrite_line uri cert) ls) (lines-IsLine ls k c h)
            ∙ ap unlines (map_twice ls)
            ∙ sym once,
      )
