-- ===== src/Srv/Edit/Views.antt =====
-- The requests as changes of the map from labels to tokens.
use aws_nitro_enclaves_acm.Prelude.{ℕ, ◌≡◌, none, some, Bytes, bytes_eq, if◌then◌else◌, sym, subst}
use aws_nitro_enclaves_acm.Common.Config
use aws_nitro_enclaves_acm.Common.Config.{Slots, Io}
use aws_nitro_enclaves_acm.Rpc.Schema.{Token, EnvelopeKey}
use aws_nitro_enclaves_acm.Srv.Kms.{Kms}
use aws_nitro_enclaves_acm.Srv.Worker.{expiry_from}
use aws_nitro_enclaves_acm.Srv.Slots.{find_label}
use aws_nitro_enclaves_acm.Srv.Slots.Search.{
  Unique, lookup, count_label-zero, find_label-label, lookup-insert, lookup-replace, lookup-delete,
}
use aws_nitro_enclaves_acm.Srv.Edit.{Adds, Refreshes, Removes, Updates}

find_label-own :
    (l l' : Bytes) (slots : Slots) (i : ℕ) (tok : Config.Token)
    → l' ≡ l
    → find_label l slots ≡ some (i, tok)
    → find_label l' slots ≡ some (i, tok)
find_label-own l l' slots i tok e h = subst (λ x. find_label x slots ≡ some (i, tok)) (sym e) h

module _ (k : Kms) (io : Io) (slots slots' : Slots) where
  pub Adds-lookup :
      (token : Token) (a : Adds k io token slots slots') (label : Bytes)
      → lookup label slots'
        ≡ (if bytes_eq token.label label then some a.new else lookup label slots)
  Adds-lookup token a label =
      rw (a.stored, ← a.new_label)
        (lookup-insert label slots a.i a.new a.free
          (count_label-zero a.new.label slots (rw a.new_label a.fresh)))

  pub Removes-lookup :
      (l pin : Bytes) (r : Removes k io l pin slots slots') (label : Bytes)
      → Unique slots
      → lookup label slots' ≡ (if bytes_eq l label then none else lookup label slots)
  Removes-lookup l pin r label u = rw r.stored (lookup-delete label l slots r.i r.old r.found (u l))

  pub Updates-lookup :
      (l pin : Bytes) (token : Token) (r : Updates k io l pin token slots slots') (label : Bytes)
      → lookup label slots' ≡ (if bytes_eq l label then some r.new else lookup label slots)
  Updates-lookup l pin token r label =
      rw (r.stored, ← r.new_label)
        (lookup-replace label slots r.i r.old r.new
          (find_label-own l r.new.label slots r.i r.old r.new_label r.found))

  pub Refreshes-lookup :
      (l pin : Bytes) (e : EnvelopeKey) (r : Refreshes k io l pin e slots slots') (label : Bytes)
      → lookup label slots' ≡ (
          if bytes_eq l label
          then some (record (r.old) { expiry_ts = expiry_from (io.call_clock 0) })
          else lookup label slots)
  Refreshes-lookup l pin e r label =
      let own = find_label-label l slots r.i r.old r.found in
      rw (r.stored, ← own)
        (lookup-replace label slots r.i r.old _
          (find_label-own l r.old.label slots r.i r.old own r.found))
