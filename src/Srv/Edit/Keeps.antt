-- ===== src/Srv/Edit/Keeps.antt =====
-- Every request that changes the slots keeps the labels distinct and the number of slots.
use aws_nitro_enclaves_acm.Prelude.{
  ℕ, ◌+◌, ◌≤◌, ◌≡◌, none, some, Bytes, bytes_eq, bytes_eq_iff, length, set, length-set, arith, ap,
  ◌∙◌,
}
use aws_nitro_enclaves_acm.Common.Config
use aws_nitro_enclaves_acm.Common.Config.{Slots, Io}
use aws_nitro_enclaves_acm.Rpc.Schema.{
  ApiRequest, add_token, describe_device, describe_token, refresh_token, remove_token, update_token,
}
use aws_nitro_enclaves_acm.Srv.Kms.{Kms}
use aws_nitro_enclaves_acm.Srv.Slots.{count_label, find_label}
use aws_nitro_enclaves_acm.Srv.Slots.Search.{
  Unique, one_if, find_label-label, count_label-insert, count_label-replace, count_label-delete,
}
use aws_nitro_enclaves_acm.Srv.Edit.{Serves}

insert-count :
    (slots : Slots) (l label : Bytes)
    → count_label l slots ≡ 0
    → count_label label slots ≤ 1
    → count_label label slots + one_if (bytes_eq l label) ≤ 1
insert-count slots l label z u = ground (arith, bytes_eq_iff l label)

replace-Unique :
    (slots : Slots) (l : Bytes) (i : ℕ) (old new : Config.Token)
    → find_label l slots ≡ some (i, old)
    → new.label ≡ l
    → Unique slots
    → Unique (set slots i (some new))
replace-Unique slots l i old new found named u label = ground (
  arith,
  count_label-replace label l slots i old new found,
  find_label-label l slots i old found,
  u label,
)

module _ (k : Kms) (io : Io) where
  pub Serves-Unique :
      (request : ApiRequest) (slots slots' : Slots)
      → Serves k io request slots slots'
      → Unique slots
      → Unique slots'
  Serves-Unique (add_token token) slots slots' s u = λ label.
      rw (s.stored, count_label-insert label slots s.i s.new s.free)
        (insert-count slots s.new.label label (rw s.new_label s.fresh) (u label))
  Serves-Unique describe_device slots slots' s u = absurd s
  Serves-Unique (describe_token _ _) slots slots' s u = absurd s
  Serves-Unique (refresh_token l pin e) slots slots' s u =
      rw s.stored
        (replace-Unique slots l s.i s.old _ s.found (find_label-label l slots s.i s.old s.found) u)
  Serves-Unique (remove_token l pin) slots slots' s u = λ label.
      rw s.stored (omega (arith, count_label-delete label l slots s.i s.old s.found, u label))
  Serves-Unique (update_token l pin token) slots slots' s u =
      rw s.stored (replace-Unique slots l s.i s.old s.new s.found s.new_label u)

  pub Serves-length :
      (request : ApiRequest) (slots slots' : Slots)
      → Serves k io request slots slots'
      → length slots' ≡ length slots
  Serves-length (add_token token) slots slots' s =
      ap length s.stored ∙ length-set slots s.i (some s.new)
  Serves-length describe_device slots slots' s = absurd s
  Serves-length (describe_token _ _) slots slots' s = absurd s
  Serves-length (refresh_token l pin e) slots slots' s = ap length s.stored ∙ length-set slots s.i _
  Serves-length (remove_token l pin) slots slots' s = ap length s.stored ∙ length-set slots s.i none
  Serves-length (update_token l pin token) slots slots' s =
      ap length s.stored ∙ length-set slots s.i (some s.new)
