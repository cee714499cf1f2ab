-- ===== src/Srv/Registry/Describe.antt =====
-- The description of the device.
use aws_nitro_enclaves_acm.Prelude.{
  ℕ, suc, ◌+◌, ◌≤◌, ◌≡◌, refl, sym, subst, none, some, Option, List, [], ◌∷◌, ok, length, get_elem?,
  All, arith, leb, Bool-cases, Result-cases, inl, inr,
}
use aws_nitro_enclaves_acm.Common.Config
use aws_nitro_enclaves_acm.Common.Config.{Slots, Json, Io, load, load_device, checked_sub}
use aws_nitro_enclaves_acm.Rpc.Schema.{
  TokenDescription, DeviceDescription, device_description, describe_device,
}
use aws_nitro_enclaves_acm.Srv.Kms.{Kms}
use aws_nitro_enclaves_acm.Srv.Worker.{handle, describe_slot, push, describe_slots}
use aws_nitro_enclaves_acm.Srv.Server.Sound.{JsonLaws, IsSound, load-GoodSlots}

-- A described token stands in its slot, with the label and the time left that are told.
pub record Describes (clock : ℕ → ℕ) (base : ℕ) (slots : Slots) (d : TokenDescription)
    : Type 0 where
  pub i : ℕ
  pub tok : Config.Token
  pub at_slot : d.slot_id ≡ base + i
  pub holds : get_elem? slots i ≡ some (some tok)
  pub same_label : d.label ≡ tok.label
  pub time_left : d.ttl_secs + clock d.slot_id ≡ tok.expiry_ts

Describes-cons :
    (clock : ℕ → ℕ) (base : ℕ) (slot : Option Config.Token) (slots : Slots) (d : TokenDescription)
    → Describes clock (suc base) slots d
    → Describes clock base (slot ∷ slots) d
Describes-cons clock base slot slots d h = record {
  i = suc h.i;
  tok = h.tok;
  at_slot = omega (arith, h.at_slot);
  holds = h.holds;
  same_label = h.same_label;
  time_left = h.time_left;
}

All-Describes-cons :
    (clock : ℕ → ℕ) (base : ℕ) (slot : Option Config.Token) (slots : Slots)
    (ds : List TokenDescription)
    → All (Describes clock (suc base) slots) ds
    → All (Describes clock base (slot ∷ slots)) ds
All-Describes-cons clock base slot slots [] h = tt
All-Describes-cons clock base slot slots (d ∷ ds) h =
    (Describes-cons clock base slot slots d h.0, All-Describes-cons clock base slot slots ds h.1)

All-push :
    (P : TokenDescription → Type 0) (o : Option TokenDescription) (ds : List TokenDescription)
    → ((d : TokenDescription) → o ≡ some d → P d)
    → All P ds
    → All P (push o ds)
All-push P none ds f h = h
All-push P (some d) ds f h = (f d refl, h)

describe_slot_sound :
    (clock : ℕ → ℕ) (base : ℕ) (tok : Config.Token) (slots : Slots) (d : TokenDescription)
    → describe_slot (clock base) base (some tok) ≡ some d
    → Describes clock base (some tok ∷ slots) d
describe_slot_sound clock base tok slots d h = elim (Bool-cases (leb (clock base) tok.expiry_ts)) [
  | inr late ↦ ground arith
  | inl early ↦ record {
    i = 0;
    tok = tok;
    at_slot = ground arith;
    holds = refl;
    same_label = ground arith;
    time_left = ground arith;
  }
]

describe_slots_sound :
    (clock : ℕ → ℕ) (base : ℕ) (slots : Slots)
    → All (Describes clock base slots) (describe_slots clock base slots)
unfolding describe_slots
describe_slots_sound clock base [] = tt
describe_slots_sound clock base (none ∷ slots) =
    All-Describes-cons clock base none slots _ (describe_slots_sound clock (suc base) slots)
describe_slots_sound clock base (some tok ∷ slots) =
    let rest =
      All-Describes-cons clock base (some tok) slots _
        (describe_slots_sound clock (suc base) slots) in
    All-push (Describes clock base (some tok ∷ slots)) _ _
      (describe_slot_sound clock base tok slots) rest

length-describe_slots :
    (clock : ℕ → ℕ) (base : ℕ) (slots : Slots)
    → length (describe_slots clock base slots) ≤ length slots
unfolding describe_slots
length-describe_slots clock base [] = omega arith
length-describe_slots clock base (none ∷ slots) =
    omega (arith, length-describe_slots clock (suc base) slots)
length-describe_slots clock base (some tok ∷ slots) =
    ground (arith, length-describe_slots clock (suc base) slots)

-- On a file that satisfies the server's invariant, a device description counts 128 slots in all, and
-- every token in it is one that the config holds in the slot told, with its label and with the time
-- that it has left at the moment when its slot is examined.
pub handle-describe_device :
    (j : Json) (k : Kms) (io : Io) (text : j.Text) (d : DeviceDescription)
    → JsonLaws j
    → IsSound j text
    → (handle j k io describe_device text).0 ≡ ok (device_description d)
    → (slots : Slots) × (load_device j io.load_clock text ≡ ok (record { slots = slots }))
      × (d.free_slot_count + length d.tokens ≡ 128)
      × All (Describes io.call_clock 0 slots) d.tokens
unfolding handle load
handle-describe_device j k io text d laws s h =
    elim (Result-cases (load_device j io.load_clock text)) [
      | inr (e, bad) ↦ ground arith
      | inl (device, good) ↦
          let g = load-GoodSlots j laws io.load_clock text device.slots s good in
          let tokens : d.tokens ≡ describe_slots io.call_clock 0 device.slots = ground arith in
          (
            device.slots,
            good,
            ground (arith, length-describe_slots io.call_clock 0 device.slots, g.1),
            subst (All (Describes io.call_clock 0 device.slots)) (sym tokens)
                (describe_slots_sound io.call_clock 0 device.slots),
          )
    ]
