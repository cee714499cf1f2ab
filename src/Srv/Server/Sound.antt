-- ===== src/Srv/Server/Sound.antt =====
-- The invariant of the config file: whatever fails, what parses is a device of 128 slots in which no
-- two tokens share a label.
use aws_nitro_enclaves_acm.Prelude.{
  ℕ, zero, suc, ◌≡◌, ◌⊎◌, refl, sym, subst, ◌∙◌, true, false, none, some, Option, List, [], ◌∷◌,
  Bytes, length, replicate, length-replicate, ok, arith, Bool-cases, Result-cases, Option-cases,
  inl, inr,
}
use aws_nitro_enclaves_acm.Common.Defs.{device_max_slots}
use aws_nitro_enclaves_acm.Common.Config.{
  Json, RoundTrips, Io, Device, Config, Write, whole, short, Slots, Token, load_device,
  expire_slots, to_writer, save, init_new,
}
use aws_nitro_enclaves_acm.Common.Config.Load.{length-expire_slots}
use aws_nitro_enclaves_acm.Rpc.Schema.{ApiRequest}
use aws_nitro_enclaves_acm.Srv.Kms.{Kms}
use aws_nitro_enclaves_acm.Srv.Slots.{count_label}
use aws_nitro_enclaves_acm.Srv.Slots.Search.{Unique, count_label-expire}
use aws_nitro_enclaves_acm.Srv.Worker.{handle}
use aws_nitro_enclaves_acm.Srv.Edit.{Serves}
use aws_nitro_enclaves_acm.Srv.Edit.Keeps.{Serves-Unique, Serves-length}
use aws_nitro_enclaves_acm.Srv.Edit.Outcome.{Outcome, untouched, saved, config_of, handle-Outcome}
use aws_nitro_enclaves_acm.Srv.Server.{Client, handle_client, serve, run_server}

-- What serde_json documents: a value reads back, no prefix of it reads as another value, and the
-- empty input does not parse.
pub record JsonLaws (j : Json) : Type 0 where
  pub round_trip : RoundTrips j
  pub prefix_reads :
      (n : ℕ) (d d' : Device) → j.from_json (j.prefix n (j.to_json d)) ≡ some d' → d' ≡ d
  pub empty_fails : (text : j.Text) → j.from_json (j.prefix 0 text) ≡ none

abbrev pub GoodSlots : Slots → Type 0
GoodSlots slots = Unique slots × (length slots ≡ device_max_slots)

module _ (j : Json) where
  abbrev pub IsSound : j.Text → Type 0
  IsSound text = (d : Device) → j.from_json text ≡ some d → GoodSlots d.slots

  module _ (laws : JsonLaws j) where
    empty-IsSound : (text : j.Text) → IsSound (j.prefix 0 text)
    empty-IsSound text d h = ground (arith, laws.empty_fails text)

    subst-GoodSlots : {d d' : Device} → d' ≡ d → GoodSlots d.slots → GoodSlots d'.slots
    subst-GoodSlots e g = subst (λ x. GoodSlots x.slots) (sym e) g

    to_writer-IsSound :
        (w : Write) (d : Device) (text : j.Text)
        → GoodSlots d.slots
        → IsSound (to_writer j w d text).1
    unfolding to_writer
    to_writer-IsSound whole d text g d' h = subst-GoodSlots (ground (arith, laws.round_trip d)) g
    to_writer-IsSound (short n true) d text g d' h = subst-GoodSlots (laws.prefix_reads n d d' h) g
    to_writer-IsSound (short n false) d text g d' h = subst-GoodSlots (laws.prefix_reads n d d' h) g

    save-text :
        (io : Io) (c : Config) (text : j.Text)
        → ((save j io c text).1 ≡ text)
          ⊎ ((save j io c text).1 ≡ (to_writer j io.written c.device (j.prefix 0 text)).1)
    unfolding save
    save-text io c text = elim (Bool-cases c.file) [
      | inr e ↦ inl (ground arith)
      | inl f ↦ elim (Bool-cases io.sought) [
        | inr e ↦ inl (ground arith)
        | inl s ↦ elim (Bool-cases io.truncated) [
          | inr e ↦ inl (ground arith)
          | inl t ↦ inr (ground arith)
        ]
      ]
    ]

    save-IsSound :
        (io : Io) (c : Config) (text : j.Text)
        → IsSound text
        → GoodSlots c.slots
        → IsSound (save j io c text).1
    save-IsSound io c text s g = elim (save-text io c text) [
      | inl e ↦ subst IsSound (sym e) s
      | inr e ↦ subst IsSound (sym e) (to_writer-IsSound io.written c.device _ g)
    ]

    pub load-GoodSlots :
        (clock : ℕ → ℕ) (text : j.Text) (slots : Slots)
        → IsSound text
        → load_device j clock text ≡ ok (record { slots = slots })
        → GoodSlots slots
    unfolding load_device
    load-GoodSlots clock text slots s h = elim (Option-cases (j.from_json text)) [
      | inl e ↦ ground arith
      | inr (d, e) ↦
          let same : slots ≡ expire_slots clock d.slots = ground arith in
          let g : GoodSlots d.slots = s d e in
          subst GoodSlots (sym same) (
            λ label. omega (arith, count_label-expire label clock d.slots, g.0 label),
            length-expire_slots clock d.slots ∙ g.1,
          )
    ]

    module _ (k : Kms) where
      pub handle-IsSound :
          (io : Io) (request : ApiRequest) (text : j.Text)
          → IsSound text
          → IsSound (handle j k io request text).1
      handle-IsSound io request text s = go (handle-Outcome j io text k request)
        where
          go :
              Outcome j io text (Serves k io request) (handle j k io request text)
              → IsSound (handle j k io request text).1
          go (untouched same _) = subst IsSound (sym same) s
          go (saved slots slots' loaded served _ written) =
              let g = load-GoodSlots io.load_clock text slots s loaded in
              subst IsSound (sym written) (
                save-IsSound io (config_of slots') text s (
                  Serves-Unique k io request slots slots' served g.0,
                  Serves-length k io request slots slots' served ∙ g.1,
                ))

      handle_client-text :
          (client : Client) (text : j.Text)
          → ((handle_client j k client text).1 ≡ text)
            ⊎ ((request : ApiRequest) × ((handle_client j k client text).1
                  ≡ (handle j k client.io request text).1))
      unfolding handle_client
      handle_client-text client text = elim (Bool-cases client.accepted) [
        | inr e ↦ inl (ground arith)
        | inl a ↦ elim (Bool-cases client.timeouts) [
          | inr e ↦ inl (ground arith)
          | inl t ↦ elim (Result-cases client.received) [
            | inr (e, h) ↦ inl (ground arith)
            | inl (request, h) ↦ inr (request, ground arith)
          ]
        ]
      ]

      handle_client-IsSound :
          (client : Client) (text : j.Text)
          → IsSound text
          → IsSound (handle_client j k client text).1
      handle_client-IsSound client text s = elim (handle_client-text client text) [
        | inl e ↦ subst IsSound (sym e) s
        | inr (request, e) ↦ subst IsSound (sym e) (handle-IsSound client.io request text s)
      ]

      serve-IsSound :
          (text : j.Text) (clients : List Client) → IsSound text → IsSound (serve j k text clients)
      unfolding serve
      serve-IsSound text [] s = s
      serve-IsSound text (client ∷ clients) s =
          serve-IsSound (handle_client j k client text).1 clients
            (handle_client-IsSound client text s)

      count_label-replicate : (label : Bytes) (n : ℕ) → count_label label (replicate n none) ≡ 0
      unfolding count_label
      count_label-replicate label zero = refl
      count_label-replicate label (suc n) = count_label-replicate label n

      free_slots-GoodSlots : GoodSlots (replicate device_max_slots none)
      free_slots-GoodSlots = (
        λ label. omega (arith, count_label-replicate label device_max_slots),
        length-replicate {A = Option Token} device_max_slots none,
      )

      init_new-text :
          (io : Io) (text : j.Text)
          → (init_new j io text).0 ≡ ok tt
          → (init_new j io text).1
            ≡ (to_writer j io.written
                (record { slots = replicate device_max_slots none })
                (j.prefix 0 text)).1
      unfolding init_new
      init_new-text io text h = ground arith

      -- Once the server has started, and whatever its clients send and whichever system calls fail,
      -- what the config file parses to is a device of 128 slots of which no two share a label.
      pub run_server-IsSound :
          (io : Io) (clients : List Client) (text : j.Text)
          → (run_server j k io clients text).0 ≡ ok tt
          → IsSound (run_server j k io clients text).1
      unfolding run_server
      run_server-IsSound io clients text h = elim (Result-cases (init_new j io text).0) [
        | inr (e, bad) ↦ ground arith
        | inl (_, good) ↦
            let started : IsSound (init_new j io text).1 =
              subst IsSound (sym (init_new-text io text good))
                (to_writer-IsSound io.written _ _ free_slots-GoodSlots) in
            let same : (run_server j k io clients text).1
                ≡ serve j k (init_new j io text).1 clients =
              ground arith in
            subst IsSound (sym same) (serve-IsSound _ clients started)
      ]
