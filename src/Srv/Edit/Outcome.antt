-- ===== src/Srv/Edit/Outcome.antt =====
-- Every request leaves the file alone, or makes one edit of the loaded slots and saves it.
use aws_nitro_enclaves_acm.Prelude.{
  ◌≡◌, ◌≢◌, refl, not, ◌||◌, Bool, true, false, Bytes, bytes_eq, bytes_eq→≡, ltb, is_some, Result,
  ok, err, Result-cases, Option-cases, Bool-cases, arith, inl, inr, ◌⊎◌,
}
use aws_nitro_enclaves_acm.Common.Config
use aws_nitro_enclaves_acm.Common.Config.{Slots, Config, Device, Json, Io, load_device, load, save}
use aws_nitro_enclaves_acm.Rpc.Schema.{
  EnvelopeKey, Token, ApiRequest, add_token, describe_device, describe_token, refresh_token,
  remove_token, update_token, nothing, internal_error, ApiResponse,
}
use aws_nitro_enclaves_acm.Rpc.Validators.{validate_args}
use aws_nitro_enclaves_acm.Srv.Kms.{Kms, decrypt_token_keys}
use aws_nitro_enclaves_acm.Srv.Slots.{count_label, find_label, find_free}
use aws_nitro_enclaves_acm.Srv.Worker.{
  add, describe, describe_one, refresh, remove, update, attest, dispatch, handle, expiry_from,
}
use aws_nitro_enclaves_acm.Srv.Edit.{Adds, Refreshes, Removes, Updates, Serves}

abbrev pub config_of : Slots → Config
config_of slots = record { device = record { slots = slots }; file = true }

-- The response to a request whose last step is a save.
abbrev pub saved_response : Result Config.Error (Unit {0}) → ApiResponse
saved_response (ok _) = ok nothing
saved_response (err _) = err internal_error

module _ (j : Json) (io : Io) (text : j.Text) where
  -- The request left the file alone, or saved slots that relate by `P` to those that it loaded.
  pub data Outcome (P : Slots → Slots → Type 0) (r : ApiResponse × j.Text) : Type 0 where
    untouched : r.1 ≡ text → r.0 ≢ ok nothing → Outcome P r
    saved :
        (slots slots' : Slots)
        → load_device j io.load_clock text ≡ ok (record { slots = slots })
        → P slots slots'
        → r.0 ≡ saved_response (save j io (config_of slots') text).0
        → r.1 ≡ (save j io (config_of slots') text).1
        → Outcome P r

  load_cases :
      (rw : Bool)
      → ((slots : Slots) × (load j rw io text
            ≡ (ok (record { device = record { slots = slots }; file = rw }), text))
          × (load_device j io.load_clock text ≡ ok (record { slots = slots })))
        ⊎ ((e : Config.Error) × (load j rw io text ≡ (err e, text)))
  unfolding load
  load_cases rw = elim (Bool-cases io.opened) [
    | inr closed ↦ inr (Config.io_error, ground arith)
    | inl opened ↦ elim (Result-cases (load_device j io.load_clock text)) [
      | inl (device, h) ↦ inl (device.slots, ground arith, ground arith)
      | inr (e, h) ↦ inr (e, ground arith)
    ]
  ]

  module _ (k : Kms) where
    add-Outcome : (token : Token) → Outcome (Adds k io token) (add j k io token text)
    unfolding add
    add-Outcome token = elim (load_cases true) [
      | inr (e, h) ↦ untouched (ground arith) (ground arith)
      | inl (slots, h, loaded) ↦ elim (Bool-cases (ltb 0 (count_label token.label slots))) [
        | inl dup ↦ untouched (ground arith) (ground arith)
        | inr fresh ↦ elim (Result-cases (decrypt_token_keys k token.envelope_key token.keys)) [
          | inr (e, bad) ↦ untouched (ground arith) (ground arith)
          | inl (keys, good) ↦ elim (Option-cases (find_free slots)) [
            | inl full ↦ untouched (ground arith) (ground arith)
            | inr (i, free) ↦
                saved slots _ loaded
                  (record {
                    i = i;
                    new = record {
                      label = token.label;
                      private_keys = keys;
                      pin = token.pin;
                      expiry_ts = expiry_from (io.call_clock 0);
                    };
                    free = free;
                    fresh = ground arith;
                    new_label = refl;
                    new_pin = refl;
                    new_expiry = refl;
                    new_keys = good;
                    stored = refl;
                  })
                  (ground arith) (ground arith)
          ]
        ]
      ]
    ]

    refresh-Outcome :
        (label pin : Bytes) (envelope_key : EnvelopeKey)
        → Outcome
            (Refreshes k io label pin envelope_key)
            (refresh j k io label pin envelope_key text)
    unfolding refresh
    refresh-Outcome label pin envelope_key = elim (load_cases true) [
      | inr (e, h) ↦ untouched (ground arith) (ground arith)
      | inl (slots, h, loaded) ↦ elim (Option-cases (find_label label slots)) [
        | inl missing ↦ untouched (ground arith) (ground arith)
        | inr ((i, old), found) ↦ elim (Bool-cases (bytes_eq old.pin pin)) [
          | inr denied ↦ untouched (ground arith) (ground arith)
          | inl same ↦ elim (Result-cases (attest k envelope_key old.private_keys)) [
            | inr (e, bad) ↦ untouched (ground arith) (ground arith)
            | inl (_, good) ↦
                saved slots _ loaded
                  (record {
                    i = i;
                    old = old;
                    found = found;
                    same_pin = bytes_eq→≡ old.pin pin same;
                    attested = good;
                    stored = refl;
                  })
                  (ground arith) (ground arith)
          ]
        ]
      ]
    ]

    remove-Outcome :
        (label pin : Bytes) → Outcome (Removes k io label pin) (remove j k io label pin text)
    unfolding remove
    remove-Outcome label pin = elim (load_cases true) [
      | inr (e, h) ↦ untouched (ground arith) (ground arith)
      | inl (slots, h, loaded) ↦ elim (Option-cases (find_label label slots)) [
        | inl missing ↦ untouched (ground arith) (ground arith)
        | inr ((i, old), found) ↦ elim (Bool-cases (bytes_eq old.pin pin)) [
          | inr denied ↦ untouched (ground arith) (ground arith)
          | inl same ↦
              saved slots _ loaded
                (record {
                  i = i;
                  old = old;
                  found = found;
                  same_pin = bytes_eq→≡ old.pin pin same;
                  stored = refl;
                })
                (ground arith) (ground arith)
        ]
      ]
    ]

    update-Outcome :
        (label pin : Bytes) (token : Token)
        → Outcome (Updates k io label pin token) (update j k io label pin token text)
    unfolding update
    update-Outcome label pin token = elim (load_cases true) [
      | inr (e, h) ↦ untouched (ground arith) (ground arith)
      | inl (slots, h, loaded) ↦
          elim (Bool-cases
            (bytes_eq label token.label || not (is_some (find_label token.label slots)))) [
              | inr dup ↦ untouched (ground arith) (ground arith)
              | inl fresh ↦ elim (Option-cases (find_label label slots)) [
                | inl missing ↦ untouched (ground arith) (ground arith)
                | inr ((i, old), found) ↦ elim (Bool-cases (bytes_eq old.pin pin)) [
                  | inr denied ↦ untouched (ground arith) (ground arith)
                  | inl same ↦
                      elim (Result-cases (decrypt_token_keys k token.envelope_key token.keys)) [
                        | inr (e, bad) ↦ untouched (ground arith) (ground arith)
                        | inl (keys, good) ↦
                            saved slots _ loaded
                              (record {
                                i = i;
                                old = old;
                                new = record {
                                  label = label;
                                  private_keys = keys;
                                  pin = pin;
                                  expiry_ts = expiry_from (io.call_clock 0);
                                };
                                found = found;
                                same_pin = bytes_eq→≡ old.pin pin same;
                                new_label = refl;
                                new_pin = refl;
                                new_expiry = refl;
                                new_keys = good;
                                stored = refl;
                              })
                              (ground arith) (ground arith)
                      ]
                ]
              ]
            ]
    ]

    describe-Outcome : Outcome (λ s s'. ⊥) (describe j k io text)
    unfolding describe
    describe-Outcome = elim (load_cases false) [
      | inr (e, h) ↦ untouched (ground arith) (ground arith)
      | inl (slots, h, loaded) ↦ untouched (ground arith) (ground arith)
    ]

    describe_one-Outcome :
        (label pin : Bytes) → Outcome (λ s s'. ⊥) (describe_one j k io label pin text)
    unfolding describe_one
    describe_one-Outcome label pin = elim (load_cases false) [
      | inr (e, h) ↦ untouched (ground arith) (ground arith)
      | inl (slots, h, loaded) ↦ elim (Option-cases (find_label label slots)) [
        | inl missing ↦ untouched (ground arith) (ground arith)
        | inr ((i, old), found) ↦ untouched (ground arith) (ground arith)
      ]
    ]

    dispatch-Outcome :
        (request : ApiRequest) → Outcome (Serves k io request) (dispatch j k io request text)
    unfolding dispatch
    dispatch-Outcome (add_token token) = add-Outcome token
    dispatch-Outcome describe_device = describe-Outcome
    dispatch-Outcome (describe_token label pin) = describe_one-Outcome label pin
    dispatch-Outcome (refresh_token label pin e) = refresh-Outcome label pin e
    dispatch-Outcome (remove_token label pin) = remove-Outcome label pin
    dispatch-Outcome (update_token label pin token) = update-Outcome label pin token

    -- Every request either leaves the contents of the config file alone and does not answer
    -- `ApiOk::None`, or saves slots that relate to the loaded ones as the specification of the
    -- request says, and answers `ApiOk::None` or an internal error as the save succeeds or fails.
    pub handle-Outcome :
        (request : ApiRequest) → Outcome (Serves k io request) (handle j k io request text)
    unfolding handle
    handle-Outcome request = elim (Result-cases (validate_args request)) [
      | inr (e, bad) ↦ untouched (ground arith) (ground arith)
      | inl (_, good) ↦ rw (good, handle) (dispatch-Outcome request)
    ]
