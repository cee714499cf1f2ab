-- ===== src/Srv/Server/Replies.antt =====
-- How the server answers: errors, PINs, and a file that does not parse.
use aws_nitro_enclaves_acm.Prelude.{
  ℕ, ◌≡◌, ◌≢◌, refl, sym, ◌∙◌, ap, Bool, true, false, none, some, Option, List, [], ◌∷◌, Bytes,
  bytes_eq, bytes_eq_iff, Result, ok, err, if◌then◌else◌, arith, Bool-cases, Result-cases, inl, inr,
}
use aws_nitro_enclaves_acm.Common.Config
use aws_nitro_enclaves_acm.Common.Config.{Json, Io, Slots, load, load_device, save}
use aws_nitro_enclaves_acm.Rpc.Schema.{
  ApiRequest, ApiError, internal_error, access_denied, add_token, describe_device, describe_token,
  refresh_token, remove_token, update_token,
}
use aws_nitro_enclaves_acm.Rpc.Validators.{validate_args}
use aws_nitro_enclaves_acm.Srv.Kms.{Kms}
use aws_nitro_enclaves_acm.Srv.Slots.{find_label}
use aws_nitro_enclaves_acm.Srv.Worker.{handle, dispatch}
use aws_nitro_enclaves_acm.Srv.Edit.{Serves}
use aws_nitro_enclaves_acm.Srv.Edit.Outcome.{
  Outcome, untouched, saved, saved_response, handle-Outcome,
}
use aws_nitro_enclaves_acm.Srv.Server.{Client, handle_client, serve}

-- The requests that name a token by its label and PIN, other than `UpdateToken`.
abbrev pub names : ApiRequest → Option (Bytes × Bytes)
names (add_token token) = none
names describe_device = none
names (describe_token label pin) = some (label, pin)
names (refresh_token label pin e) = some (label, pin)
names (remove_token label pin) = some (label, pin)
names (update_token label pin token) =
    if bytes_eq label token.label then some (label, pin) else none

module _ (j : Json) (k : Kms) where
  -- A request that is answered with an error other than an internal one leaves the config file as
  -- it was.
  pub handle-error_unchanged :
      (io : Io) (request : ApiRequest) (text : j.Text) (e : ApiError)
      → (handle j k io request text).0 ≡ err e
      → e ≢ internal_error
      → (handle j k io request text).1 ≡ text
  handle-error_unchanged io request text e h ne = go (handle-Outcome j io text k request)
    where
      cases : (r : Result Config.Error (Unit {0})) → saved_response r ≡ err e → e ≡ internal_error
      cases (ok _) p = cc
      cases (err _) p = cc

      go :
          Outcome j io text (Serves k io request) (handle j k io request text)
          → (handle j k io request text).1 ≡ text
      go (untouched same _) = same
      go (saved slots slots' loaded served answered written) =
          absurd (ne (cases _ (sym answered ∙ h)))

  load-lost :
      (rw : Bool) (io : Io) (text : j.Text)
      → j.from_json text ≡ none
      → (e : Config.Error) × (load j rw io text ≡ (err e, text))
  unfolding load
  load-lost rw io text h = elim (Bool-cases io.opened) [
    | inl o ↦ (Config.serde_error, ground arith)
    | inr c ↦ (Config.io_error, ground arith)
  ]

  dispatch-lost :
      (io : Io) (request : ApiRequest) (text : j.Text)
      → j.from_json text ≡ none
      → dispatch j k io request text ≡ (err internal_error, text)
  unfolding dispatch
  dispatch-lost io (add_token token) text h = ground (arith, load-lost true io text h)
  dispatch-lost io describe_device text h = ground (arith, load-lost false io text h)
  dispatch-lost io (describe_token l p) text h = ground (arith, load-lost false io text h)
  dispatch-lost io (refresh_token l p e) text h = ground (arith, load-lost true io text h)
  dispatch-lost io (remove_token l p) text h = ground (arith, load-lost true io text h)
  dispatch-lost io (update_token l p t) text h = ground (arith, load-lost true io text h)

  handle-lost :
      (io : Io) (request : ApiRequest) (text : j.Text)
      → j.from_json text ≡ none
      → (handle j k io request text).1 ≡ text
  unfolding handle
  handle-lost io request text h = ground (arith, dispatch-lost io request text h)

  handle_client-lost :
      (client : Client) (text : j.Text)
      → j.from_json text ≡ none
      → (handle_client j k client text).1 ≡ text
  unfolding handle_client
  handle_client-lost client text h = elim (Result-cases client.received) [
    | inr (e, r) ↦ ground arith
    | inl (request, r) ↦ ground (arith, handle-lost client.io request text h)
  ]

  serve-lost :
      (text : j.Text) (clients : List Client)
      → j.from_json text ≡ none
      → serve j k text clients ≡ text
  unfolding serve
  serve-lost text [] h = refl
  serve-lost text (client ∷ clients) h =
      let e = handle_client-lost client text h in
      ap (λ t. serve j k t clients) e ∙ serve-lost text clients h

  -- Once the config file does not parse, no sequence of clients repairs it, and every request with
  -- valid arguments, after any of them, is answered with an internal error.
  pub serve-stays_lost :
      (text : j.Text) (clients : List Client) (io : Io) (request : ApiRequest)
      → j.from_json text ≡ none
      → validate_args request ≡ ok tt
      → (j.from_json (serve j k text clients) ≡ none)
        × ((handle j k io request (serve j k text clients)).0 ≡ err internal_error)
  unfolding handle
  serve-stays_lost text clients io request h v =
      rw (serve-lost text clients h) (h, ground (arith, dispatch-lost io request text h))

  -- A request that names a loaded token with a PIN that is not the token's is answered with
  -- `AccessDenied`, and changes nothing. For `UpdateToken`, if it keeps the label.
  pub handle-access_denied :
      (io : Io) (request : ApiRequest) (text : j.Text) (slots : Slots) (label pin : Bytes) (i : ℕ)
      (tok : Config.Token)
      → io.opened ≡ true
      → load_device j io.load_clock text ≡ ok (record { slots = slots })
      → validate_args request ≡ ok tt
      → names request ≡ some (label, pin)
      → find_label label slots ≡ some (i, tok)
      → tok.pin ≢ pin
      → handle j k io request text ≡ (err access_denied, text)
  unfolding handle load
  handle-access_denied io (add_token token) text slots label pin i tok o l v n f ne = cc
  handle-access_denied io describe_device text slots label pin i tok o l v n f ne = cc
  handle-access_denied io (describe_token a b) text slots label pin i tok o l v n f ne =
      ground (arith, bytes_eq_iff tok.pin pin)
  handle-access_denied io (refresh_token a b e) text slots label pin i tok o l v n f ne =
      ground (arith, bytes_eq_iff tok.pin pin)
  handle-access_denied io (remove_token a b) text slots label pin i tok o l v n f ne =
      ground (arith, bytes_eq_iff tok.pin pin)
  handle-access_denied io (update_token a b t) text slots label pin i tok o l v n f ne =
      ground (arith, bytes_eq_iff tok.pin pin)
