-- ===== src/Agent/Enclave.antt =====
-- vtok_agent/src/enclave.rs: the requests to the enclave, and their repetition.
pub mod Retries
pub mod Exchange
use aws_nitro_enclaves_acm.Prelude.{
  ℕ, zero, suc, ◌+◌, ◌-◌, ◌*◌, ◌%◌, ◌^◌, ◌≡◌, Bool, true, false, ◌||◌, Option, none, some, List, [],
  ◌∷◌, Bytes, ◌==◌, if◌then◌else◌, Result, ok, err,
}
use aws_nitro_enclaves_acm.Rpc.Schema.{
  ApiRequest, ApiResponse, Token, EnvelopeKey, add_token, describe_token, refresh_token,
  remove_token, update_token,
}
use aws_nitro_enclaves_acm.Agent.Env.{Env, EnclaveError}

abbrev pub is_ok {ℓ} : {E : Type 0} {A : Type ℓ} → Result E A → Bool
is_ok (ok a) = true
is_ok (err e) = false

-- How long to wait after the round `count`, in milliseconds, with the arithmetic of a u64.
abbrev pub backoff : ℕ → ℕ
backoff count = ((2 ^ ((count - 1) % 64)) * 100) % 2 ^ 64

module _ (E : Env) where
  abbrev pub Call : Type 0
  Call = E.World → Result EnclaveError ApiResponse × E.World

  -- The loop of `retry_rpc`, on fuel: none is that the fuel ran out.
  unfoldable pub retry_rpc :
      ℕ → ℕ → ℕ → ApiRequest → E.World → Option (Result EnclaveError ApiResponse × E.World)
  retry_rpc zero limit count request w = none
  retry_rpc (suc fuel) limit count request w = elim (E.rpc request w).0 [
    | err e ↦ some (err e, (E.rpc request w).1)
    | ok res ↦
        let slept = E.sleep (backoff count) (E.rpc request w).1 in
        elim (is_ok res || count == limit) [
          | true ↦ some (ok res, (E.rpc request w).1)
          | false ↦ elim slept.0 [
            | true ↦ some (ok res, slept.1)
            | false ↦ retry_rpc fuel limit (count + 1) request slept.1
          ]
        ]
  ]

  -- The same loop with a limit, by the rounds that are left after this one.
  unfoldable pub retry : ℕ → ℕ → ApiRequest → Call
  retry zero count request w = E.rpc request w
  retry (suc left) count request w = elim (E.rpc request w).0 [
    | err e ↦ (err e, (E.rpc request w).1)
    | ok (ok a) ↦ (ok (ok a), (E.rpc request w).1)
    | ok (err e) ↦
        let slept = E.sleep (backoff count) (E.rpc request w).1 in
        elim slept.0 [
          | true ↦ (ok (err e), slept.1)
          | false ↦ retry left (count + 1) request slept.1
        ]
  ]

  -- The requests of `P11neEnclave`, with a retry count of `suc more`.
  module _ (more : ℕ) where
    unfoldable pub call_add : Token → Call
    call_add token = retry more 1 (add_token token)

    unfoldable pub call_refresh : Bytes → Bytes → EnvelopeKey → Call
    call_refresh label pin envelope_key = retry more 1 (refresh_token label pin envelope_key)

    unfoldable pub call_update : Bytes → Bytes → Token → Call
    call_update label pin token = retry more 1 (update_token label pin token)

  unfoldable pub call_remove : Bytes → Bytes → Call
  call_remove label pin = E.rpc (remove_token label pin)

  unfoldable pub call_describe : Bytes → Bytes → Call
  call_describe label pin = E.rpc (describe_token label pin)
