-- ===== src/Agent/Enclave/Retries.antt =====
-- vtok_agent/src/enclave.rs: when `retry_rpc` ends.
use aws_nitro_enclaves_acm.Prelude.{
  ℕ, zero, suc, ◌+◌, ◌-◌, ◌≤◌, ◌<◌, ◌≡◌, false, some, ok, err, arith,
}
use aws_nitro_enclaves_acm.Rpc.Schema.{ApiRequest, ApiOk, ApiError}
use aws_nitro_enclaves_acm.Agent.Env.{Env}
use aws_nitro_enclaves_acm.Agent.Enclave.{backoff, retry_rpc, retry}

module _ (E : Env) where
  retry_rpc-retry_from :
      (left fuel count limit : ℕ) (request : ApiRequest) (w : E.World)
      → left < fuel
      → count + left ≡ limit
      → retry_rpc E fuel limit count request w ≡ some (retry E left count request w)
  unfolding retry_rpc retry
  retry_rpc-retry_from left zero count limit request w h e = elim h [ ]
  retry_rpc-retry_from zero (suc fuel) count limit request w h e = ground arith
  retry_rpc-retry_from (suc left) (suc fuel) count limit request w h e = ground (
    arith,
    retry_rpc-retry_from left fuel (count + 1) limit request
        (E.sleep (backoff count) (E.rpc request w).1).1,
  )

  -- With a retry count of at least one, `retry_rpc` ends after that many requests at most, with
  -- what the loop by the rounds left gives.
  pub retry_rpc-retry :
      (limit fuel : ℕ) (request : ApiRequest) (w : E.World)
      → 0 < limit
      → limit ≤ fuel
      → retry_rpc E fuel limit 1 request w ≡ some (retry E (limit - 1) 1 request w)
  retry_rpc-retry limit fuel request w p h =
      retry_rpc-retry_from (limit - 1) fuel 1 limit request w (omega arith) (omega arith)

  -- After `k` answers that are errors, none of them followed by a request to exit, one is good.
  abbrev pub Recovers : ℕ → ℕ → ApiRequest → E.World → Type 0
  Recovers zero count request w = (a : ApiOk) × ((E.rpc request w).0 ≡ ok (ok a))
  Recovers (suc k) count request w =
      (e : ApiError) × ((E.rpc request w).0 ≡ ok (err e))
      × ((E.sleep (backoff count) (E.rpc request w).1).0 ≡ false)
      × Recovers k (count + 1) request (E.sleep (backoff count) (E.rpc request w).1).1

  pub retry-Recovers_from :
      (left k count : ℕ) (request : ApiRequest) (w : E.World)
      → Recovers k count request w
      → k ≤ left
      → (a : ApiOk) × ((retry E left count request w).0 ≡ ok (ok a))
  unfolding retry
  retry-Recovers_from zero zero count request w r h = r
  retry-Recovers_from zero (suc k) count request w r h = elim h [ ]
  retry-Recovers_from (suc left) zero count request w r h = (r.0, ground (arith, r.1))
  retry-Recovers_from (suc left) (suc k) count request w r h =
      let (a, found) =
        retry-Recovers_from left k (count + 1) request
          (E.sleep (backoff count) (E.rpc request w).1).1 r.3 (omega arith) in
      (a, ground (arith, r.1, r.2, found))

  -- A request that the enclave answers well after fewer errors than the retry count allows, with
  -- no request to exit in between, succeeds.
  pub retry_rpc-Recovers :
      (limit k : ℕ) (request : ApiRequest) (w : E.World)
      → k < limit
      → Recovers k 1 request w
      → (a : ApiOk) × (w' : E.World) × (retry_rpc E limit limit 1 request w ≡ some (ok (ok a), w'))
  retry_rpc-Recovers limit k request w h r =
      let (a, found) = retry-Recovers_from (limit - 1) k 1 request w r (omega arith) in
      (
        a,
        (retry E (limit - 1) 1 request w).1,
        ground (arith, retry_rpc-retry limit limit request w, found),
      )
