-- ===== src/P11/Api/Reaches.antt =====
-- vtok_p11/src/api: a C function on the session of a handle leaves a device that the provider can come
-- to, so that its sessions stay in place.
use aws_nitro_enclaves_acm.Prelude.{
  ℕ, ◌≡◌, subst, some, arith, Option-cases, Result-cases, inl, inr,
}
use aws_nitro_enclaves_acm.Prelude.Assoc.{get}
use aws_nitro_enclaves_acm.P11.Crypto.Evp.{Evp}
use aws_nitro_enclaves_acm.P11.Session.{Session}
use aws_nitro_enclaves_acm.P11.Device.{Device, World, session_mut, token_unchecked}
use aws_nitro_enclaves_acm.P11.Device.Sessions.{token_unchecked-Holds}
use aws_nitro_enclaves_acm.P11.Device.Reach.{Reachable, stepped, by_session, by_session_mut}
use aws_nitro_enclaves_acm.P11.Api.Begin.{put_session, lock_session_mut}

module _ {E : Evp} where
  put_session-Reachable :
      (handle : ℕ) (s : Session E) (d : Device E) → Reachable d → Reachable (put_session handle s d)
  unfolding put_session
  put_session-Reachable handle s d r = elim (Option-cases (get handle d.session_slot_map)) [
    | inl none_ ↦ rw (none_, put_session) r
    | inr (i, mapped) ↦
        rw (mapped, put_session)
          (elim (Result-cases (token_unchecked i d)) [
            | inr (e, failed) ↦ rw (failed, put_session) r
            | inl (t, found) ↦
                rw (found, put_session)
                  (stepped r (by_session i t handle (λ old. s) (token_unchecked-Holds i d t found)))
          ])
  ]

  -- What a call on a session leaves is a device that the provider can come to.
  lock_session_mut-Reachable :
      (w : World) (handle : ℕ) (act : Session E → ℕ × Session E) (d d' : Device E)
      → Reachable d
      → (lock_session_mut w handle act (some d)).1 ≡ some d'
      → Reachable d'
  unfolding lock_session_mut
  lock_session_mut-Reachable w handle act d d' r e =
      let read = stepped r (by_session_mut w handle) in
      elim (Option-cases (session_mut w handle d).0) [
        | inl none_ ↦
            let same : (session_mut w handle d).1 ≡ d' = ground (arith, e, none_) in
            subst Reachable same read
        | inr (s, found) ↦
            let same : put_session handle (act s).1 (session_mut w handle d).1 ≡ d' =
              ground (arith, e, found) in
            subst Reachable same
              (put_session-Reachable handle (act s).1 (session_mut w handle d).1 read)
      ]
