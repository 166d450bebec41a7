-- ===== src/Session/Handler/Interleavings/Simulation.antt =====
-- The steps of a request are those of `Refresh` (pkg/session/handler.go): a request that runs alone.
use wonderwall.Base.{
  ℕ, String, ◌≡◌, refl, sym, subst, ◌⊎◌, other, Error, Result, ok, err, arith, Result-cases, inl,
  inr,
}
use wonderwall.Base.Retry.{Retrier}
use wonderwall.Session.Id.{Provider}
use wonderwall.Session.Handler.{
  SessionConfig, Env, Schedule, context_ends, timed_out, tick, refresh_lock_duration, acquire_loop,
}
use wonderwall.Session.Handler.Refresh.{with_lock}
use wonderwall.Session.Handler.Interleavings.{
  outside, holding, System, moves, acquires, is_refused, others, Reach, begun, next,
}
use wonderwall.Session.Handler.Interleavings.Steps.{
  set_at, set_same, moves_twice, pair_eq, held-Reached,
}

module _ {W Held : Type 0} (env : Env W Held) (retrier : Retrier W) (cfg : SessionConfig)
    (provider : Provider) (k : String) (Others : W → W → Type 0) where
  -- After a turn of the loop that did not get the lock.
  refused-Reached :
      (s t : System W Held) (i : ℕ) (v : W) (x : Error)
      → (env.store.acquire k refresh_lock_duration v).0 ≡ err x
      → Reach env retrier cfg provider k Others s (moves t i v outside)
      → Reach env retrier cfg provider k Others s
          (moves t i (env.store.acquire k refresh_lock_duration v).1 outside)
  refused-Reached s t i v x e r =
      let got = env.store.acquire k refresh_lock_duration v in
      next r (is_refused i x got.1 (set_at i outside t.phases) (pair_eq got (err x) e) refl)

  -- Once the loop is done, its request has the lock or is outside.
  pub AfterLoop : (s t : System W Held) (i : ℕ) → Result Held → W → Type 0
  AfterLoop s t i (ok h) w = Reach env retrier cfg provider k Others s (moves t i w (holding h))
  AfterLoop s t i (err x) w = Reach env retrier cfg provider k Others s (moves t i w outside)

  loop_got :
      (rest : Schedule) (v : W) (h : Held)
      → let got = env.store.acquire k refresh_lock_duration v in
        got.0 ≡ ok h → acquire_loop env retrier cfg provider k (tick rest) v ≡ (ok h, got.1)
  unfolding acquire_loop
  loop_got rest v h e = ground arith

  loop_refused :
      (rest : Schedule) (v : W) (x : Error)
      → let got = env.store.acquire k refresh_lock_duration v in
        got.0 ≡ err x
        → (acquire_loop env retrier cfg provider k (tick rest) v
            ≡ acquire_loop env retrier cfg provider k rest got.1)
          ⊎ (acquire_loop env retrier cfg provider k (tick rest) v ≡ (err other, got.1))
  unfolding acquire_loop
  loop_refused rest v x e = ground arith

  acquire_loop-Reached :
      (s t : System W Held) (i : ℕ) (sch : Schedule) (v : W)
      → Reach env retrier cfg provider k Others s (moves t i v outside)
      → let got = acquire_loop env retrier cfg provider k sch v in AfterLoop s t i got.0 got.1
  unfolding acquire_loop AfterLoop
  acquire_loop-Reached s t i context_ends v r = r
  acquire_loop-Reached s t i timed_out v r = r
  acquire_loop-Reached s t i (tick rest) v r =
      let got = env.store.acquire k refresh_lock_duration v in
      elim (Result-cases got.0) [
        | inl (h, e) ↦
            subst (λ x. AfterLoop s t i x.0 x.1) (sym (loop_got rest v h e))
              (next r (
                acquires i h got.1 (set_at i outside t.phases) (pair_eq got (ok h) e)
                  (sym (moves_twice t i v got.1 outside (holding h)))))
        | inr (x, e) ↦
            let refused = refused-Reached s t i v x e r in
            elim (loop_refused rest v x e) [
              | inl again ↦
                  subst (λ y. AfterLoop s t i y.0 y.1) (sym again)
                    (acquire_loop-Reached s t i rest got.1 refused)
              | inr gives_up ↦ subst (λ y. AfterLoop s t i y.0 y.1) (sym gives_up) refused
            ]
      ]

  with_lock-AfterLoop :
      (s t : System W Held) (i : ℕ) (v : W) (sch : Schedule)
      → let got = acquire_loop env retrier cfg provider k sch v in
        AfterLoop s t i got.0 got.1
        → env.schedule s.world ≡ (sch, v)
        → Reach env retrier cfg provider k Others s
            (moves t i (with_lock env retrier cfg provider k s.world).1 outside)
  unfolding AfterLoop with_lock
  with_lock-AfterLoop s t i v sch after e =
      let got = acquire_loop env retrier cfg provider k sch v in
      elim (Result-cases got.0) [
        | inl (h, got_it) ↦
            subst (λ w. Reach env retrier cfg provider k Others s (moves t i w outside))
              (ground arith)
              (held-Reached env retrier cfg provider k Others s t i got.1 h
                (subst (λ r. AfterLoop s t i r got.1) got_it after))
        | inr (x, failed) ↦
            subst (λ w. Reach env retrier cfg provider k Others s (moves t i w outside))
              (ground arith) (subst (λ r. AfterLoop s t i r got.1) failed after)
      ]

  outside_already :
      (s : System W Held) (i : ℕ) (w : W)
      → s.phases i ≡ outside
      → record s { world = w } ≡ moves s i w outside
  outside_already s i w at =
      λ x. record { world = w; phases = λ j. sym (set_same i outside s.phases at j) x }

  -- A request that runs its refresh from the lock on alone, to the end, takes steps that lead to what
  -- `Refresh` leaves: the world is the one it leaves, the request has no lock, the others have not moved.
  pub with_lock-Reach :
      (s : System W Held) (i : ℕ)
      → s.phases i ≡ outside
      → Others s.world (env.schedule s.world).1
      → Reach env retrier cfg provider k Others s
          (moves s i (with_lock env retrier cfg provider k s.world).1 outside)
  with_lock-Reach s i at arrives =
      let (sch, v) = env.schedule s.world in
      with_lock-AfterLoop s s i v sch
        (acquire_loop-Reached s s i sch v
          (next begun (others v arrives (sym (outside_already s i v at)))))
        refl
