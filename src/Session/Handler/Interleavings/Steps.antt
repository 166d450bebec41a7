-- ===== src/Session/Handler/Interleavings/Steps.antt =====
-- What `Refresh` does while it has the lock, as steps (pkg/session/handler.go).
use wonderwall.Base.{
  ℕ, String, ◌≡◌, refl, subst, ◌⊎◌, true, false, ok, err, arith, Result-cases, inl, inr,
}
use wonderwall.Base.Retry.{Retrier}
use wonderwall.Session.Data.{Data}
use wonderwall.Session.Id.{Provider}
use wonderwall.Session.Handler.{SessionConfig, Env, get_for_key, can_refresh, is_timed_out_now}
use wonderwall.Session.Handler.Refresh.{grant, perform, unless_timed_out, refresh_locked}
use wonderwall.Session.Handler.Interleavings.{
  Phase, outside, holding, found, ready, answered, leaving, System, set, moves, store_renewed, Step,
  finds, finds_nothing, may_not, is_inactive, may, is_granted, is_denied, stores, releases, Reach,
  next,
}

pub set_at : {Held : Type 0} (i : ℕ) (p : Phase Held) (f : ℕ → Phase Held) → set i p f i ≡ p
set_at i p f = ground arith

set_twice :
    {Held : Type 0} (i : ℕ) (p q : Phase Held) (f : ℕ → Phase Held) (j : ℕ)
    → set i q (set i p f) j ≡ set i q f j
set_twice i p q f j = ground arith

pub moves_twice :
    {W Held : Type 0} (s : System W Held) (i : ℕ) (v w : W) (p q : Phase Held)
    → moves (moves s i v p) i w q ≡ moves s i w q
moves_twice s i v w p q = λ x. record { world = w; phases = λ j. set_twice i p q s.phases j x }

pub set_same :
    {Held : Type 0} (i : ℕ) (p : Phase Held) (f : ℕ → Phase Held)
    → f i ≡ p
    → (j : ℕ) → set i p f j ≡ f j
set_same i p f at j = ground arith

pub pair_eq : {A B : Type 0} (x : A × B) (a : A) → x.0 ≡ a → x ≡ (a, x.1)
pair_eq x a e = λ i. (e i, x.1)

module _ {W Held : Type 0} (env : Env W Held) (retrier : Retrier W) (cfg : SessionConfig)
    (provider : Provider) (k : String) (Others : W → W → Type 0) where
  abbrev pub Reached : System W Held → System W Held → Type 0
  Reached = Reach env retrier cfg provider k Others

  then :
      (s t : System W Held) (i : ℕ) (v w : W) (p q : Phase Held)
      → Reached s (moves t i v p)
      → Step env retrier cfg provider k Others (moves t i v p) (moves (moves t i v p) i w q)
      → Reached s (moves t i w q)
  then s t i v w p q r step = subst (Reached s) (moves_twice t i v w p q) (next r step)

  performs :
      (s t : System W Held) (i : ℕ) (v : W) (h : Held) (d : Data)
      → Reached s (moves t i v (ready h d))
      → Reached s (moves t i (perform env retrier cfg provider k d v).1 (leaving h))
  unfolding perform store_renewed
  performs s t i v h d r =
      let g = grant env retrier cfg provider d.refresh_token v in
      elim (Result-cases g.0) [
        | inr (x, hx) ↦
            subst (λ w. Reached s (moves t i w (leaving h))) (ground arith)
              (then s t i v g.1 (ready h d) (leaving h) r
                (is_denied i h d x g.1 (set_at i (ready h d) t.phases) (pair_eq g (err x) hx) refl))
        | inl (resp, hr) ↦
            let m = store_renewed env retrier cfg provider k d resp g.1 in
            subst (λ w. Reached s (moves t i w (leaving h))) (ground arith)
              (then s t i g.1 m.1 (answered h d resp) (leaving h)
                (then s t i v g.1 (ready h d) (answered h d resp) r (
                  is_granted i h d resp g.1 (set_at i (ready h d) t.phases) (pair_eq g (ok resp) hr)
                    refl))
                (stores i h d resp m.0 m.1 (set_at i (answered h d resp) t.phases) refl refl))
      ]

  pub can_refresh_cases :
      (d : Data) (w : W)
      → ((can_refresh env retrier cfg provider d w).0 ≡ ok true)
        ⊎ ((can_refresh env retrier cfg provider d w).0 ≡ ok false)
  unfolding can_refresh
  can_refresh_cases d w = ground arith

  pub is_timed_out_cases :
      (d : Data) (w : W)
      → ((is_timed_out_now env retrier cfg provider d w).0 ≡ ok true)
        ⊎ ((is_timed_out_now env retrier cfg provider d w).0 ≡ ok false)
  unfolding is_timed_out_now
  is_timed_out_cases d w = ground arith

  unless_timed_out-Reached :
      (s t : System W Held) (i : ℕ) (u v : W) (h : Held) (d : Data)
      → can_refresh env retrier cfg provider d u ≡ (ok true, v)
      → Reached s (moves t i u (found h d))
      → Reached s (moves t i (unless_timed_out env retrier cfg provider k d v).1 (leaving h))
  unfolding unless_timed_out
  unless_timed_out-Reached s t i u v h d can r =
      let q = is_timed_out_now env retrier cfg provider d v in
      elim (is_timed_out_cases d v) [
        | inl late ↦
            subst (λ w. Reached s (moves t i w (leaving h))) (ground arith)
              (then s t i u q.1 (found h d) (leaving h) r (
                is_inactive i h d v q.1 (set_at i (found h d) t.phases) can
                  (pair_eq q (ok true) late) refl))
        | inr active ↦
            subst (λ w. Reached s (moves t i w (leaving h))) (ground arith)
              (performs s t i q.1 h d (
                then s t i u q.1 (found h d) (ready h d) r (
                  may i h d v q.1 (set_at i (found h d) t.phases) can (pair_eq q (ok false) active)
                    refl)))
      ]

  refresh_locked-Reached :
      (s t : System W Held) (i : ℕ) (v : W) (h : Held)
      → Reached s (moves t i v (holding h))
      → Reached s (moves t i (refresh_locked env retrier cfg provider k v).1 (leaving h))
  unfolding refresh_locked
  refresh_locked-Reached s t i v h r =
      let g = get_for_key env retrier cfg provider k v in
      elim (Result-cases g.0) [
        | inr (x, hx) ↦
            subst (λ w. Reached s (moves t i w (leaving h))) (ground arith)
              (then s t i v g.1 (holding h) (leaving h) r (
                finds_nothing i h x g.1 (set_at i (holding h) t.phases) (pair_eq g (err x) hx)
                  refl))
        | inl (d, hd) ↦
            let c = can_refresh env retrier cfg provider d g.1 in
            let r' =
              then s t i v g.1 (holding h) (found h d) r
                (finds i h d g.1 (set_at i (holding h) t.phases) (pair_eq g (ok d) hd) refl) in
            elim (can_refresh_cases d g.1) [
              | inl can ↦
                  subst (λ w. Reached s (moves t i w (leaving h))) (ground arith)
                    (unless_timed_out-Reached s t i g.1 c.1 h d (pair_eq c (ok true) can) r')
              | inr cannot ↦
                  subst (λ w. Reached s (moves t i w (leaving h))) (ground arith)
                    (then s t i g.1 c.1 (found h d) (leaving h) r' (
                      may_not i h d c.1 (set_at i (found h d) t.phases)
                        (pair_eq c (ok false) cannot) refl))
            ]
      ]

  -- Under the lock, and its release.
  pub held-Reached :
      (s t : System W Held) (i : ℕ) (v : W) (h : Held)
      → Reached s (moves t i v (holding h))
      → Reached s (
          moves t i (env.store.release h (refresh_locked env retrier cfg provider k v).1).1 outside)
  held-Reached s t i v h r =
      let w = (refresh_locked env retrier cfg provider k v).1 in
      let d = env.store.release h w in
      then s t i w d.1 (leaving h) outside (refresh_locked-Reached s t i v h r)
        (releases i h d.0 d.1 (set_at i (leaving h) t.phases) refl refl)
