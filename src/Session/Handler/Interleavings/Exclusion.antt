-- ===== src/Session/Handler/Interleavings/Exclusion.antt =====
-- The lock keeps refreshes of a session apart (pkg/session/handler.go: Refresh).
use wonderwall.Base.{
  ℕ, String, ◌≡◌, ◌∙◌, refl, sym, ap, subst, inl, Bool, true, false, Result, ok, err, arith,
}
use wonderwall.Base.Action.{Action}
use wonderwall.Base.Ensures.{Preserves}
use wonderwall.Base.Retry.{Retrier}
use wonderwall.Session.Data.{Data}
use wonderwall.Session.Id.{Provider}
use wonderwall.Session.Store.{Entries, IsStore}
use wonderwall.Session.Handler.{
  SessionConfig, Env, refresh_lock_duration, can_refresh, is_timed_out_now,
}
use wonderwall.Session.Handler.Preservation.{
  IsQuietFor, can_refresh-Preserves, is_timed_out-Preserves, grant-Preserves,
}
use wonderwall.Session.Handler.Interleavings.Locks.{
  IsExclusive, Locked, quiet, get_for_key-Locked, store_renewed-Locked, keeps_lock,
}
use wonderwall.Session.Handler.Interleavings.Safety.{
  Stored, Known, Allowed, IsSafe, moves-IsSafe, holder-IsSafe, world-IsSafe, Stored-Lasts,
  get_for_key-Stored,
}
use wonderwall.Session.Handler.Interleavings.{
  Phase, outside, holding, found, ready, answered, leaving, has_lock, System, moves, Step, acquires,
  is_refused, finds, finds_nothing, may_not, is_inactive, may, is_granted, is_denied, stores,
  releases, others, Reach, begun, next,
}

module _ {W Held : Type 0} (env : Env W Held) (retrier : Retrier W) (cfg : SessionConfig)
    (provider : Provider) (k : String) (entries : W → Entries) (laws : IsStore env.store entries)
    (locked : W → Bool) (lock : IsExclusive env retrier k locked)
    (now_keeps : (w : W) → entries (env.now w).1 k ≡ entries w k) where
  abbrev Safe : System W Held → Type 0
  Safe = IsSafe env k entries locked

  can_refresh_keeps :
      (d : Data) (w : W) → entries (can_refresh env retrier cfg provider d w).1 k ≡ entries w k
  unfolding can_refresh
  can_refresh_keeps d w = ground (arith, now_keeps w)

  is_timed_out_keeps :
      (d : Data) (w : W) → entries (is_timed_out_now env retrier cfg provider d w).1 k ≡ entries w k
  unfolding is_timed_out_now
  is_timed_out_keeps d w = ground (arith, now_keeps w)

  held : IsQuietFor env retrier (Locked env retrier cfg provider k locked lock)
  held = quiet env retrier cfg provider k locked lock

  keeps :
      {A : Type 0} (m : Action W A)
      → Preserves (Locked env retrier cfg provider k locked lock) m
      → (v w : W) (r : Result A) → m v ≡ (r, w)
      → locked v ≡ true
      → locked w ≡ true
  keeps m hm v w r e = keeps_lock env retrier cfg provider k locked lock m hm v w r e

  moved :
      (s t : System W Held) (i : ℕ) (w : W) (p q : Phase Held)
      → Safe s
      → s.phases i ≡ p
      → has_lock p ≡ true
      → (locked s.world ≡ true → locked w ≡ true)
      → (Known env k entries locked p s.world → Known env k entries locked q w)
      → t ≡ moves s i w q
      → Safe t
  moved s t i w p q safe at has stays knows e = subst Safe (sym e) (
      holder-IsSafe env k entries locked s i w q safe (ap has_lock at ∙ has) stays
        (knows (subst (λ x. Known env k entries locked x s.world) at (safe.known i))))

  -- A call that leaves the entry as it is.
  stays-Stored :
      {A : Type 0} (m : Action W A)
      → ((u : W) → entries (m u).1 k ≡ entries u k)
      → (d : Data) (v w : W) (r : Result A) → m v ≡ (r, w)
      → Stored env k entries locked d v
      → Stored env k entries locked d w
  stays-Stored m hm d v w r e h =
      Stored-Lasts env k entries locked d v w (inl (ap (λ x. entries x.1 k) (sym e) ∙ hm v)) h

  Step-IsSafe :
      (Others : W → W → Type 0)
      → Allowed env k entries locked Others
      → (s t : System W Held) → Step env retrier cfg provider k Others s t
      → Safe s
      → Safe t
  Step-IsSafe Others allowed s t (acquires i h w out got e) safe =
      let (free, taken) = lock.obtained s.world w h got in
      subst Safe (sym e) (
        moves-IsSafe env k entries locked s i w (holding h)
          (λ j has. ground (arith, safe.held j has)) (λ _. taken) tt)
  Step-IsSafe Others allowed s t (is_refused i x w out got e) safe = subst Safe (sym e) (
      world-IsSafe env k entries locked s w safe (lock.refused s.world w x got) (
        inl (
          ap (λ y. entries y.1 k) (sym got)
          ∙ laws.acquire_keeps k k refresh_lock_duration s.world)))
  Step-IsSafe Others allowed s t (finds i h d w at got e) safe =
      moved s t i w (holding h) (found h d) safe at refl
        (keeps _ (get_for_key-Locked env retrier cfg provider k locked lock) s.world w (ok d) got)
        (λ _. get_for_key-Stored env retrier cfg provider k entries laws locked s.world w d got) e
  Step-IsSafe Others allowed s t (finds_nothing i h x w at got e) safe =
      moved s t i w (holding h) (leaving h) safe at refl
        (keeps _ (get_for_key-Locked env retrier cfg provider k locked lock) s.world w (err x) got)
        (λ _. tt) e
  Step-IsSafe Others allowed s t (may_not i h d w at can e) safe =
      moved s t i w (found h d) (leaving h) safe at refl
        (keeps _ (can_refresh-Preserves env retrier cfg provider _ held d) s.world w (ok false) can)
        (λ _. tt) e
  Step-IsSafe Others allowed s t (is_inactive i h d v w at can inactive e) safe =
      moved s t i w (found h d) (leaving h) safe at refl
        (λ l.
          keeps _ (is_timed_out-Preserves env retrier cfg provider _ held d) v w (ok true) inactive
            (keeps _ (can_refresh-Preserves env retrier cfg provider _ held d) s.world v (ok true)
              can l))
        (λ _. tt) e
  Step-IsSafe Others allowed s t (may i h d v w at can active e) safe =
      moved s t i w (found h d) (ready h d) safe at refl
        (λ l.
          keeps _ (is_timed_out-Preserves env retrier cfg provider _ held d) v w (ok false) active (
            keeps _ (can_refresh-Preserves env retrier cfg provider _ held d) s.world v (ok true)
              can l))
        (λ there.
          stays-Stored (is_timed_out_now env retrier cfg provider d) (is_timed_out_keeps d) d v w
            (ok false) active
            (stays-Stored (can_refresh env retrier cfg provider d) (can_refresh_keeps d) d s.world v
              (ok true) can there))
        e
  Step-IsSafe Others allowed s t (is_granted i h d resp w at got e) safe =
      moved s t i w (ready h d) (answered h d resp) safe at refl
        (keeps _ (grant-Preserves env retrier cfg provider _ held d.refresh_token) s.world w
          (ok resp) got)
        (λ _. tt) e
  Step-IsSafe Others allowed s t (is_denied i h d x w at got e) safe =
      moved s t i w (ready h d) (leaving h) safe at refl
        (keeps _ (grant-Preserves env retrier cfg provider _ held d.refresh_token) s.world w (err x)
          got)
        (λ _. tt) e
  Step-IsSafe Others allowed s t (stores i h d resp r w at got e) safe =
      moved s t i w (answered h d resp) (leaving h) safe at refl
        (keeps _ (store_renewed-Locked env retrier cfg provider k locked lock d resp) s.world w r
          got)
        (λ _. tt) e
  Step-IsSafe Others allowed s t (releases i h r w at got e) safe = subst Safe (sym e) (
      moves-IsSafe env k entries locked s i w outside (λ j has. safe.alone i j (ap has_lock at) has)
        (λ has. cc) tt)
  Step-IsSafe Others allowed s t (others w other e) safe =
      let (l, lasts) = allowed s.world w other in
      subst Safe (sym e) (world-IsSafe env k entries locked s w safe l lasts)

  Reach-IsSafe :
      (Others : W → W → Type 0)
      → Allowed env k entries locked Others
      → (s t : System W Held) → Safe s
      → Reach env retrier cfg provider k Others s t
      → Safe t
  Reach-IsSafe Others allowed s t safe begun = safe
  Reach-IsSafe Others allowed s t safe (next {t = u} reached step) =
      Step-IsSafe Others allowed u t step (Reach-IsSafe Others allowed s u safe reached)

  starts-IsSafe : (s : System W Held) → ((i : ℕ) → s.phases i ≡ outside) → Safe s
  starts-IsSafe s out = record {
    alone = λ i j hi hj. ground (arith, out i);
    held = λ i hi. ground (arith, out i);
    known = λ i. subst (λ p. Known env k entries locked p s.world) (sym (out i)) tt;
  }

  -- Any number of requests refresh the session at once, step by step and in any order, with requests between
  -- them that only delete the entry and leave the lock as it is: when a request is about to ask for a grant,
  -- no other has the lock, and the entry decrypts to the data whose refresh token it sends, unless it has
  -- been deleted.
  pub Reach-alone :
      (Others : W → W → Type 0)
      → Allowed env k entries locked Others
      → (s t : System W Held) → ((i : ℕ) → s.phases i ≡ outside)
      → Reach env retrier cfg provider k Others s t
      → (i j : ℕ) (h : Held) (d : Data) → t.phases i ≡ ready h d
      → has_lock (t.phases j) ≡ true
      → (i ≡ j) × Stored env k entries locked d t.world
  Reach-alone Others allowed s t out reached i j h d at has =
      let safe = Reach-IsSafe Others allowed s t (starts-IsSafe s out) reached in
      (
        safe.alone i j (ap has_lock at) has,
        subst (λ p. Known env k entries locked p t.world) at (safe.known i),
      )
