-- ===== src/Session/Metadata/Lifetimes.antt =====
-- How the metadata of a session changes over its life (pkg/session/data.go: Refresh, ExtendTimeout,
-- WithTimeout, IsTimedOut, IsExpired), as sequences of those calls.
use wonderwall.Base.{zero, suc, if◌then◌else◌, ◌≡◌, refl, ◌∙◌, ◌↔◌, true, false, arith}
use wonderwall.Base.Int.{ltb_ℤ, ℤ, pos, negsuc, ◌+ℤ◌, ◌≤ℤ◌, ◌<ℤ◌}
use wonderwall.Session.Metadata.{
  Time, Duration, Metadata, is_zero, new_metadata, refresh, extend_timeout, with_timeout,
  is_timed_out,
}

-- A change that the session handler makes to metadata, by a clock that does not run backwards.
pub data Change : Metadata → Metadata → Type 0 where
  refreshed :
      {m : Metadata} (now : Time) (secs : ℤ)
      → m.tokens.refreshed_at ≤ℤ now
      → Change m (refresh now secs m)
  extended : {m : Metadata} (now : Time) (d : Duration) → Change m (extend_timeout now d m)
  limited : {m : Metadata} (now : Time) (d : Duration) → Change m (with_timeout now d m)

pub data Changes (m : Metadata) : Metadata → Type 0 where
  unchanged : Changes m m
  changed : {n p : Metadata} → Changes m n → Change n p → Changes m p

pub record SameSession (m n : Metadata) : Type 0 where
  pub created : n.session.created_at ≡ m.session.created_at
  pub ends : n.session.ends_at ≡ m.session.ends_at
  pub later : m.tokens.refreshed_at ≤ℤ n.tokens.refreshed_at

Change-SameSession : {m n : Metadata} → Change m n → SameSession m n
unfolding refresh extend_timeout with_timeout
Change-SameSession (refreshed now secs h) = record { created = refl; ends = refl; later = h }
Change-SameSession (extended now d) = record { created = refl; ends = refl; later = omega arith }
Change-SameSession (limited now d) = record { created = refl; ends = refl; later = omega arith }

-- Whatever refreshes and extensions of the timeout a session sees, its creation time and the end of
-- its absolute lifetime stay, and the time of the last refresh never goes back.
pub Changes-SameSession : {m n : Metadata} → Changes m n → SameSession m n
Changes-SameSession unchanged = record { created = refl; ends = refl; later = omega arith }
Changes-SameSession (changed c s) =
    let before = Changes-SameSession c in
    let after = Change-SameSession s in
    record {
      created = after.created ∙ before.created;
      ends = after.ends ∙ before.ends;
      later = omega (arith, before.later, after.later);
    }

not_yet_zero :
    (t later : Time) → pos 0 <ℤ t → t <ℤ later → (if is_zero t then false else ltb_ℤ t later) ≡ true
not_yet_zero (pos zero) later h q = absurd (omega arith)
not_yet_zero (pos (suc n)) later h q = ground arith
not_yet_zero (negsuc n) later h q = absurd (omega arith)

-- A session created at `now` with a timeout of `d` ends by timeout exactly after `now + d`, is not
-- refreshed by that, and without `with_timeout` never times out.
pub new_metadata_timeout :
    (now later : Time) (expires ends d : Duration)
    → pos 0 <ℤ now +ℤ d
    → ((is_timed_out later (with_timeout now d (new_metadata now expires ends)) ≡ true)
        ↔ (now +ℤ d <ℤ later))
      × (is_timed_out later (new_metadata now expires ends) ≡ false)
unfolding is_timed_out with_timeout new_metadata
new_metadata_timeout now later expires ends d h =
    ((λ p. ground arith, λ q. not_yet_zero (now +ℤ d) later h q), refl)
