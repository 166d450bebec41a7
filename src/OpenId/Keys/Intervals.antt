-- ===== src/OpenId/Keys/Intervals.antt =====
-- The provider is not asked for its keys more often than every five seconds, once it has been asked again
-- (pkg/openid/provider/provider.go).
use mathlib.Core.List.{append-nil, append_assoc}
use wonderwall.Base.{
  ◌++◌, sym, ap, ◌∙◌, Bool-cases, inl, inr, ℕ, String, ◌≡◌, subst, true, false, List, [], ◌∷◌,
  arith,
}
use wonderwall.Base.Int.{ℤ, pos, negsuc, ◌+ℤ◌, ◌≤ℤ◌, +ℤ_parts, -ℤ_parts, ltb_ℤ→ge, ◌-ℤ◌, saturate64}
use wonderwall.Session.Metadata.{Time, sub}
use wonderwall.OpenId.Keys.{
  JwksCache, JwksProvider, jwk_minimum_refresh_interval, recently_refreshed, refresh_public_jwk_set,
  get_public_jwk_set,
}

-- A difference that was cut to 64 bits is no more than the difference.
saturated_le : (k : ℕ) (d : ℤ) → pos k ≤ℤ saturate64 d → pos k ≤ℤ d
unfolding saturate64
saturated_le k (pos n) h = ground arith
saturated_le k (negsuc n) h = ground arith

far_enough :
    (now last : Time)
    → jwk_minimum_refresh_interval ≤ℤ sub now last
    → last +ℤ jwk_minimum_refresh_interval ≤ℤ now
unfolding sub
far_enough now last h = ground (
  arith,
  saturated_le 5000000000 (now -ℤ last) h,
  -ℤ_parts now last,
  +ℤ_parts last jwk_minimum_refresh_interval,
)

-- The instants at which the cache has been asked to fetch the keys, the oldest first, as the world has them;
-- `clock` is the instant of a world. Fetching adds an instant, and neither reading the clock nor reading the
-- cache does.
pub record IsWatched {W Jwks : Type 0} (cache : JwksCache W Jwks) (uri : String) (clock : W → Time)
    (fetches : W → List Time) : Type 0 where
  pub reading : (w : W) → (cache.now w).0 ≡ clock (cache.now w).1
  pub forward : (w : W) → clock w ≤ℤ clock (cache.now w).1
  pub now_keeps : (w : W) → fetches (cache.now w).1 ≡ fetches w
  pub cached_keeps : (w : W) → fetches (cache.cached uri w).1 ≡ fetches w
  pub fetch_adds : (w : W) → fetches (cache.fetch uri w).1 ≡ fetches w ++ clock w ∷ []

-- Each instant comes at least the interval after the one before it.
abbrev pub Spaced : Time → List Time → Type 0
Spaced last [] = Unit
Spaced last (t ∷ ts) = (last +ℤ jwk_minimum_refresh_interval ≤ℤ t) × Spaced t ts

module _ {W Jwks : Type 0} (cache : JwksCache W Jwks) (uri : String) (clock : W → Time)
    (fetches : W → List Time) (watched : IsWatched cache uri clock fetches) where
  -- Calls of `RefreshPublicJwkSet`, which the lock puts in an order. Between two calls the world may change,
  -- but neither what the lock guards nor the instants of the fetches.
  pub data Calls : JwksProvider W → JwksProvider W → Type 0 where
    finished : {p : JwksProvider W} → Calls p p
    elapse :
        {p q : JwksProvider W} (v : W)
        → fetches v ≡ fetches p.world
        → Calls (record p { world = v }) q
        → Calls p q
    called : {p q : JwksProvider W} → Calls (refresh_public_jwk_set cache uri p).1 q → Calls p q

  -- The fetches of the calls, after those that there have been.
  abbrev pub NewFetches : JwksProvider W → JwksProvider W → Type 0
  NewFetches p q =
      (ts : List Time) × (fetches q.world ≡ fetches p.world ++ ts) × Spaced p.last_refresh ts

  from_cache :
      (p : JwksProvider W)
      → recently_refreshed cache uri p ≡ true
      → let p' = (refresh_public_jwk_set cache uri p).1 in
        (p'.last_refresh ≡ p.last_refresh) × (fetches p'.world ≡ fetches p.world)
  unfolding refresh_public_jwk_set get_public_jwk_set
  from_cache p recent =
      let v = (cache.now p.world).1 in
      (ground arith, ground (arith, watched.cached_keeps v, watched.now_keeps p.world))

  fetched :
      (p : JwksProvider W)
      → recently_refreshed cache uri p ≡ false
      → let p' = (refresh_public_jwk_set cache uri p).1 in
        let t = clock (cache.now (cache.now p.world).1).1 in
        (p'.last_refresh ≡ t)
        × (fetches p'.world ≡ fetches p.world ++ t ∷ [])
        × (p.last_refresh +ℤ jwk_minimum_refresh_interval ≤ℤ t)
  unfolding refresh_public_jwk_set
  fetched p due =
      let v = (cache.now p.world).1 in
      let u = (cache.now v).1 in
      (
        ground (arith, watched.reading v),
        ground (arith, watched.fetch_adds u, watched.now_keeps v, watched.now_keeps p.world),
        ground (
          arith,
          watched.reading p.world,
          watched.forward v,
          far_enough (cache.now p.world).0 p.last_refresh (
              ltb_ℤ→ge (sub (cache.now p.world).0 p.last_refresh) jwk_minimum_refresh_interval due),
        ),
      )

  -- However calls to refresh the keys follow one another, if the clock does not go back, the cache is asked to
  -- fetch the keys at instants of which each comes at least five seconds after the one before it, the first
  -- after the last refresh before the calls.
  pub Calls-Spaced : {p q : JwksProvider W} → Calls p q → NewFetches p q
  Calls-Spaced {p} finished = ([], sym (append-nil (fetches p.world)), tt)
  Calls-Spaced (elapse v same rest) =
      let (ts, new, spaced) = Calls-Spaced rest in (ts, new ∙ ap (λ l. l ++ ts) same, spaced)
  Calls-Spaced {p} {q} (called rest) =
      let (ts, new, spaced) = Calls-Spaced rest in
      elim (Bool-cases (recently_refreshed cache uri p)) [
        | inl recent ↦
            let (last, same) = from_cache p recent in
            (ts, new ∙ ap (λ l. l ++ ts) same, subst (λ t. Spaced t ts) last spaced)
        | inr due ↦
            let (last, more, later) = fetched p due in
            let t = clock (cache.now (cache.now p.world).1).1 in
            (
              t ∷ ts,
              new ∙ ap (λ l. l ++ ts) more ∙ append_assoc (fetches p.world) (t ∷ []) ts,
              (later, subst (λ u. Spaced u ts) last spaced),
            )
      ]
