-- ===== src/Session/Store/Redis/Locks.antt =====
-- The lock of a session in Redis (pkg/session/lock.go: RedisLock).
use Prim.Native.String.{◌++◌ as append}
use text.Mathlib.TextPositions.{len-append}
use wonderwall.Base.{
  String, Bool, true, false, ◌≡◌, ◌∙◌, ap, subst, Option, none, some, ok, arith, inl, inr, ◌==◌,
  Bool-cases, eq_iff, len,
}
use wonderwall.Base.Int.{ℤ}
use wonderwall.Session.Metadata.{Duration}
use wonderwall.Session.Data.{EncryptedData}
use wonderwall.Session.Store.Redis.{
  Obtained, obtained, not_obtained, Client, BinaryJson, lock_key, keep_ttl, acquired, acquire, read,
  update,
}
use wonderwall.Session.Store.Redis.Contract.{
  Entry, IsClient, IsBinaryJson, read_stored, set_value_keeps,
}

abbrev pub is_stored : Option Entry → Bool
is_stored none = false
is_stored (some e) = true

module _ {W L : Type 0} (c : Client W L) (json : BinaryJson) where
  acquired_inv : (o : Obtained L) (l : L) → acquired c json o ≡ ok l → o ≡ obtained l
  unfolding acquired
  acquired_inv (obtained m) l e = ground arith
  acquired_inv not_obtained l e = cc
  acquired_inv (Obtained.fault x) l e = cc

module _ {W L : Type 0} (c : Client W L) (json : BinaryJson) (stored : W → String → Option Entry)
    (expiry_of : W → Duration → Option ℤ) (laws : IsClient c stored expiry_of) where
  -- Whether the key of the session's lock is there.
  abbrev pub lock_held : String → W → Bool
  lock_held k w = is_stored (stored w (lock_key k))

  -- A lock that is obtained was free, and is held then.
  pub acquire_obtained :
      (k : String) (d : Duration) (w v : W) (l : L)
      → acquire c json k d w ≡ (ok l, v)
      → (lock_held k w ≡ false) × (lock_held k v ≡ true)
  unfolding acquire
  acquire_obtained k d w v l e =
      let o = c.obtain (lock_key k) d w in
      let (free, (entry, taken, _)) =
        laws.obtain_got (lock_key k) d w l (acquired_inv c json o.0 l (ap (λ x. x.0) e)) in
      (ap is_stored free, subst (λ u. lock_held k u ≡ true) (ap (λ x. x.1) e) (ap is_stored taken))

  -- While the lock is held, asking for it changes nothing.
  pub acquire_held :
      (k : String) (d : Duration) (w : W)
      → lock_held k w ≡ true
      → lock_held k (acquire c json k d w).1 ≡ true
  unfolding acquire
  acquire_held k d w h = elim (laws.obtain_leaves (lock_key k) (lock_key k) d w) [
    | inl same ↦ ap is_stored same ∙ h
    | inr (_, free, _) ↦ absurd (ground arith)
  ]

-- The key of a lock is not that of its session.
pub lock_key_other : (k : String) → (k == lock_key k) ≡ false
unfolding lock_key
lock_key_other k = elim (Bool-cases (k == lock_key k)) [
  | inr e ↦ e
  | inl e ↦
      let same : k ≡ append k ".lock" = (eq_iff k (append k ".lock")).0 e in
      absurd (omega (arith, ap len same, len-append k ".lock"))
]

module _ {W L : Type 0} (c : Client W L) (json : BinaryJson) (stored : W → String → Option Entry)
    (expiry_of : W → Duration → Option ℤ) (laws : IsClient c stored expiry_of)
    (codec : IsBinaryJson json) where
  pub update_elsewhere :
      (k j : String) (v : EncryptedData) (w : W)
      → (k == j) ≡ false
      → stored (update c json k v w).1 j ≡ stored w j
  unfolding update
  update_elsewhere k j v w n =
      let w' = (read c json k w).1 in
      ground (
        arith,
        read_stored c json stored expiry_of laws codec k j w,
        set_value_keeps c json stored expiry_of laws codec k j keep_ttl (json.marshal v) w' n,
      )
