-- ===== src/Session/Store/Redis/Refinement.antt =====
-- The store in Redis implements the map of sessions (pkg/session/store_redis.go), and the keys of
-- its locks (lock.go).
use text.Mathlib.TextLemmas.{append_cancel_right}
use wonderwall.Base.{
  sym, ◌∙◌, String, ◌==◌, ◌≡◌, ◌≢◌, ap, false, Option, none, some, [], ◌∷◌, ok, err, key_not_found,
  arith, Result-cases, inl, inr,
}
use wonderwall.Base.Int.{ℤ}
use wonderwall.Session.Metadata.{Duration}
use wonderwall.Session.Data.{EncryptedData}
use wonderwall.Session.Store.{Entries, put, IsStore}
use wonderwall.Session.Store.Redis.{
  after, keep_ttl, Client, BinaryJson, lock_key, read, write, delete, update, acquire, release,
  redis_store,
}
use wonderwall.Session.Store.Redis.Contract.{
  Entry, HasToken, IsOpaque, IsClient, IsBinaryJson, decoded, view, read_found, read_missing,
  read_stored, set_value_keeps, set_value_inv, set_value_err, update_keeps_ttl,
}

-- Different sessions have different locks.
pub lock_key_injective : (k j : String) → lock_key k ≡ lock_key j → k ≡ j
unfolding lock_key
lock_key_injective k j e = append_cancel_right k j ".lock" e

module _ {W L : Type 0} (c : Client W L) (json : BinaryJson) (stored : W → String → Option Entry)
    (expiry_of : W → Duration → Option ℤ) (laws : IsClient c stored expiry_of)
    (codec : IsBinaryJson json) (opaque : IsOpaque json laws.token) where
  abbrev entries : W → Entries
  entries = view c json stored expiry_of laws codec

  read_entries : (k j : String) (w : W) → entries (read c json k w).1 j ≡ entries w j
  read_entries k j w = ap (decoded json) (read_stored c json stored expiry_of laws codec k j w)

  found_entry :
      (k : String) (w : W) (v : EncryptedData) → (read c json k w).0 ≡ ok v → entries w k ≡ some v
  found_entry k w v h =
      let (e, he, hu) = read_found c json stored expiry_of laws codec k w v h in ground arith

  missing_entry :
      (k : String) (w : W) → (read c json k w).0 ≡ err key_not_found → entries w k ≡ none
  missing_entry k w h = rw (read_missing c json stored expiry_of laws codec k w h)

  written_entry :
      (k j : String) (v : EncryptedData) (d : Duration) (w : W)
      → (write c json k v d w).0 ≡ ok tt
      → entries (write c json k v d w).1 j ≡ put k (some v) (entries w) j
  unfolding write
  written_entry k j v d w h =
      let (b, hm, hs, same) = set_value_inv c json k (after d) (json.marshal v) w h in
      let stored_after = laws.set_after k j b d w hs in ground (arith, codec.reads v b hm)

  deleted_entry :
      (k j : String) (w : W)
      → (delete c json (k ∷ []) w).0 ≡ ok tt
      → entries (delete c json (k ∷ []) w).1 j ≡ put k none (entries w) j
  unfolding delete
  deleted_entry k j w h = ground (arith, laws.del_one k j w)

  updated_entry :
      (k j : String) (v : EncryptedData) (w : W)
      → (update c json k v w).0 ≡ ok tt
      → entries (update c json k v w).1 j ≡ put k (some v) (entries w) j
  updated_entry k j v w h =
      let (e, b, he, hm, after_update) =
        update_keeps_ttl c json stored expiry_of laws codec k j v w h in
      ground (arith, codec.reads v b hm)

  updated_found :
      (k : String) (v : EncryptedData) (w : W)
      → (update c json k v w).0 ≡ ok tt
      → entries w k ≢ none
  unfolding update
  updated_found k v w h n = elim (Result-cases (read c json k w).0) [
    | inr (x, hr) ↦ ground arith
    | inl (u, hr) ↦ ground (arith, found_entry k w u hr)
  ]

  update_elsewhere :
      (k j : String) (v : EncryptedData) (w : W)
      → (k == j) ≡ false
      → entries (update c json k v w).1 j ≡ entries w j
  unfolding update
  update_elsewhere k j v w n =
      let w' = (read c json k w).1 in
      ground (
        arith,
        read_stored c json stored expiry_of laws codec k j w,
        set_value_keeps c json stored expiry_of laws codec k j keep_ttl (json.marshal v) w' n,
      )

  update_not_found :
      (k j : String) (v : EncryptedData) (w : W)
      → (update c json k v w).0 ≡ err key_not_found
      → (entries w k ≡ none) × (entries (update c json k v w).1 j ≡ entries w j)
  unfolding update
  update_not_found k j v w h = elim (Result-cases (read c json k w).0) [
    | inl (u, hr) ↦
        absurd (set_value_err c json k keep_ttl (json.marshal v) (read c json k w).1 (ground arith))
    | inr (x, hr) ↦
        let same : x ≡ key_not_found = ground arith in
        (
          missing_entry k w (ground arith),
          ground (arith, read_stored c json stored expiry_of laws codec k j w),
        )
  ]

  token-none : (o : Option Entry) → HasToken laws.token o → decoded json o ≡ none
  token-none o (e, is, token) = let (x, failed) = opaque.unread e.bytes token in rw (is, failed)

  obtain_entries :
      (k j : String) (d : Duration) (w : W) → entries (c.obtain k d w).1 j ≡ entries w j
  obtain_entries k j d w = elim (laws.obtain_leaves k j d w) [
    | inl same ↦ ap (decoded json) same
    | inr (_, free, taken) ↦ token-none _ taken ∙ sym (ap (decoded json) free)
  ]

  release_entries : (l : L) (j : String) (w : W) → entries (c.release l w).1 j ≡ entries w j
  release_entries l j w = elim (laws.release_leaves l j w) [
    | inl same ↦ ap (decoded json) same
    | inr (taken, free) ↦ ap (decoded json) free ∙ sym (token-none _ taken)
  ]

  -- With clients that behave as documented, the store in Redis keeps the contract of a store, its
  -- entries being the values that Redis holds and that are not the tokens of locks, which are kept under keys
  -- of their own in the same Redis.
  pub redis_store-IsStore : IsStore (redis_store c json) entries
  unfolding write delete acquire release
  redis_store-IsStore = record {
    read_keeps = read_entries;
    found = found_entry;
    missing = missing_entry;
    written = written_entry;
    write_keeps = λ k j v d w n.
        ap (decoded json)
          (set_value_keeps c json stored expiry_of laws codec k j (after d) (json.marshal v) w n);
    deleted = deleted_entry;
    delete_keeps = λ k j w n. ap (decoded json) (laws.del_keeps k j w n);
    updated = updated_entry;
    updated_present = updated_found;
    update_keeps = update_elsewhere;
    update_missing = update_not_found;
    acquire_keeps = λ k j d w. obtain_entries (lock_key k) j d w;
    release_keeps = release_entries;
  }
