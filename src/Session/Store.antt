-- ===== src/Session/Store.antt =====
-- The interface `Store` of pkg/session/store.go, with that of the locks it makes (lock.go), and
-- what its clients rely on. `Held` is what an acquired lock holds until it is released.
pub mod Memory
pub mod Redis
use wonderwall.Base.{
  String, ◌==◌, ◌≡◌, ◌≢◌, ◌⊎◌, Bool, true, false, Option, none, some, List, [], ◌∷◌, Result, ok,
  err, key_not_found, contains, if◌then◌else◌,
}
use wonderwall.Base.Action.{Action}
use wonderwall.Session.Metadata.{Duration}
use wonderwall.Session.Data.{EncryptedData}

pub record Store (W Held : Type 0) : Type 0 where
  pub write : String → EncryptedData → Duration → Action W (Unit {0})
  pub read : String → Action W EncryptedData
  pub delete : List String → Action W (Unit {0})
  pub update : String → EncryptedData → Action W (Unit {0})
  -- `MakeLock(key)` and the methods of the lock that it makes
  pub acquire : String → Duration → Action W Held
  pub release : Held → Action W (Unit {0})

-- The abstract view of a store: a map from keys to encrypted data.
abbrev pub Entries : Type 0
Entries = String → Option EncryptedData

abbrev pub put : String → Option EncryptedData → Entries → Entries
put k v m j = if k == j then v else m j

-- The contract. A call that succeeds does to the map what its name says; a call that fails may
-- have changed the key that it was about, and no other; reads and locks change nothing.
pub record IsStore {W Held : Type 0} (s : Store W Held) (entries : W → Entries) : Type 0 where
  pub read_keeps : (k j : String) (w : W) → entries (s.read k w).1 j ≡ entries w j
  pub found :
      (k : String) (w : W) (v : EncryptedData) → (s.read k w).0 ≡ ok v → entries w k ≡ some v
  pub missing : (k : String) (w : W) → (s.read k w).0 ≡ err key_not_found → entries w k ≡ none
  pub written :
      (k j : String) (v : EncryptedData) (d : Duration) (w : W)
      → (s.write k v d w).0 ≡ ok tt
      → entries (s.write k v d w).1 j ≡ put k (some v) (entries w) j
  pub write_keeps :
      (k j : String) (v : EncryptedData) (d : Duration) (w : W)
      → (k == j) ≡ false
      → entries (s.write k v d w).1 j ≡ entries w j
  pub deleted :
      (k j : String) (w : W)
      → (s.delete (k ∷ []) w).0 ≡ ok tt
      → entries (s.delete (k ∷ []) w).1 j ≡ put k none (entries w) j
  pub delete_keeps :
      (k j : String) (w : W) → (k == j) ≡ false → entries (s.delete (k ∷ []) w).1 j ≡ entries w j
  pub updated :
      (k j : String) (v : EncryptedData) (w : W)
      → (s.update k v w).0 ≡ ok tt
      → entries (s.update k v w).1 j ≡ put k (some v) (entries w) j
  pub updated_present :
      (k : String) (v : EncryptedData) (w : W) → (s.update k v w).0 ≡ ok tt → entries w k ≢ none
  pub update_keeps :
      (k j : String) (v : EncryptedData) (w : W)
      → (k == j) ≡ false
      → entries (s.update k v w).1 j ≡ entries w j
  pub update_missing :
      (k j : String) (v : EncryptedData) (w : W)
      → (s.update k v w).0 ≡ err key_not_found
      → (entries w k ≡ none) × (entries (s.update k v w).1 j ≡ entries w j)
  pub acquire_keeps :
      (k j : String) (d : Duration) (w : W) → entries (s.acquire k d w).1 j ≡ entries w j
  pub release_keeps : (h : Held) (j : String) (w : W) → entries (s.release h w).1 j ≡ entries w j

-- What a call may have done to the entry of its key, whether it succeeds or fails: nothing, or what its
-- name says. An entry never becomes anything else.
pub record IsCareful {W Held : Type 0} (s : Store W Held) (entries : W → Entries) : Type 0 where
  pub write_leaves :
      (k : String) (v : EncryptedData) (d : Duration) (w : W)
      → (entries (s.write k v d w).1 k ≡ entries w k) ⊎ (entries (s.write k v d w).1 k ≡ some v)
  pub delete_leaves :
      (k : String) (w : W)
      → (entries (s.delete (k ∷ []) w).1 k ≡ entries w k)
        ⊎ (entries (s.delete (k ∷ []) w).1 k ≡ none)
  pub update_leaves :
      (k : String) (v : EncryptedData) (w : W)
      → (entries (s.update k v w).1 k ≡ entries w k) ⊎ (entries (s.update k v w).1 k ≡ some v)
