-- ===== src/Session/Store/Memory.antt =====
-- The store in memory (pkg/session/store_memory.go), with the lock that does nothing (lock.go).
-- The mutex makes each critical section one step; `Update` has two of them.
use wonderwall.Base.{
  String, refl, none, some, List, [], ◌∷◌, ok, err, key_not_found, arith, eq_refl, Result-cases,
  inl, inr,
}
use wonderwall.Base.Action.{Action, ◌>>◌}
use wonderwall.Session.Metadata.{Duration}
use wonderwall.Session.Data.{EncryptedData}
use wonderwall.Session.Store.{Store, Entries, put, IsStore, IsCareful}

-- The map `sessions`
pub record Memory : Type 0 where
  pub sessions : Entries

abbrev pub new_memory : Memory
new_memory = record { sessions = λ k. none }

unfoldable pub read : String → Action Memory EncryptedData
read key m = elim (m.sessions key) [ none ↦ (err key_not_found, m) | some d ↦ (ok d, m) ]

unfoldable pub write : String → EncryptedData → Duration → Action Memory (Unit {0})
write key value _ m = (ok tt, record { sessions = put key (some value) m.sessions })

delete_keys : List String → Entries → Entries
delete_keys [] sessions = sessions
delete_keys (key ∷ keys) sessions = delete_keys keys (put key none sessions)

unfoldable pub delete : List String → Action Memory (Unit {0})
unfolding delete_keys
delete keys m = (ok tt, record { sessions = delete_keys keys m.sessions })

-- The second critical section of `Update`.
pub assign : String → EncryptedData → Action Memory (Unit {0})
assign key value m = (ok tt, record { sessions = put key (some value) m.sessions })

unfoldable pub update : String → EncryptedData → Action Memory (Unit {0})
unfolding read assign
update key value = do read key; assign key value

-- `NoOpLock`
unfoldable pub acquire : String → Duration → Action Memory (Unit {0})
acquire _ _ m = (ok tt, m)

unfoldable pub release : Unit {0} → Action Memory (Unit {0})
release _ m = (ok tt, m)

abbrev pub memory_store : Store Memory Unit
memory_store = record {
  write = write;
  read = read;
  delete = delete;
  update = update;
  acquire = acquire;
  release = release;
}

-- The store in memory keeps the contract of a store, its map being the view.
pub memory_store-IsStore : IsStore memory_store (λ m. m.sessions)
unfolding read write delete update acquire release
memory_store-IsStore = record {
  read_keeps = λ k j m. ground arith;
  found = λ k m v e. ground arith;
  missing = λ k m e. ground arith;
  written = λ k j v d m e. refl;
  write_keeps = λ k j v d m n. rw n;
  deleted = λ k j m e. refl;
  delete_keeps = λ k j m n. rw n;
  updated = λ k j v m e. ground arith;
  updated_present = λ k v m e n. ground arith;
  update_keeps = λ k j v m n. ground arith;
  update_missing = λ k j v m e. (ground arith, ground arith);
  acquire_keeps = λ k j d m. refl;
  release_keeps = λ h j m. refl;
}

pub memory_store-IsCareful : IsCareful memory_store (λ m. m.sessions)
unfolding read write delete update
memory_store-IsCareful = record {
  write_leaves = λ k v d m. inr (ground (arith, eq_refl k));
  delete_leaves = λ k m. inr (ground (arith, eq_refl k));
  update_leaves = λ k v m. elim (Result-cases (read k m).0) [
    | inl (d, e) ↦ inr (ground (arith, eq_refl k))
    | inr (x, e) ↦ inl (ground arith)
  ];
}
