-- ===== src/Session/Store/Redis/Careful.antt =====
-- What a call of the store in Redis may leave behind when it fails (pkg/session/store_redis.go).
use wonderwall.Base.{
  String, ◌≡◌, ◌⊎◌, inl, inr, ap, Option, none, some, [], ◌∷◌, arith, Result-cases,
}
use wonderwall.Base.Int.{ℤ}
use wonderwall.Http.{Bytes}
use wonderwall.Session.Metadata.{Duration}
use wonderwall.Session.Data.{EncryptedData}
use wonderwall.Session.Store.{IsCareful}
use wonderwall.Session.Store.Redis.{
  Expiry, after, keep_ttl, Client, BinaryJson, read, write, update, delete, set_value, redis_store,
}
use wonderwall.Session.Store.Redis.Contract.{
  Entry, IsClient, IsBinaryJson, decoded, view, read_stored,
}

-- A command of Redis takes effect as a whole or not at all, also where its reply is lost.
pub record IsAtomic {W L : Type 0} (c : Client W L) (stored : W → String → Option Entry)
    : Type 0 where
  pub set_leaves :
      (k : String) (b : Bytes) (x : Expiry) (w : W)
      → (stored (c.set k b x w).1 k ≡ stored w k)
        ⊎ ((e : Entry) × (stored (c.set k b x w).1 k ≡ some e) × (e.bytes ≡ b))
  pub del_leaves :
      (k : String) (w : W)
      → (stored (c.del (k ∷ []) w).1 k ≡ stored w k) ⊎ (stored (c.del (k ∷ []) w).1 k ≡ none)

module _ {W L : Type 0} (c : Client W L) (json : BinaryJson) (stored : W → String → Option Entry)
    (expiry_of : W → Duration → Option ℤ) (laws : IsClient c stored expiry_of)
    (codec : IsBinaryJson json) (atomic : IsAtomic c stored) where
  abbrev entries : W → String → Option EncryptedData
  entries = view c json stored expiry_of laws codec

  set_value_leaves :
      (k : String) (v : EncryptedData) (x : Expiry) (w : W)
      → (entries (set_value c json k x (json.marshal v) w).1 k ≡ entries w k)
        ⊎ (entries (set_value c json k x (json.marshal v) w).1 k ≡ some v)
  unfolding set_value
  set_value_leaves k v x w = elim (Result-cases (json.marshal v)) [
    | inr (z, e) ↦ inl (rw e)
    | inl (b, e) ↦ elim (atomic.set_leaves k b x w) [
      | inl same ↦ inl (rw e (ap (decoded json) same))
      | inr (entry, put, bytes) ↦ inr (ground (arith, codec.reads v b e, put, bytes))
    ]
  ]

  -- With a client whose commands take effect as a whole or not at all, so do the calls of the store.
  pub redis_store-IsCareful : IsCareful (redis_store c json) entries
  unfolding write update delete
  redis_store-IsCareful = record {
    write_leaves = λ k v d w. set_value_leaves k v (after d) w;
    delete_leaves = λ k w. elim (atomic.del_leaves k w) [
      | inl same ↦ inl (ap (decoded json) same)
      | inr gone ↦ inr (ap (decoded json) gone)
    ];
    update_leaves = λ k v w.
        let kept : entries (read c json k w).1 k ≡ entries w k =
          ap (decoded json) (read_stored c json stored expiry_of laws codec k k w) in
        elim (Result-cases (read c json k w).0) [
          | inr (z, e) ↦ inl (ground arith)
          | inl (u, e) ↦ elim (set_value_leaves k v keep_ttl (read c json k w).1) [
            | inl same ↦ inl (ground arith)
            | inr put ↦ inr (ground arith)
          ]
        ];
  }
