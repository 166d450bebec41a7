-- ===== src/Session/Store/Redis/Contract.antt =====
-- What is relied on of Redis and redislock, and the store on them (pkg/session/store_redis.go, lock.go).
use wonderwall.Base.{
  Error, Bool, true, ◌⊎◌, ◌≢◌, ◌∙◌, String, ◌==◌, ◌≡◌, refl, false, Option, none, some, [], ◌∷◌,
  Result, ok, err, key_not_found, arith, Result-cases, inl, inr, if◌then◌else◌,
}
use wonderwall.Base.Int.{ℤ}
use wonderwall.Http.{Bytes}
use wonderwall.Session.Metadata.{Duration}
use wonderwall.Session.Data.{EncryptedData}
use wonderwall.Session.Store.{Entries}
use wonderwall.Session.Store.Redis.{
  obtained, Reply, value, nil, Expiry, after, keep_ttl, Client, BinaryJson, read, update, set_value,
  read_reply,
}

-- What Redis stores under a key: the bytes, and the instant at which the key expires, if any.
pub record Entry : Type 0 where
  pub bytes : Bytes
  pub expires : Option ℤ

abbrev pub HasToken : (Bytes → Bool) → Option Entry → Type 0
HasToken token o = (e : Entry) × (o ≡ some e) × (token e.bytes ≡ true)

-- The documented behaviour of the commands. `expiry_of` is the instant that SET computes from the
-- expiry asked for and the entry that is there.
pub record IsClient {W L : Type 0} (c : Client W L) (stored : W → String → Option Entry)
    (expiry_of : W → Duration → Option ℤ) : Type 0 where
  pub get_keeps : (k j : String) (w : W) → stored (c.get k w).1 j ≡ stored w j
  pub got :
      (k : String) (w : W) (b : Bytes)
      → (c.get k w).0 ≡ value b
      → (e : Entry) × (stored w k ≡ some e) × (e.bytes ≡ b)
  pub got_nil : (k : String) (w : W) → (c.get k w).0 ≡ nil → stored w k ≡ none
  pub set_after :
      (k j : String) (b : Bytes) (d : Duration) (w : W)
      → (c.set k b (after d) w).0 ≡ value tt
      → stored (c.set k b (after d) w).1 j
        ≡ (if k == j then some (record { bytes = b; expires = expiry_of w d }) else stored w j)
  pub set_keep :
      (k j : String) (b : Bytes) (e : Entry) (w : W)
      → stored w k ≡ some e
      → (c.set k b keep_ttl w).0 ≡ value tt
      → stored (c.set k b keep_ttl w).1 j
        ≡ (if k == j then some (record { bytes = b; expires = e.expires }) else stored w j)
  pub set_keeps :
      (k j : String) (b : Bytes) (x : Expiry) (w : W)
      → (k == j) ≡ false
      → stored (c.set k b x w).1 j ≡ stored w j
  pub del_one :
      (k j : String) (w : W)
      → (c.del (k ∷ []) w).0 ≡ value tt
      → stored (c.del (k ∷ []) w).1 j ≡ (if k == j then none else stored w j)
  pub del_keeps :
      (k j : String) (w : W) → (k == j) ≡ false → stored (c.del (k ∷ []) w).1 j ≡ stored w j
  -- A lock is a key with a token, which is set if there is no such key, and deleted if it has the token.
  pub token : Bytes → Bool
  pub obtain_leaves :
      (k j : String) (d : Duration) (w : W)
      → (stored (c.obtain k d w).1 j ≡ stored w j)
        ⊎ (((k == j) ≡ true) × (stored w j ≡ none) × HasToken token (stored (c.obtain k d w).1 j))
  pub obtain_got :
      (k : String) (d : Duration) (w : W) (l : L)
      → (c.obtain k d w).0 ≡ obtained l
      → (stored w k ≡ none) × HasToken token (stored (c.obtain k d w).1 k)
  pub release_leaves :
      (l : L) (j : String) (w : W)
      → (stored (c.release l w).1 j ≡ stored w j)
        ⊎ (HasToken token (stored w j) × (stored (c.release l w).1 j ≡ none))

-- The token of a lock, random bytes in base64, is not the JSON of encrypted data.
pub record IsOpaque (json : BinaryJson) (token : Bytes → Bool) : Type 0 where
  pub unread : (b : Bytes) → token b ≡ true → (x : Error) × (json.unmarshal b ≡ err x)

-- encoding/json reads what it wrote.
pub record IsBinaryJson (json : BinaryJson) : Type 0 where
  pub reads : (v : EncryptedData) (b : Bytes) → json.marshal v ≡ ok b → json.unmarshal b ≡ ok v

abbrev parsed : Result EncryptedData → Option EncryptedData
parsed (ok v) = some v
parsed (err _) = none

abbrev pub decoded : BinaryJson → Option Entry → Option EncryptedData
decoded json none = none
decoded json (some e) = parsed (json.unmarshal e.bytes)

module _ {W L : Type 0} (c : Client W L) (json : BinaryJson) where
  read_reply_inv :
      (r : Reply Bytes) (v : EncryptedData)
      → read_reply c json r ≡ ok v
      → (b : Bytes) × (r ≡ value b) × (json.unmarshal b ≡ ok v)
  read_reply_inv (value b) v h = elim (Result-cases (json.unmarshal b)) [
    | inl (u, e) ↦ (b, refl, ground arith)
    | inr (x, e) ↦ ground arith
  ]
  read_reply_inv nil v h = cc
  read_reply_inv Reply.fault v h = cc

  read_reply_missing : (r : Reply Bytes) → read_reply c json r ≡ err key_not_found → r ≡ nil
  read_reply_missing (value b) h = ground arith
  read_reply_missing nil h = refl
  read_reply_missing Reply.fault h = cc

  pub set_value_inv :
      (k : String) (x : Expiry) (r : Result Bytes) (w : W)
      → (set_value c json k x r w).0 ≡ ok tt
      → (b : Bytes) × (r ≡ ok b)
        × ((c.set k b x w).0 ≡ value tt)
        × ((set_value c json k x r w).1 ≡ (c.set k b x w).1)
  unfolding set_value
  set_value_inv k x (ok b) w h = (b, refl, ground arith, refl)
  set_value_inv k x (err e) w h = cc

  pub set_value_err :
      (k : String) (x : Expiry) (r : Result Bytes) (w : W)
      → (set_value c json k x r w).0 ≢ err key_not_found
  unfolding set_value
  set_value_err k x (ok b) w h = ground arith
  set_value_err k x (err e) w h = cc

module _ {W L : Type 0} (c : Client W L) (json : BinaryJson) (stored : W → String → Option Entry)
    (expiry_of : W → Duration → Option ℤ) (laws : IsClient c stored expiry_of)
    (codec : IsBinaryJson json) where
  abbrev pub view : W → Entries
  view w k = decoded json (stored w k)

  pub read_found :
      (k : String) (w : W) (v : EncryptedData)
      → (read c json k w).0 ≡ ok v
      → (e : Entry) × (stored w k ≡ some e) × (json.unmarshal e.bytes ≡ ok v)
  unfolding read
  read_found k w v h =
      let (b, hr, hu) = read_reply_inv c json (c.get k w).0 v h in
      let (e, he, hb) = laws.got k w b hr in (e, he, rw hb hu)

  pub read_missing :
      (k : String) (w : W) → (read c json k w).0 ≡ err key_not_found → stored w k ≡ none
  unfolding read
  read_missing k w h = laws.got_nil k w (read_reply_missing c json (c.get k w).0 h)

  pub read_stored : (k j : String) (w : W) → stored (read c json k w).1 j ≡ stored w j
  unfolding read
  read_stored k j w = laws.get_keeps k j w

  pub set_value_keeps :
      (k j : String) (x : Expiry) (r : Result Bytes) (w : W)
      → (k == j) ≡ false
      → stored (set_value c json k x r w).1 j ≡ stored w j
  unfolding set_value
  set_value_keeps k j x (ok b) w n = laws.set_keeps k j b x w n
  set_value_keeps k j x (err e) w n = refl

  -- A successful update finds the key and replaces its value; it leaves the other keys and the time
  -- at which the key expires as they were.
  pub update_keeps_ttl :
      (k j : String) (v : EncryptedData) (w : W)
      → (update c json k v w).0 ≡ ok tt
      → (e : Entry) × (b : Bytes) × (stored w k ≡ some e)
        × (json.marshal v ≡ ok b)
        × (stored (update c json k v w).1 j
            ≡ (if k == j then some (record { bytes = b; expires = e.expires }) else stored w j))
  unfolding update
  update_keeps_ttl k j v w h = elim (Result-cases (read c json k w).0) [
    | inr (x, hr) ↦ ground arith
    | inl (u, hr) ↦
        let w' = (read c json k w).1 in
        let (e, he, hu) = read_found k w u hr in
        let set_ok : (set_value c json k keep_ttl (json.marshal v) w').0 ≡ ok tt = ground arith in
        let (b, hm, hs, same) = set_value_inv c json k keep_ttl (json.marshal v) w' set_ok in
        let there : stored w' k ≡ some e = read_stored k k w ∙ he in
        (e, b, he, hm, ground (arith, laws.set_keep k j b e w' there hs, read_stored k j w))
  ]
