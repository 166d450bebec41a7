-- ===== src/Tests/RedisServer.antt =====
-- A server of Redis that can be evaluated, whose commands succeed and whose locks are keys beside the
-- sessions', and the store on it.
use wonderwall.Base.{
  String, ◌==◌, ◌≡◌, ◌⊎◌, ◌∙◌, ap, sym, refl, Option, none, some, [], ◌∷◌, Result, ok, err, Error,
  other, arith, if◌then◌else◌, List, Bool, true, false, inl, inr, Bool-cases, eq_iff,
}
use wonderwall.Base.Int.{ℤ}
use wonderwall.Http.{Bytes}
use wonderwall.Session.Metadata.{Duration}
use wonderwall.Session.Data.{EncryptedData}
use wonderwall.Session.Store.{IsStore}
use wonderwall.Session.Store.Redis.{
  Reply, value, nil, Expiry, after, keep_ttl, Obtained, obtained, not_obtained, Client, BinaryJson,
  redis_store,
}
use wonderwall.Session.Store.Redis.Contract.{
  Entry, HasToken, IsClient, IsBinaryJson, IsOpaque, view,
}
use wonderwall.Session.Store.Redis.Refinement.{redis_store-IsStore}
use wonderwall.Tests.Codecs.{plain_encoding, plain_encoding-IsEncoding}

abbrev pub Server : Type 0
Server = String → Option Entry

abbrev bytes_of : Option Entry → Reply Bytes
bytes_of none = nil
bytes_of (some e) = value e.bytes

abbrev expires_of : Option Entry → Option ℤ
expires_of none = none
expires_of (some e) = e.expires

abbrev expiry : Expiry → Option Entry → Option ℤ
expiry (after d) _ = some d
expiry keep_ttl old = expires_of old

abbrev set : String → Bytes → Expiry → Server → Server
set k b x w j = if k == j then some (record { bytes = b; expires = expiry x (w k) }) else w j

abbrev del : List String → Server → Server
del [] w = w
del (k ∷ ks) w = del ks (λ j. if k == j then none else w j)

-- The token of every lock is no bytes at all, and a value begins with a 1.
abbrev is_token : Bytes → Bool
is_token [] = true
is_token (_ ∷ _) = false

abbrev token_entry : Duration → Option Entry
token_entry d = some (record { bytes = []; expires = some d })

abbrev obtain_if : String → Duration → Server → Option Entry → Obtained String × Server
obtain_if k d w none = (obtained k, λ j. if k == j then token_entry d else w j)
obtain_if k d w (some _) = (not_obtained, w)

abbrev without_token : Option Entry → Option Entry
without_token none = none
without_token (some e) = if is_token e.bytes then none else some e

abbrev release : String → Server → Server
release k w j = if k == j then without_token (w j) else w j

abbrev pub server : Client Server String
server = record {
  get = λ k w. (bytes_of (w k), w);
  set = λ k b x w. (value tt, set k b x w);
  del = λ ks w. (value tt, del ks w);
  obtain = λ k d w. obtain_if k d w (w k);
  release = λ k w. (ok tt, release k w);
}

server_got :
    (o : Option Entry) (b : Bytes)
    → bytes_of o ≡ value b
    → (e : Entry) × (o ≡ some e) × (e.bytes ≡ b)
server_got none b h = cc
server_got (some e) b h = (e, refl, ground arith)

server_got_nil : (o : Option Entry) → bytes_of o ≡ nil → o ≡ none
server_got_nil none h = refl
server_got_nil (some e) h = cc

obtain_if_leaves :
    (k j : String) (d : Duration) (w : Server) (o : Option Entry)
    → w k ≡ o
    → ((obtain_if k d w o).1 j ≡ w j)
      ⊎ (((k == j) ≡ true) × (w j ≡ none) × HasToken is_token ((obtain_if k d w o).1 j))
obtain_if_leaves k j d w (some e) h = inl refl
obtain_if_leaves k j d w none h = elim (Bool-cases (k == j)) [
  | inr n ↦ inl (rw n refl)
  | inl same ↦ inr (
    same,
    ap w (sym ((eq_iff k j).0 same)) ∙ h,
    (record { bytes = []; expires = some d }, rw same refl, refl),
  )
]

obtain_if_got :
    (k : String) (d : Duration) (w : Server) (l : String) (o : Option Entry)
    → (obtain_if k d w o).0 ≡ obtained l
    → (o ≡ none) × HasToken is_token ((obtain_if k d w o).1 k)
obtain_if_got k d w l (some e) h = cc
obtain_if_got k d w l none h =
    (refl, (record { bytes = []; expires = some d }, ground (arith, (eq_iff k k).1 refl), refl))

without_token_leaves :
    (o : Option Entry) → (without_token o ≡ o) ⊎ (HasToken is_token o × (without_token o ≡ none))
without_token_leaves none = inl refl
without_token_leaves (some e) = elim (Bool-cases (is_token e.bytes)) [
  | inl t ↦ inr ((e, refl, t), rw t refl)
  | inr f ↦ inl (rw f refl)
]

release_leaves :
    (l j : String) (w : Server)
    → (release l w j ≡ w j) ⊎ (HasToken is_token (w j) × (release l w j ≡ none))
release_leaves l j w = elim (Bool-cases (l == j)) [
  | inr n ↦ inl (rw n refl)
  | inl same ↦ rw same (without_token_leaves (w j))
]

abbrev pub in_server : Server → String → Option Entry
in_server w = w

abbrev pub expiry_at : Server → Duration → Option ℤ
expiry_at w d = some d

pub server-IsClient : IsClient server in_server expiry_at
server-IsClient = record {
  get_keeps = λ k j w. refl;
  got = λ k w b h. server_got (w k) b h;
  got_nil = λ k w h. server_got_nil (w k) h;
  set_after = λ k j b d w h. refl;
  set_keep = λ k j b e w h q. rw h;
  set_keeps = λ k j b x w h. rw h;
  del_one = λ k j w h. refl;
  del_keeps = λ k j w h. rw h;
  token = is_token;
  obtain_leaves = λ k j d w. obtain_if_leaves k j d w (w k) refl;
  obtain_got = λ k d w l h. obtain_if_got k d w l (w k) h;
  release_leaves = release_leaves;
}

abbrev unmarshal : Bytes → Result EncryptedData
unmarshal [] = err other
unmarshal (_ ∷ b) = ok (record { text = plain_encoding.to_string b })

abbrev pub plain_binary : BinaryJson
plain_binary = record {
  marshal = λ v. ok (1 ∷ plain_encoding.to_bytes v.text);
  unmarshal = unmarshal;
}

pub plain_binary-IsBinaryJson : IsBinaryJson plain_binary
plain_binary-IsBinaryJson = record {
  reads = λ v b h. ground (arith, plain_encoding-IsEncoding.string-bytes v.text);
}

unmarshal_token : (b : Bytes) → is_token b ≡ true → (x : Error) × (unmarshal b ≡ err x)
unmarshal_token [] h = (other, refl)
unmarshal_token (n ∷ b) h = cc

pub plain_binary-IsOpaque : IsOpaque plain_binary server-IsClient.token
unfolding server-IsClient
plain_binary-IsOpaque = record { unread = unmarshal_token }

redis_store-IsStore_example :
    IsStore
      (redis_store server plain_binary)
      (view server plain_binary in_server expiry_at server-IsClient plain_binary-IsBinaryJson)
redis_store-IsStore_example =
    redis_store-IsStore server plain_binary in_server expiry_at server-IsClient
      plain_binary-IsBinaryJson plain_binary-IsOpaque
