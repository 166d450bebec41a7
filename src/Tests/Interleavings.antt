-- ===== src/Tests/Interleavings.antt =====
-- Requests that refresh one session at once, with sessions and locks in Redis.
use wonderwall.Base.{
  Bool, ◌∙◌, zero, suc, key_not_found, ℕ, String, Option, none, true, ◌≡◌, refl, ap, subst, [], ◌∷◌,
  ok, err, acquire_lock, inr,
}
use wonderwall.Base.Int.{ℤ, pos}
use wonderwall.Http.{Encoding}
use wonderwall.Session.Store.Redis.{
  redis_store, delete, read, write, update, acquire, release, set_value, lock_key, acquired,
}
use wonderwall.Session.Store.Redis.Contract.{view}
use wonderwall.Session.Store.Redis.Locks.{is_stored}
use wonderwall.Session.Handler.{refresh_lock_duration, Env, timed_out, tick, create}
use wonderwall.Session.Handler.Refresh.{with_lock}
use wonderwall.Session.Handler.Interleavings.{
  outside, holding, found, ready, System, moves, acquires, is_refused, finds, may, Reach, begun,
  next,
}
use wonderwall.Session.Handler.Interleavings.Safety.{Stored, Allowed}
use wonderwall.Session.Handler.Interleavings.InRedis.{with_redis, IsLasting, redis_store-Reach}
use wonderwall.Session.Handler.Interleavings.Simulation.{with_lock-Reach}
use wonderwall.Tests.Codecs.{plain_encoding, plain_json}
use wonderwall.Tests.World.{trier, test_provider, test_config, test_response, test_tokens}
use wonderwall.Tests.Sessions.{evaluation, fresh_data}
use wonderwall.Session.Data.{EncryptedData}
use wonderwall.Tests.RedisServer.{
  Server, server, in_server, expiry_at, plain_binary, server-IsClient, plain_binary-IsBinaryJson,
  plain_binary-IsOpaque,
}

-- Bytes as the text of which they are the characters.
abbrev short_encoding : Encoding
short_encoding = record plain_encoding {
  base64 = plain_encoding.to_string;
  from_base64 = λ s. ok (plain_encoding.to_bytes s);
}

abbrev base_at : ℤ → Env Server String
base_at t = record {
  now = λ w. (t, w);
  random = λ n w. (ok (n ∷ []), w);
  raw_url = λ b. "generated";
  store = redis_store server plain_binary;
  crypter = record { encrypt = λ p w. (ok p, w); decrypt = λ c. ok c };
  encoding = short_encoding;
  json = plain_json;
  refresh_grant = λ token w. (ok test_response, w);
  schedule = λ w. (tick timed_out, w);
}

abbrev in_redis : ℤ → Env Server String
in_redis t = with_redis (base_at t) server plain_binary

base-IsLasting : IsLasting (base_at (pos 14)) trier in_server "openid:app:s1"
unfolding lock_key
base-IsLasting = record {
  now = λ w h. h;
  encrypt = λ b w h. h;
  refresh_grant = λ t w h. h;
  waits = λ w v e h. subst (λ u. is_stored (u "openid:app:s1.lock") ≡ true) e h;
  now_keeps = λ w. refl;
}

-- Other requests may log the session out.
abbrev Logout : Server → Server → Type 0
Logout v w = w ≡ (delete server plain_binary ("openid:app:s1" ∷ []) v).1

-- A session that has been created.
abbrev unlocked : Server
unlocked =
    (create (in_redis (pos 5)) trier test_config test_provider [] test_tokens (pos 100)
      (λ k. none)).1

abbrev lock : String
lock = "openid:app:s1.lock"

abbrev first : ℕ
first = 0

abbrev at_work : Server
at_work = ((in_redis (pos 14)).store.acquire "openid:app:s1" refresh_lock_duration unlocked).1

abbrev at_first : System Server String
at_first = record { world = unlocked; phases = λ i. outside }

abbrev about_to_ask : System Server String
about_to_ask =
    moves (moves (moves at_first 0 at_work (holding lock)) 0 at_work (found lock fresh_data)) 0
      at_work (ready lock fresh_data)

-- The request 0 gets the lock, the request 1 does not, and the request 0 goes on.
reached :
    Reach
      (in_redis (pos 14))
      trier
      test_config
      test_provider
      "openid:app:s1"
      Logout
      at_first
      about_to_ask
unfolding evaluation read write update acquire release set_value acquired lock_key
reached =
    next
      (next
        (next (next begun (acquires 0 lock at_work refl refl refl))
          (is_refused 1 acquire_lock at_work refl refl refl))
        (finds 0 lock fresh_data at_work refl refl refl))
      (may 0 lock fresh_data at_work at_work refl refl refl refl)

abbrev entries : Server → String → Option EncryptedData
entries = view server plain_binary in_server expiry_at server-IsClient plain_binary-IsBinaryJson

abbrev held : Server → Bool
held w = is_stored (w (lock_key "openid:app:s1"))

logouts : Allowed (in_redis (pos 14)) "openid:app:s1" entries held Logout
unfolding delete lock_key
logouts v w e = (λ h. ap held e ∙ h, inr (ap (λ u. entries u "openid:app:s1") e))

redis_store-Reach_example :
    (first ≡ 0) × Stored (in_redis (pos 14)) "openid:app:s1" entries held fresh_data at_work
redis_store-Reach_example =
    redis_store-Reach (base_at (pos 14)) trier test_config test_provider "openid:app:s1" server
      plain_binary in_server expiry_at server-IsClient plain_binary-IsBinaryJson
      plain_binary-IsOpaque base-IsLasting Logout logouts at_first about_to_ask (λ i. refl) reached
      0 0 lock fresh_data refl refl

with_lock-Reach_example :
    Reach
      (in_redis (pos 14))
      trier
      test_config
      test_provider
      "openid:app:s1"
      (λ v w. v ≡ w)
      at_first
      (moves at_first 2
        (with_lock (in_redis (pos 14)) trier test_config test_provider "openid:app:s1" unlocked).1
        outside)
with_lock-Reach_example =
    with_lock-Reach (in_redis (pos 14)) trier test_config test_provider "openid:app:s1"
      (λ v w. v ≡ w) at_first 2 refl refl

-- A lock that others hold for as many attempts as the world says.
abbrev counting : Env ℕ Unit
counting = record {
  now = λ n. (pos 14, n);
  random = λ m n. (ok (m ∷ []), n);
  raw_url = λ b. "generated";
  store = record {
    write = λ k v d n. (ok tt, n);
    read = λ k n. (err key_not_found, n);
    delete = λ ks n. (ok tt, n);
    update = λ k v n. (ok tt, n);
    acquire = λ k d n. elim n [ zero ↦ (ok tt, zero) | suc m ↦ (err acquire_lock, m) ];
    release = λ h n. (ok tt, n);
  };
  crypter = record { encrypt = λ p n. (ok p, n); decrypt = λ c. ok c };
  encoding = plain_encoding;
  json = plain_json;
  refresh_grant = λ token n. (ok test_response, n);
  schedule = λ n. (tick timed_out, n);
}
