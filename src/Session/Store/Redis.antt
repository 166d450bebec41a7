-- ===== src/Session/Store/Redis.antt =====
-- The store in Redis and its locks (pkg/session/store_redis.go, lock.go). The clients of Redis
-- (go-redis, redislock) are parameters. metrics.ObserveRedisLatency runs its function and passes
-- the error on.
pub mod Contract
pub mod Refinement
pub mod Careful
pub mod Locks
use Prim.Native.String.{◌++◌ as append}
use wonderwall.Base.{
  String, Bool, true, false, Option, none, some, List, [], ◌∷◌, Result, ok, err, Error,
  key_not_found, unexpected, acquire_lock, if◌then◌else◌,
}
use wonderwall.Base.Action.{Action, ◌>>=◌, ◌>>◌, lift}
use wonderwall.Http.{Bytes}
use wonderwall.Session.Metadata.{Duration}
use wonderwall.Session.Data.{EncryptedData}
use wonderwall.Session.Store.{Store}

-- A reply of Redis: `nil` is the error redis.Nil.
pub data Reply (A : Type 0) : Type 0 where
  value : A → Reply A
  nil : Reply A
  fault : Reply A

pub data Expiry : Type 0 where
  after : Duration → Expiry
  keep_ttl : Expiry

pub data Obtained (L : Type 0) : Type 0 where
  obtained : L → Obtained L
  not_obtained : Obtained L
  fault : Error → Obtained L

pub record Client (W L : Type 0) : Type 0 where
  pub get : String → W → Reply Bytes × W
  pub set : String → Bytes → Expiry → W → Reply (Unit {0}) × W
  pub del : List String → W → Reply (Unit {0}) × W
  pub obtain : String → Duration → W → Obtained L × W
  pub release : L → W → Result (Unit {0}) × W

-- json.Marshal and json.Unmarshal at `EncryptedData`, behind MarshalBinary and UnmarshalBinary.
pub record BinaryJson : Type 0 where
  pub marshal : EncryptedData → Result Bytes
  pub unmarshal : Bytes → Result EncryptedData

-- `fmt.Sprintf("%s.lock", key)`
unfoldable pub lock_key : String → String
lock_key key = append key ".lock"

-- The error that a reply other than a value turns into.
abbrev as_result : {A : Type 0} → Reply A → Result A
as_result (value a) = ok a
as_result nil = err key_not_found
as_result fault = err unexpected

-- `Write` and `Update` do not ask for redis.Nil.
abbrev as_written : Reply (Unit {0}) → Result (Unit {0})
as_written (value a) = ok a
as_written nil = err unexpected
as_written fault = err unexpected

-- `Scan` into the encrypted data: an error of the JSON decoder is unexpected.
abbrev scan : Result EncryptedData → Result EncryptedData
scan (ok v) = ok v
scan (err _) = err unexpected

module _ {W L : Type 0} (client : Client W L) (json : BinaryJson) where
  abbrev read_reply : Reply Bytes → Result EncryptedData
  read_reply (value b) = scan (json.unmarshal b)
  read_reply nil = err key_not_found
  read_reply fault = err unexpected

  unfoldable pub read : String → Action W EncryptedData
  read key w = let (reply, w') = client.get key w in (read_reply reply, w')

  -- `Set` marshals the value first.
  unfoldable pub set_value : String → Expiry → Result Bytes → Action W (Unit {0})
  set_value key expiry (err _) w = (err unexpected, w)
  set_value key expiry (ok b) w =
      let (reply, w') = client.set key b expiry w in (as_written reply, w')

  unfoldable pub write : String → EncryptedData → Duration → Action W (Unit {0})
  unfolding set_value
  write key v expiration = set_value key (after expiration) (json.marshal v)

  unfoldable pub delete : List String → Action W (Unit {0})
  delete keys w = let (reply, w') = client.del keys w in (as_result reply, w')

  unfoldable pub update : String → EncryptedData → Action W (Unit {0})
  unfolding read set_value
  update key v = do read key; set_value key keep_ttl (json.marshal v)

  unfoldable pub acquired : Obtained L → Result L
  acquired (obtained l) = ok l
  acquired not_obtained = err acquire_lock
  acquired (fault e) = err e

  -- The lock that Redis grants is kept in `RedisLock.lock`; it is the value held here.
  unfoldable pub acquire : String → Duration → Action W L
  unfolding acquired lock_key
  acquire key duration w = let (o, w') = client.obtain (lock_key key) duration w in (acquired o, w')

  unfoldable pub release : L → Action W (Unit {0})
  release l = client.release l

  abbrev pub redis_store : Store W L
  redis_store = record {
    write = write;
    read = read;
    delete = delete;
    update = update;
    acquire = acquire;
    release = release;
  }
