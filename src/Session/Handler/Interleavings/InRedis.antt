-- ===== src/Session/Handler/Interleavings/InRedis.antt =====
-- Refreshes of a session that is kept in Redis, with its lock (pkg/session/handler.go: Refresh, lock.go).
use wonderwall.Base.{ℕ, String, ◌≡◌, ◌∙◌, ap, sym, true, Option, Bool}
use wonderwall.Base.Int.{ℤ}
use wonderwall.Base.Retry.{Retrier}
use wonderwall.Http.{Bytes}
use wonderwall.Session.Metadata.{Duration}
use wonderwall.Session.Data.{Data}
use wonderwall.Session.Id.{Provider}
use wonderwall.Session.Store.Redis.{Client, BinaryJson, lock_key, redis_store}
use wonderwall.Session.Store.Redis.Contract.{
  Entry, IsClient, IsBinaryJson, IsOpaque, decoded, view, read_stored,
}
use wonderwall.Session.Store.Redis.Refinement.{redis_store-IsStore}
use wonderwall.Session.Store.Redis.Locks.{
  acquire_obtained, acquire_held, is_stored, lock_key_other, update_elsewhere,
}
use wonderwall.Session.Handler.{SessionConfig, Env, refresh_lock_duration}
use wonderwall.Session.Handler.Interleavings.{outside, ready, has_lock, System, Reach}
use wonderwall.Session.Handler.Interleavings.Locks.{IsExclusive}
use wonderwall.Session.Handler.Interleavings.Safety.{Stored, Allowed}
use wonderwall.Session.Handler.Interleavings.Exclusion.{Reach-alone}

module _ {W L : Type 0} (base : Env W L) (c : Client W L) (json : BinaryJson) where
  abbrev pub with_redis : Env W L
  with_redis = record base { store = redis_store c json }

-- What a request does besides its calls of the store leaves its lock, which does not expire meanwhile; reading
-- the clock leaves its entry.
pub record IsLasting {W L : Type 0} (base : Env W L) (retrier : Retrier W)
    (stored : W → String → Option Entry) (k : String) : Type 0 where
  pub now :
      (w : W)
      → is_stored (stored w (lock_key k)) ≡ true
      → is_stored (stored (base.now w).1 (lock_key k)) ≡ true
  pub encrypt :
      (b : Bytes) (w : W)
      → is_stored (stored w (lock_key k)) ≡ true
      → is_stored (stored (base.crypter.encrypt b w).1 (lock_key k)) ≡ true
  pub refresh_grant :
      (t : String) (w : W)
      → is_stored (stored w (lock_key k)) ≡ true
      → is_stored (stored (base.refresh_grant t w).1 (lock_key k)) ≡ true
  pub waits :
      (w v : W)
      → retrier.Elapse w v
      → is_stored (stored w (lock_key k)) ≡ true
      → is_stored (stored v (lock_key k)) ≡ true
  pub now_keeps : (w : W) → stored (base.now w).1 k ≡ stored w k

module _ {W L : Type 0} (base : Env W L) (retrier : Retrier W) (cfg : SessionConfig)
    (provider : Provider) (k : String) (c : Client W L) (json : BinaryJson)
    (stored : W → String → Option Entry) (expiry_of : W → Duration → Option ℤ)
    (laws : IsClient c stored expiry_of) (codec : IsBinaryJson json)
    (opaque : IsOpaque json laws.token) (lasting : IsLasting base retrier stored k) where
  abbrev held : W → Bool
  held w = is_stored (stored w (lock_key k))

  redis_lock-IsExclusive : IsExclusive (with_redis base c json) retrier k held
  redis_lock-IsExclusive = record {
    obtained =
        λ w v h e. acquire_obtained c json stored expiry_of laws k refresh_lock_duration w v h e;
    refused = λ w v x e h.
        ap (λ y. held y.1) (sym e)
        ∙ acquire_held c json stored expiry_of laws k refresh_lock_duration w h;
    read =
        λ w h. ap is_stored (read_stored c json stored expiry_of laws codec k (lock_key k) w) ∙ h;
    update = λ e w h.
        ap is_stored (
          update_elsewhere c json stored expiry_of laws codec k (lock_key k) e w (lock_key_other k))
        ∙ h;
    now = lasting.now;
    encrypt = lasting.encrypt;
    refresh_grant = lasting.refresh_grant;
    waits = lasting.waits;
  }

  -- With sessions and locks in Redis, any number of requests refresh a session at once, step by step and in any
  -- order, with requests between them that only delete the entry and do not free the lock: when a request is
  -- about to ask for a grant, no other has the lock, and the entry decrypts to the data whose refresh token it
  -- sends, unless it has been deleted. While it is held, the lock does not
  -- expire, nor does the entry when the clock is read.
  pub redis_store-Reach :
      (Others : W → W → Type 0)
      → Allowed (with_redis base c json) k (view c json stored expiry_of laws codec) held Others
      → (s t : System W L) → ((i : ℕ) → s.phases i ≡ outside)
      → Reach (with_redis base c json) retrier cfg provider k Others s t
      → (i j : ℕ) (h : L) (d : Data) → t.phases i ≡ ready h d
      → has_lock (t.phases j) ≡ true
      → (i ≡ j)
        × Stored (with_redis base c json) k (view c json stored expiry_of laws codec) held d t.world
  redis_store-Reach Others allowed s t out reached i j h d at has =
      Reach-alone (with_redis base c json) retrier cfg provider k
        (view c json stored expiry_of laws codec)
        (redis_store-IsStore c json stored expiry_of laws codec opaque) held redis_lock-IsExclusive
        (λ w. ap (decoded json) (lasting.now_keeps w)) Others allowed s t out reached i j h d at has
