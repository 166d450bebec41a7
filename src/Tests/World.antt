-- ===== src/Tests/World.antt =====
-- A world in which the handlers run: the store in memory, a clock that stands still, encryption that
-- changes nothing, and a retrier that tries three times.
use wonderwall.Base.{
  Bool, ℕ, zero, suc, String, ◌≡◌, refl, ap, sym, some, true, false, [], ◌∷◌, Result, ok, err,
  Error,
}
use wonderwall.Base.Action.{Action}
use wonderwall.Base.Int.{pos}
use wonderwall.Base.Retry.{
  Attempt, done, refused, retryable, Runs, succeeded, failed, gave_up, again, Retrier,
}
use wonderwall.Cookie.{Crypter}
use wonderwall.Cookie.RoundTrip.{IsCrypter}
use wonderwall.OpenId.Token.{Tokens, IdToken, TokenResponse, text}
use wonderwall.Session.Metadata.{Time}
use wonderwall.Session.Store.Memory.{Memory, memory_store}
use wonderwall.Session.Id.{Provider}
use wonderwall.Session.Handler.{SessionConfig, Env, timed_out, tick}
use wonderwall.Session.Handler.Storage.{IsQuiet}
use wonderwall.Tests.Codecs.{plain_encoding, plain_json}

-- Attempts, until none is left.
abbrev pub decide_next : {W A : Type 0} → (W → Result A × W) → Bool → Attempt A × W → Result A × W
decide_next next last (done a, v) = (ok a, v)
decide_next next last (refused e, v) = (err e, v)
decide_next next true (retryable e, v) = (err e, v)
decide_next next false (retryable e, v) = next v

abbrev pub tries : {W : Type 0} (n : ℕ) (A : Type 0) → (W → Attempt A × W) → Action W A
tries zero A f w = decide_next (λ v. (err Error.other, v)) true (f w)
tries (suc n) A f w = decide_next (tries n A f) false (f w)

abbrev Idle : {W : Type 0} → W → W → Type 0
Idle u v = u ≡ v

module _ {W : Type 0} (A : Type 0) (f : W → Attempt A × W) where
  last_run :
      (w : W) (p : Attempt A × W)
      → f w ≡ p
      → Runs Idle f w
          (decide_next (λ v. (err Error.other, v)) true p).0
          (decide_next (λ v. (err Error.other, v)) true p).1
  last_run w (done a, v) e = succeeded a e
  last_run w (refused x, v) e = failed x e
  last_run w (retryable x, v) e = gave_up x e

  more_run :
      (next : W → Result A × W)
      → ((u : W) → Runs Idle f u (next u).0 (next u).1)
      → (w : W) (p : Attempt A × W) → f w ≡ p
      → Runs Idle f w (decide_next next false p).0 (decide_next next false p).1
  more_run next run w (done a, v) e = succeeded a e
  more_run next run w (refused x, v) e = failed x e
  more_run next run w (retryable x, v) e = again x e refl (run v)

pub tries_run :
    {W : Type 0} (n : ℕ) (A : Type 0) (f : W → Attempt A × W) (w : W)
    → Runs Idle f w (tries n A f w).0 (tries n A f w).1
tries_run zero A f w = last_run A f w (f w) refl
tries_run (suc n) A f w = more_run A f (tries n A f) (λ u. tries_run n A f u) w (f w) refl

abbrev pub trier : {W : Type 0} → Retrier W
trier = record { Elapse = λ w v. w ≡ v; run = tries 2; runs = tries_run 2 }

abbrev pub open_crypter : Crypter Memory
open_crypter = record { encrypt = λ p w. (ok p, w); decrypt = λ c. ok c }

pub open_crypter-IsCrypter : IsCrypter open_crypter
open_crypter-IsCrypter = record { opens = λ w p c e. ap (λ r. r) (sym e) }

pub trier-IsQuiet : (k : String) → IsQuiet (trier {W = Memory}) (λ m. m.sessions) k
trier-IsQuiet k w v e = ap (λ m. m.sessions k) (sym e)

abbrev pub test_provider : Provider
test_provider = record {
  name = "openid";
  client_id = "app";
  session_state_required = false;
  sid_claim_required = true;
}

abbrev pub test_config : SessionConfig
test_config = record {
  inactivity = true;
  inactivity_timeout = pos 40;
  max_lifetime = pos 100;
  refresh = true;
}

abbrev pub test_response : TokenResponse
test_response = record {
  access_token = "access-2";
  expires_in = pos 0;
  refresh_token = "refresh-2";
  token_type = "Bearer";
}

-- The clock stands at the instant given.
abbrev pub world_at : Time → Env Memory Unit
world_at t = record {
  now = λ w. (t, w);
  random = λ n w. (ok (n ∷ []), w);
  raw_url = λ b. "generated";
  store = memory_store;
  crypter = open_crypter;
  encoding = plain_encoding;
  json = plain_json;
  refresh_grant = λ token w. (ok test_response, w);
  schedule = λ w. (tick timed_out, w);
}

abbrev pub test_id_token : IdToken
test_id_token = record {
  serialized = "jwt";
  token = some (("sid", text "s1") ∷ ("jti", text "j1") ∷ []);
}

abbrev pub test_tokens : Tokens
test_tokens = record {
  access_token = "access-1";
  expiry = pos 20;
  id_token = test_id_token;
  refresh_token = "refresh-1";
  token_type = "Bearer";
}
