-- ===== src/Tests/Laws.antt =====
-- The lemmas on metadata, keys, ciphertexts and cookies at concrete inputs.
use wonderwall.Base.{◌≡◌, refl, false, [], ◌∷◌, ok, err, drop, openid_client, arith}
use wonderwall.Base.Int.{pos}
use wonderwall.Http.{HttpCookie}
use wonderwall.Cookie.{default_options, encrypt_and_set, make, encrypt}
use wonderwall.Crypto.Crypter.{Aes, big_endian, iv}
use wonderwall.Crypto.Crypter
use wonderwall.Crypto.Crypter.RoundTrip.{IsSealed, decrypt-encrypt}
use wonderwall.OpenId.Token.{TokenResponse}
use wonderwall.Session.Metadata.{Metadata, refresh, extend_timeout}
use wonderwall.Session.Metadata.Lifetimes.{
  unchanged, changed, refreshed, extended, SameSession, Changes-SameSession,
}
use wonderwall.Session.Store.Memory.{Memory, new_memory}
use wonderwall.Session.Handler.{attempt, retry_server_errors, can_refresh, Env}
use wonderwall.Tests.Codecs.{plain_encoding}
use wonderwall.Tests.World.{trier, open_crypter, test_provider, test_config, world_at}
use wonderwall.Tests.Sessions.{fresh_data, evaluation}

abbrev hour : Metadata
hour = record {
  session = record { created_at = pos 7; ends_at = pos 9000000000000; timeout_at = pos 0 };
  tokens = record { refreshed_at = pos 7; expire_at = pos 3600000000007 };
}

Changes-SameSession_example :
    SameSession hour (extend_timeout (pos 30) (pos 5) (refresh (pos 20) (pos 60) hour))
Changes-SameSession_example = Changes-SameSession (
    changed (changed unchanged (refreshed (pos 20) (pos 60) (omega arith)))
      (extended (pos 30) (pos 5)))

-- A tag of one byte in front of the plaintext.
abbrev tagged : Aes Unit Unit
tagged = record {
  new_cipher = λ k. ok tt;
  new_gcm = λ b. ok tt;
  seal = λ a n p. 1 ∷ p;
  open_sealed = λ a n c. ok (drop 1 c);
}

tagged-IsSealed : IsSealed tagged
tagged-IsSealed = record { opens = λ a n p. refl; has_tag = λ a n p. ground arith }

sealed_at_3 :
    Crypter.encrypt tagged [] (pos 3) (ok (9 ∷ 8 ∷ 7 ∷ 6 ∷ [])) (5 ∷ [])
    ≡ ok (0 ∷ 0 ∷ 0 ∷ 0 ∷ 0 ∷ 0 ∷ 0 ∷ 3 ∷ 9 ∷ 8 ∷ 7 ∷ 6 ∷ 1 ∷ 5 ∷ [])
unfolding Crypter.encrypt iv big_endian
sealed_at_3 = refl

decrypt-encrypt_example :
    Crypter.decrypt tagged [] (0 ∷ 0 ∷ 0 ∷ 0 ∷ 0 ∷ 0 ∷ 0 ∷ 3 ∷ 9 ∷ 8 ∷ 7 ∷ 6 ∷ 1 ∷ 5 ∷ [])
    ≡ ok (5 ∷ [])
decrypt-encrypt_example =
    decrypt-encrypt tagged tagged-IsSealed [] (pos 3) (9 ∷ 8 ∷ 7 ∷ 6 ∷ []) (5 ∷ [])
      (0 ∷ 0 ∷ 0 ∷ 0 ∷ 0 ∷ 0 ∷ 0 ∷ 3 ∷ 9 ∷ 8 ∷ 7 ∷ 6 ∷ 1 ∷ 5 ∷ []) refl sealed_at_3

abbrev login_cookie : HttpCookie
login_cookie = record (make (λ d. d) (pos 3) "login" "state" default_options) {
  value = plain_encoding.base64 (plain_encoding.to_bytes "state");
}

cookie_set :
    (encrypt_and_set plain_encoding open_crypter
      (λ d. d)
      (λ w. (pos 3, w))
      "login"
      "state"
      default_options
      new_memory).0
    ≡ ok login_cookie
unfolding encrypt_and_set make encrypt
cookie_set = refl

abbrev refused_world : Env Memory Unit
refused_world = record (world_at (pos 14)) { refresh_grant = λ token w. (err openid_client, w) }

refused_run :
    (trier.run TokenResponse
      (attempt retry_server_errors (refused_world.refresh_grant "refresh-1"))
      new_memory).0
    ≡ err openid_client
refused_run = refl

cooling :
    (can_refresh (world_at (pos 6)) trier test_config test_provider fresh_data new_memory).0
    ≡ ok false
unfolding evaluation
cooling = refl
