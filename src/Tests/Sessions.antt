-- ===== src/Tests/Sessions.antt =====
-- The session handler at concrete inputs.
use wonderwall.Base.{
  String, ◌==◌, ◌≡◌, ◌≢◌, refl, false, [], ◌∷◌, ok, err, Result, session_inactive,
}
use wonderwall.Base.Int.{ℤ, pos, ◌+ℤ◌, ◌-ℤ◌, quot_ℤ, scale, wrap64}
use wonderwall.Cookie
use wonderwall.Cookie.{get_decrypted, decrypt}
use wonderwall.Http.{Pairs, find_cookie}
use wonderwall.OpenId.Token.{get_string_claim, get_jwt_id}
use wonderwall.Session.Metadata
use wonderwall.Session.Metadata.{
  Metadata, is_expired, new_metadata, with_timeout, extend_timeout, is_timed_out, should_refresh,
  sub, is_refresh_on_cooldown, refresh_cooldown, token_lifetime, next_refresh,
}
use wonderwall.Session.Data
use wonderwall.Session.Data.{Data, EncryptedData, new_data, has_refresh_token, has_access_token}
use wonderwall.Session.Store.Memory.{
  Memory, new_memory, memory_store-IsStore, read, write, delete, update, acquire, release,
}
use wonderwall.Session.Id.{key, new_session_id}
use wonderwall.Session.Handler.{
  Env, create, get_for_key, get_for_id, destroy_for_id, get_key, can_refresh, is_timed_out_now,
  should_refresh_now, acquire_loop, Schedule, timed_out, tick,
}
use wonderwall.Session.Handler
use wonderwall.Session.Handler.Lifecycle.{
  IsFresh, IsSessionOf, create-get_for_key, destroy_for_id-get_for_id,
}
use wonderwall.Session.Handler.Refresh.{
  get_access_token, get_or_refresh, refresh, refresh_locked, refreshed_if_due, perform,
}
use wonderwall.Session.Handler.Refresh.AccessToken.{get_access_token_valid}
use wonderwall.Tests.Codecs.{
  plain_encoding, plain_encoding-IsEncoding, plain_json-IsJson, get_text, put_text,
}
use wonderwall.Tests.World.{
  trier, trier-IsQuiet, open_crypter-IsCrypter, test_provider, test_config, world_at, test_tokens,
}

unfoldable pub evaluation : Unit {0}
unfolding create get_for_key get_for_id destroy_for_id key get_key can_refresh is_timed_out_now
    should_refresh_now refresh_locked get_access_token get_or_refresh refreshed_if_due refresh
    new_session_id get_string_claim get_jwt_id read write delete update acquire release find_cookie
    get_decrypted decrypt Data.encrypt Data.decrypt new_data has_refresh_token has_access_token
    new_metadata with_timeout extend_timeout is_timed_out is_expired should_refresh sub
    is_refresh_on_cooldown refresh_cooldown token_lifetime next_refresh Metadata.refresh get_text
    put_text acquire_loop ◌+ℤ◌ ◌-ℤ◌ quot_ℤ scale wrap64 Handler.update perform
evaluation = tt

abbrev pub created : Result String × Memory
created =
    create (world_at (pos 5)) trier test_config test_provider [] test_tokens (pos 100) new_memory

create_key : created.0 ≡ ok "openid:app:s1"
unfolding evaluation
create_key = refl

abbrev pub fresh_data : Data
fresh_data = record {
  external_session_id = "s1";
  access_token = "access-1";
  id_token = "jwt";
  refresh_token = "refresh-1";
  id_token_jwt_id = "j1";
  metadata = record {
    session = record { created_at = pos 5; ends_at = pos 105; timeout_at = pos 45 };
    tokens = record { expire_at = pos 20; refreshed_at = pos 5 };
  };
}

get_created :
    (get_for_key (world_at (pos 5)) trier test_config test_provider "openid:app:s1" created.1).0
    ≡ ok fresh_data
unfolding evaluation
get_created = refl

create-get_for_key_example :
    (id : String) × (m : Metadata) × ("openid:app:s1" ≡ key test_provider id)
    × IsFresh test_config (pos 100) m
    × ("s1" ≡ id)
    × (fresh_data.metadata ≡ m)
    × IsSessionOf test_tokens fresh_data
create-get_for_key_example =
    create-get_for_key (world_at (pos 5)) trier test_config test_provider (λ m. m.sessions)
      memory_store-IsStore plain_encoding-IsEncoding plain_json-IsJson open_crypter-IsCrypter []
      test_tokens (pos 100) new_memory "openid:app:s1" fresh_data (trier-IsQuiet "openid:app:s1")
      create_key get_created

destroy_created :
    (destroy_for_id (world_at (pos 6)) trier test_config test_provider "s1" created.1).0 ≡ ok tt
unfolding evaluation
destroy_created = refl

destroy_for_id-get_for_id_example :
    (get_for_id
      (world_at (pos 6))
      trier
      test_config
      test_provider
      "s1"
      (destroy_for_id (world_at (pos 6)) trier test_config test_provider "s1" created.1).1).0
    ≢ ok fresh_data
destroy_for_id-get_for_id_example =
    destroy_for_id-get_for_id (world_at (pos 6)) trier test_config test_provider (λ m. m.sessions)
      memory_store-IsStore plain_encoding-IsEncoding plain_json-IsJson open_crypter-IsCrypter "s1"
      created.1 fresh_data (trier-IsQuiet (key test_provider "s1")) destroy_created

abbrev pub cookies : Pairs
cookies = (Cookie.session, plain_encoding.base64 (plain_encoding.to_bytes "openid:app:s1")) ∷ []

abbrev token_at : ℤ → Result String
token_at t = (get_access_token (world_at t) trier test_config test_provider cookies created.1).0

token_before_refresh : token_at (pos 11) ≡ ok "access-1"
unfolding evaluation
token_before_refresh = refl

token_after_refresh : token_at (pos 14) ≡ ok "access-2"
unfolding evaluation
token_after_refresh = refl

token_inactive : token_at (pos 46) ≡ err session_inactive
unfolding evaluation
token_inactive = refl

get_access_token_valid_example :
    (d : Data) × ((get_or_refresh
        (world_at (pos 14))
        trier
        test_config
        test_provider
        cookies
        created.1).0
      ≡ ok d)
    × ("access-2" ≡ d.access_token)
    × (("access-2" == "") ≡ false)
    × (is_expired (pos 14) d.metadata ≡ false)
get_access_token_valid_example =
    get_access_token_valid (world_at (pos 14)) trier test_config test_provider cookies created.1
      "access-2" token_after_refresh
