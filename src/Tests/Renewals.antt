-- ===== src/Tests/Renewals.antt =====
-- Refreshes of a session at concrete inputs.
use wonderwall.Base.{String, ◌≡◌, ◌⊎◌, refl, some, true, false, ok}
use wonderwall.Base.Int.{pos}
use wonderwall.OpenId.Token.{TokenResponse}
use wonderwall.Session.Data
use wonderwall.Session.Data.{Data, EncryptedData, new_data, has_refresh_token, has_access_token}
use wonderwall.Session.Store.Memory.{Memory, memory_store-IsStore}
use wonderwall.Session.Handler.{get_for_key, get_key, can_refresh, is_timed_out_now}
use wonderwall.Session.Handler.Refresh.{grant, get_or_refresh, refresh, refresh_locked}
use wonderwall.Session.Handler.Refresh.AccessToken.{get_or_refresh_origin}
use wonderwall.Session.Handler.Refresh.Renewal.{IsRenewal, refresh_locked_stored}
use wonderwall.Tests.Codecs.{
  plain_encoding, plain_encoding-IsEncoding, plain_json, plain_json-IsJson,
}
use wonderwall.Tests.World.{
  trier, open_crypter, open_crypter-IsCrypter, test_provider, test_config, world_at,
}
use wonderwall.Tests.Sessions.{evaluation, created, fresh_data, cookies}

abbrev renewed_data : Data
renewed_data = record fresh_data {
  access_token = "access-2";
  refresh_token = "refresh-2";
  metadata = record {
    session = record { created_at = pos 5; ends_at = pos 105; timeout_at = pos 54 };
    tokens = record { expire_at = pos 14; refreshed_at = pos 14 };
  };
}

got_renewed :
    (get_or_refresh (world_at (pos 14)) trier test_config test_provider cookies created.1).0
    ≡ ok renewed_data
unfolding evaluation
got_renewed = refl

get_or_refresh_origin_example :
    (k : String) × (d₀ : Data) × (get_key
        (world_at (pos 14))
        trier
        test_config
        test_provider
        cookies
      ≡ ok k)
    × ((get_for_key (world_at (pos 14)) trier test_config test_provider k created.1).0 ≡ ok d₀)
    × ((is_timed_out_now
          (world_at (pos 14))
          trier
          test_config
          test_provider
          d₀
          (get_for_key (world_at (pos 14)) trier test_config test_provider k created.1).1).0
        ≡ ok false)
    × ((renewed_data ≡ d₀)
        ⊎ ((u : Memory) × ((refresh (world_at (pos 14)) trier test_config test_provider k d₀ u).0
              ≡ ok renewed_data)))
get_or_refresh_origin_example =
    get_or_refresh_origin (world_at (pos 14)) trier test_config test_provider cookies created.1
      renewed_data got_renewed

refreshed_under_lock :
    (refresh_locked (world_at (pos 14)) trier test_config test_provider "openid:app:s1" created.1).0
    ≡ ok renewed_data
unfolding evaluation
refreshed_under_lock = refl

refresh_locked_stored_example :
    let got =
      get_for_key (world_at (pos 14)) trier test_config test_provider "openid:app:s1" created.1 in
    (old : Data) × (got.0 ≡ ok old)
    × (let can = can_refresh (world_at (pos 14)) trier test_config test_provider old got.1 in
        ((can.0 ≡ ok false) × (renewed_data ≡ old))
        ⊎ ((can.0 ≡ ok true)
            × ((is_timed_out_now (world_at (pos 14)) trier test_config test_provider old can.1).0
                ≡ ok false)
            × ((resp : TokenResponse) × (e : EncryptedData) × ((grant
                    (world_at (pos 14))
                    trier
                    test_config
                    test_provider
                    old.refresh_token
                    (is_timed_out_now
                      (world_at (pos 14))
                      trier
                      test_config
                      test_provider
                      old
                      can.1).1).0
                  ≡ ok resp)
                × IsRenewal old renewed_data resp
                × (Data.decrypt plain_encoding plain_json open_crypter e ≡ ok renewed_data)
                × ((refresh_locked
                        (world_at (pos 14))
                        trier
                        test_config
                        test_provider
                        "openid:app:s1"
                        created.1).1.sessions
                      "openid:app:s1"
                    ≡ some e))))
refresh_locked_stored_example =
    refresh_locked_stored (world_at (pos 14)) trier test_config test_provider (λ m. m.sessions)
      memory_store-IsStore plain_encoding-IsEncoding plain_json-IsJson open_crypter-IsCrypter
      "openid:app:s1" created.1 renewed_data refreshed_under_lock
