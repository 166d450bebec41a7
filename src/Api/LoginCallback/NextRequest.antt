-- ===== src/Api/LoginCallback/NextRequest.antt =====
-- What the browser can do with the cookie that the login callback gave it
-- (pkg/handler/api/logincallback/logincallback.go).
use wonderwall.Base.{◌≡◌, true, some, ◌∷◌, ok, arith}
use wonderwall.Http.{Request, Pairs, IsEncoding}
use wonderwall.Cookie
use wonderwall.Cookie.RoundTrip.{IsCrypter, get_decrypted-encrypt_and_set}
use wonderwall.Session.Data
use wonderwall.Session.Data.{EncryptedData, new_data}
use wonderwall.Session.Data.RoundTrip.{IsJson}
use wonderwall.Session.Store.{Entries, IsStore}
use wonderwall.Session.Handler.{create, get_key}
use wonderwall.Session.Handler.Lifecycle.{IsFresh, IsSessionOf, new_data-IsSessionOf, create_stored}
use wonderwall.Api.Answers.{begin, sets}
use wonderwall.Api.{StandardHandler}
use wonderwall.Api.LoginCallback.{login_callback, session_options}
use wonderwall.Api.LoginCallback.Checks.{IsLoggedIn, login_callback-IsLoggedIn}

module _ {W Held Jwks : Type 0} (src : StandardHandler W Held Jwks) (entries : W → Entries)
    (laws : IsStore src.env.store entries) (encoding : IsEncoding src.env.encoding)
    (json : IsJson src.env.json) (crypter : IsCrypter src.env.crypter) where
  -- If the callback sets a session cookie, then the checks of a login were passed, a request that returns
  -- the cookie is read as the key of the session, and when that had been created, the store's entry of the
  -- key was the data of the validated tokens, with fresh metadata of the configured lifetime.
  pub login_callback_session :
      (r : Request) (w : W) (rest : Pairs)
      → sets Cookie.session (login_callback src r (begin w)).1.cookies ≡ true
      → (l : IsLoggedIn src r (login_callback src r (begin w)).1.cookies) × (get_key src.env
            src.retrier src.session_config src.session_provider
            ((l.session_cookie.name, l.session_cookie.value) ∷ rest)
          ≡ ok l.key)
        × (d : Data.Data) × (e : EncryptedData) × IsFresh src.session_config
            src.session_config.max_lifetime d.metadata
        × IsSessionOf l.tokens d
        × (Data.decrypt src.env.encoding src.env.json src.env.crypter e ≡ ok d)
        × (entries
              (create src.env src.retrier src.session_config src.session_provider r.query l.tokens
                src.session_config.max_lifetime l.before).1
              l.key
            ≡ some e)
  unfolding get_key
  login_callback_session r w rest h =
      let l = login_callback-IsLoggedIn src r w h in
      let (named, _, _, read_back) =
        get_decrypted-encrypt_and_set src.env.encoding encoding src.env.crypter crypter
          src.whole_seconds src.env.now Cookie.session l.key (session_options src r) _
          l.session_cookie rest l.encrypted in
      let (id, m, e, _, _, fresh, opened, there) =
        create_stored src.env src.retrier src.session_config src.session_provider entries laws
          encoding json crypter r.query l.tokens src.session_config.max_lifetime l.before l.key
          l.created in
      (
        l,
        ground (arith, read_back),
        new_data id l.tokens m,
        e,
        unfold new_data in fresh,
        new_data-IsSessionOf id l.tokens m,
        opened,
        there,
      )
