-- ===== src/Cookie.antt =====
-- pkg/cookie: options, construction, encryption and removal of cookies. A cookie that is set is
-- added to the response's list of cookies. The crypter is the interface of pkg/crypto; encrypting
-- reads the clock and random bytes, so it is an action.
pub mod RoundTrip
use wonderwall.Base.{
  String, ◌==◌, Bool, true, false, List, [], ◌∷◌, ◌++◌, if◌then◌else◌, Result, ok, err, other,
}
use wonderwall.Base.Results.{◌>>=◌ as bind}
use wonderwall.Base.Int.{ℤ, pos, negsuc, ◌+ℤ◌}
use wonderwall.Base.Action.{Action, pure, lift, ◌>>=◌}
use wonderwall.Http.{Bytes, Pairs, HttpCookie, SameSite, lax_mode, find_cookie, Encoding}
use wonderwall.Session.Metadata.{Time, Duration, zero_time}

abbrev pub session : String
session = "io.nais.wonderwall.session"

abbrev pub login : String
login = "io.nais.wonderwall.callback"

abbrev pub login_legacy : String
login_legacy = "io.nais.wonderwall.callback.legacy"

abbrev pub retry : String
retry = "io.nais.wonderwall.retry"

-- crypto.Crypter
pub record Crypter (W : Type 0) : Type 0 where
  pub encrypt : Bytes → Action W Bytes
  pub decrypt : Bytes → Result Bytes

pub record Options : Type 0 where
  pub expires_in : Duration
  pub domain : String
  pub path : String
  pub same_site : SameSite
  pub secure : Bool

abbrev pub default_options : Options
default_options = record {
  expires_in = pos 0;
  domain = "";
  path = "";
  same_site = lax_mode;
  secure = true;
}

abbrev pub with_domain : String → Options → Options
with_domain d o = record o { domain = d }

abbrev pub with_expires_in : Duration → Options → Options
with_expires_in d o = record o { expires_in = d }

abbrev pub with_path : String → Options → Options
with_path p o = record o { path = p }

abbrev pub with_same_site : SameSite → Options → Options
with_same_site s o = record o { same_site = s }

-- The instant `time.Unix(0, 0)`, in nanoseconds after Go's zero time.
abbrev pub unix_epoch : Time
unix_epoch = pos 62135596800000000000

abbrev or_default : String → String → String
or_default s d = if s == "" then d else s

-- `Clear`: the cookie that it sets.
unfoldable pub clear : String → Options → HttpCookie
clear name opts = record {
  name = name;
  value = "";
  path = or_default opts.path "/";
  domain = opts.domain;
  expires = unix_epoch;
  max_age = negsuc 0;
  secure = opts.secure;
  http_only = true;
  same_site = opts.same_site;
}

-- `now` is the reading of the clock, `whole_seconds` is `int(d.Seconds())`.
module _ (whole_seconds : Duration → ℤ) where
  unfoldable pub make : Time → String → String → Options → HttpCookie
  make now name value opts = record {
    name = name;
    value = value;
    path = or_default opts.path "/";
    domain = opts.domain;
    expires = now +ℤ opts.expires_in;
    max_age = whole_seconds opts.expires_in;
    secure = opts.secure;
    http_only = true;
    same_site = opts.same_site;
  }

unfoldable pub unset_expiry : HttpCookie → HttpCookie
unset_expiry c = record c { max_age = pos 0; expires = zero_time }

module _ {W : Type 0} (encoding : Encoding) (crypter : Crypter W) where
  unfoldable pub encrypt : HttpCookie → Action W HttpCookie
  encrypt c = do
    ciphertext ← crypter.encrypt (encoding.to_bytes c.value)
    pure (record c { value = encoding.base64 ciphertext })

  unfoldable pub decrypt : String → Result String
  decrypt value =
      bind (encoding.from_base64 value) λ ciphertext.
        bind (crypter.decrypt ciphertext) λ plaintext. ok (encoding.to_string plaintext)

  unfoldable pub get_decrypted : Pairs → String → Result String
  unfolding decrypt
  get_decrypted cookies key = bind (find_cookie cookies key) decrypt

  -- `EncryptAndSet`, with the answer of `time.Now()`: the cookie that is set.
  unfoldable pub encrypt_and_set :
      (Duration → ℤ) → (W → Time × W) → String → String → Options → Action W HttpCookie
  unfolding encrypt make
  encrypt_and_set whole_seconds now key value opts w =
      let (t, w') = now w in encrypt (make whole_seconds t key value opts) w'
