-- ===== src/Cookie/RoundTrip.antt =====
-- A cookie that was encrypted and set is read back when the browser returns it (pkg/cookie).
use wonderwall.Base.{String, ◌≡◌, ◌∷◌, ok, arith, eq_refl, Result-cases, inl, inr}
use wonderwall.Base.Int.{ℤ}
use wonderwall.Http.{Bytes, Pairs, HttpCookie, find_cookie, Encoding, IsEncoding}
use wonderwall.Session.Metadata.{Time, Duration}
use wonderwall.Cookie.{Crypter, Options, get_decrypted, encrypt_and_set}

-- What the crypter encrypts, at any time, it decrypts.
pub record IsCrypter {W : Type 0} (crypter : Crypter W) : Type 0 where
  pub opens : (w : W) (p c : Bytes) → (crypter.encrypt p w).0 ≡ ok c → crypter.decrypt c ≡ ok p

module _ {W : Type 0} (encoding : Encoding) (laws : IsEncoding encoding) (crypter : Crypter W)
    (opens : IsCrypter crypter) where
  -- If `EncryptAndSet` succeeds, the cookie has the name and the options that were asked for, and a
  -- request that returns it before any other cookie of that name decrypts to the value.
  pub get_decrypted-encrypt_and_set :
      (whole_seconds : Duration → ℤ) (now : W → Time × W) (key value : String) (opts : Options)
      (w : W) (c : HttpCookie) (rest : Pairs)
      → (encrypt_and_set encoding crypter whole_seconds now key value opts w).0 ≡ ok c
      → (c.name ≡ key)
        × (c.secure ≡ opts.secure)
        × (c.same_site ≡ opts.same_site)
        × (get_decrypted encoding crypter ((c.name, c.value) ∷ rest) key ≡ ok value)
  unfolding encrypt_and_set get_decrypted find_cookie
  get_decrypted-encrypt_and_set whole_seconds now key value opts w c rest e =
      let (t, w') = now w in
      let p = encoding.to_bytes value in
      elim (Result-cases (crypter.encrypt p w').0) [
        | inr (x, he) ↦ ground arith
        | inl (s, he) ↦
            ground
              (arith, eq_refl key, opens.opens w' p s he, laws.string-bytes value, laws.decodes s)
      ]
