-- ===== src/Session/Data/RoundTrip.antt =====
-- Session data survives its encryption (pkg/session/data.go: Encrypt, Decrypt).
use wonderwall.Base.{◌≡◌, ok, arith, Result-cases, inl, inr}
use wonderwall.Http.{Bytes, Encoding, IsEncoding}
use wonderwall.Cookie.{Crypter}
use wonderwall.Cookie.RoundTrip.{IsCrypter}
use wonderwall.Session.Data.{Data, EncryptedData, Json, encrypt, decrypt}

-- What encoding/json writes for a value of type `Data`, it reads back as that value.
pub record IsJson (json : Json) : Type 0 where
  pub reads : (d : Data) (b : Bytes) → json.marshal d ≡ ok b → json.unmarshal b ≡ ok d

module _ {W : Type 0} (encoding : Encoding) (laws : IsEncoding encoding) (json : Json)
    (json_laws : IsJson json) (crypter : Crypter W) (opens : IsCrypter crypter) where
  -- Whatever encrypted data `Encrypt` returns, `Decrypt` returns the data that it was made of.
  pub decrypt-encrypt :
      (d : Data) (w : W) (e : EncryptedData)
      → (encrypt encoding json crypter d w).0 ≡ ok e
      → decrypt encoding json crypter e ≡ ok d
  unfolding encrypt decrypt
  decrypt-encrypt d w e h = elim (Result-cases (json.marshal d)) [
    | inr (x, hb) ↦ ground arith
    | inl (b, hb) ↦ elim (Result-cases (crypter.encrypt b w).0) [
      | inr (x, hc) ↦ ground arith
      | inl (c, hc) ↦ ground (arith, json_laws.reads d b hb, opens.opens w b c hc, laws.decodes c)
    ]
  ]
