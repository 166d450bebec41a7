-- ===== src/Session/Data.antt =====
-- The data of a session and its encrypted form (pkg/session/data.go, up to `HasRefreshToken`).
-- JSON is encoding/json: its two functions are parameters.
pub mod RoundTrip
use wonderwall.Base.{String, ◌==◌, Bool, not, Option, none, some, Result, ok, err}
use wonderwall.Base.Results.{◌>>=◌ as bind}
use wonderwall.Base.Action.{Action, pure, lift, ◌>>=◌}
use wonderwall.Http.{Bytes, Encoding}
use wonderwall.Cookie.{Crypter}
use wonderwall.OpenId.Token.{IdToken, Tokens, get_jwt_id}
use wonderwall.Session.Metadata.{Metadata}

-- `EncryptedData`: the text of its field `Data`.
pub record EncryptedData : Type 0 where
  pub text : String

pub record Data : Type 0 where
  pub external_session_id : String
  pub access_token : String
  pub id_token : String
  pub refresh_token : String
  pub id_token_jwt_id : String
  pub metadata : Metadata

-- json.Marshal and json.Unmarshal at `Data`
pub record Json : Type 0 where
  pub marshal : Data → Result Bytes
  pub unmarshal : Bytes → Result Data

-- `NewData` with metadata, as the session handler calls it.
unfoldable pub new_data : String → Tokens → Metadata → Data
new_data external_session_id tokens metadata = record {
  external_session_id = external_session_id;
  access_token = tokens.access_token;
  id_token = tokens.id_token.serialized;
  refresh_token = tokens.refresh_token;
  id_token_jwt_id = get_jwt_id tokens.id_token;
  metadata = metadata;
}

module _ {W : Type 0} (encoding : Encoding) (json : Json) (crypter : Crypter W) where
  unfoldable pub encrypt : Data → Action W EncryptedData
  encrypt d = do
    bytes ← lift (json.marshal d)
    ciphertext ← crypter.encrypt bytes
    pure (record { text = encoding.base64 ciphertext })

  unfoldable pub decrypt : EncryptedData → Result Data
  decrypt e =
      bind (encoding.from_base64 e.text)
        λ ciphertext. bind (crypter.decrypt ciphertext) json.unmarshal

unfoldable pub has_access_token : Data → Bool
has_access_token d = not (d.access_token == "")

unfoldable pub has_refresh_token : Data → Bool
has_refresh_token d = not (d.refresh_token == "")
