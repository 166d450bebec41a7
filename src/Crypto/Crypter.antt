-- ===== src/Crypto/Crypter.antt =====
-- pkg/crypto/crypter.go. Bytes are numbers. The block cipher and its GCM mode are crypto/aes and
-- crypto/cipher, random bytes are those of liberator's keygen: parameters. A call of `Encrypt` reads
-- the clock once and asks for random bytes once, so both answers are arguments.
pub mod RoundTrip
pub mod Nonces
use wonderwall.Base.{
  ℕ, ◌+◌, ◌-◌, ◌/◌, ◌%◌, ◌^◌, String, ◌==◌, Option, none, some, List, [], ◌∷◌, ◌++◌, length, take,
  drop, leb, Result, ok, err, other, Error, ◌>>=◌, if◌then◌else◌,
}
use wonderwall.Base.Int.{ℤ, pos, negsuc}

abbrev pub Bytes : Type 0
Bytes = List ℕ

-- aes.NewCipher, cipher.NewGCM, and the methods Seal and Open of the mode.
pub record Aes (Block Aead : Type 0) : Type 0 where
  pub new_cipher : Bytes → Result Block
  pub new_gcm : Block → Result Aead
  pub seal : Aead → Bytes → Bytes → Bytes
  pub open_sealed : Aead → Bytes → Bytes → Result Bytes

-- The bits of a signed 64-bit integer as an unsigned number.
abbrev pub bits64 : ℤ → ℕ
bits64 (pos n) = n % 2 ^ 64
bits64 (negsuc n) = 2 ^ 64 - 1 - n % 2 ^ 64

-- binary.Write(buf, binary.BigEndian, x) for a 64-bit x
unfoldable pub big_endian : ℕ → Bytes
big_endian x =
    x / 2 ^ 56 % 256
    ∷ x / 2 ^ 48 % 256
    ∷ x / 2 ^ 40 % 256
    ∷ x / 2 ^ 32 % 256
    ∷ x / 2 ^ 24 % 256
    ∷ x / 2 ^ 16 % 256
    ∷ x / 2 ^ 8 % 256
    ∷ x % 256
    ∷ []

-- `unix_nano` is what time.Now().UnixNano() returns, `random` what keygen.Keygen(4) returns.
unfoldable pub iv : ℤ → Result Bytes → Result Bytes
unfolding big_endian
iv unix_nano random = do bytes ← random; ok (big_endian (bits64 unix_nano) ++ bytes)

module _ {Block Aead : Type 0} (aes : Aes Block Aead) (key : Bytes) where
  unfoldable pub encrypt : ℤ → Result Bytes → Bytes → Result Bytes
  encrypt unix_nano random plaintext = do
    block ← aes.new_cipher key
    aesgcm ← aes.new_gcm block
    nonce ← iv unix_nano random
    ok (nonce ++ aes.seal aesgcm nonce plaintext)

  unfoldable pub decrypt : Bytes → Result Bytes
  decrypt ciphertext = if leb (length ciphertext) 12 then err other else do
    block ← aes.new_cipher key
    aesgcm ← aes.new_gcm block
    aes.open_sealed aesgcm (take 12 ciphertext) (drop 12 ciphertext)

-- `decoded` is what base64.StdEncoding.DecodeString returns for the configured key: the bytes
-- decoded, and the error if there is one. `random` is the answer of keygen.Keygen(32).
unfoldable pub encryption_key_or_generate :
    String → Bytes × Option Error → Result Bytes → Result Bytes
encryption_key_or_generate configured (key, none) random =
    if leb (length key) 0 then random else ok key
encryption_key_or_generate configured (key, some e) random =
    if configured == "" then (if leb (length key) 0 then random else ok key) else err other
