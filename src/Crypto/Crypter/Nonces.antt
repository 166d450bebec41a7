-- ===== src/Crypto/Crypter/Nonces.antt =====
-- The nonces of `IV` (pkg/crypto/crypter.go).
use wonderwall.Base.{◌++◌, ℕ, ◌^◌, ◌≡◌, ◌<◌, ok, arith}
use wonderwall.Base.Int.{pos}
use wonderwall.Crypto.Crypter.{Bytes, bits64, big_endian, iv}

big_endian_injective : (x y : ℕ) → x < 2 ^ 64 → y < 2 ^ 64 → big_endian x ≡ big_endian y → x ≡ y
unfolding big_endian
big_endian_injective x y h k e = ground arith

-- Two nonces made at times that fit 64 bits are equal only if both the times, to the nanosecond,
-- and the random bytes are.
pub iv_injective :
    (s t : ℕ) (r q : Bytes)
    → s < 2 ^ 63
    → t < 2 ^ 63
    → iv (pos s) (ok r) ≡ iv (pos t) (ok q)
    → (s ≡ t) × (r ≡ q)
unfolding iv
iv_injective s t r q h k e =
    let joined : big_endian (bits64 (pos s)) ++ r ≡ big_endian (bits64 (pos t)) ++ q =
      ground arith in
    (unfold big_endian in ground arith, unfold big_endian in ground arith)
