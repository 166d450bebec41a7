-- ===== src/Crypto/Crypter/RoundTrip.antt =====
-- What `Encrypt` writes, `Decrypt` reads back (pkg/crypto/crypter.go).
use wonderwall.Base.{
  false, Result-cases, subst, ◌<◌, ◌≡◌, ◌++◌, length, take, drop, arith, ok, inl, inr, leb,
  length-append, take-append_left, drop-append_left, ◌>>=◌,
}
use wonderwall.Base.Int.{ℤ}
use wonderwall.Crypto.Crypter.{Bytes, Aes, iv, encrypt, decrypt}

-- Seal's documentation: Open undoes it under the same nonce, and its output holds a tag, so that it
-- is not empty.
pub record IsSealed {Block Aead : Type 0} (aes : Aes Block Aead) : Type 0 where
  pub opens :
      (a : Aead) (nonce plaintext : Bytes)
      → aes.open_sealed a nonce (aes.seal a nonce plaintext) ≡ ok plaintext
  pub has_tag : (a : Aead) (nonce plaintext : Bytes) → 0 < length (aes.seal a nonce plaintext)

length-iv :
    (t : ℤ) (random nonce : Bytes)
    → length random ≡ 4
    → iv t (ok random) ≡ ok nonce
    → length nonce ≡ 12
unfolding iv
length-iv t random nonce h e = ground arith

module _ {Block Aead : Type 0} (aes : Aes Block Aead) (laws : IsSealed aes) (key : Bytes) where
  decrypt_sealed :
      (block : Block) (a : Aead) (nonce p : Bytes)
      → aes.new_cipher key ≡ ok block
      → aes.new_gcm block ≡ ok a
      → length nonce ≡ 12
      → decrypt aes key (nonce ++ aes.seal a nonce p) ≡ ok p
  unfolding decrypt
  decrypt_sealed block a nonce p hb ha hn =
      let sealed = aes.seal a nonce p in
      let front : take 12 (nonce ++ sealed) ≡ nonce =
        subst (λ k. take k (nonce ++ sealed) ≡ nonce) hn (take-append_left nonce sealed) in
      let back : drop 12 (nonce ++ sealed) ≡ sealed =
        subst (λ k. drop k (nonce ++ sealed) ≡ sealed) hn (drop-append_left nonce sealed) in
      let long : leb (length (nonce ++ sealed)) 12 ≡ false =
        ground (arith, length-append nonce sealed, laws.has_tag a nonce p) in
      rw long (rw (hb, ◌>>=◌) (rw (ha, ◌>>=◌) (rw front (rw back (laws.opens a nonce p)))))

  -- With four random bytes for the nonce, whatever `Encrypt` returns is decrypted to the plaintext.
  pub decrypt-encrypt :
      (t : ℤ) (random p c : Bytes)
      → length random ≡ 4
      → encrypt aes key t (ok random) p ≡ ok c
      → decrypt aes key c ≡ ok p
  unfolding encrypt
  decrypt-encrypt t random p c h e = elim (Result-cases (aes.new_cipher key)) [
    | inr (x, hb) ↦ ground arith
    | inl (block, hb) ↦ elim (Result-cases (aes.new_gcm block)) [
      | inr (x, ha) ↦ ground arith
      | inl (a, ha) ↦ elim (Result-cases (iv t (ok random))) [
        | inr (x, hn) ↦ ground arith
        | inl (nonce, hn) ↦
            let same : c ≡ nonce ++ aes.seal a nonce p = ground arith in
            rw same (decrypt_sealed block a nonce p hb ha (length-iv t random nonce h hn))
      ]
    ]
  ]
