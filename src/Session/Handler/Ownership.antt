-- ===== src/Session/Handler/Ownership.antt =====
-- Whose sessions the entries of the store are (pkg/session/handler.go): every entry is the data of the
-- session whose key it stands under, and a request changes the entries of its own sessions only.
pub mod Creation
pub mod Refreshes
use wonderwall.Base.{
  ℕ, String, ◌==◌, ◌≡◌, ◌∙◌, refl, sym, ap, subst, ◌⊎◌, inl, inr, true, false, none, some, [], ◌∷◌,
  Option, Result, ok, err, arith, eq_iff, eq_refl, Bool-cases, Result-cases,
}
use wonderwall.Base.Action.{Action, always, ◌>>=◌, ◌>>◌}
use wonderwall.Base.Ensures.{
  OnOk, OnOk-intro, Anything, Ensures, Preserves, preserves, pure-Ensures, lift-Ensures, if-Ensures,
  bind-Ensures, run-Preserves,
}
use wonderwall.Base.Retry.{Retrier, retry_all}
use wonderwall.Http.{Pairs, Bytes, IsEncoding}
use wonderwall.Cookie.RoundTrip.{IsCrypter}
use wonderwall.OpenId.Token.{Tokens}
use wonderwall.Session.Metadata.{Duration, Metadata}
use wonderwall.Session.Data
use wonderwall.Session.Data.{Data, EncryptedData, new_data}
use wonderwall.Session.Data.RoundTrip.{IsJson, decrypt-encrypt}
use wonderwall.Session.Id.{Provider, key}
use wonderwall.Session.Store.{Entries, IsStore, IsCareful}
use wonderwall.Session.Handler
use wonderwall.Session.Handler.{
  SessionConfig, Env, attempt, unless_missing, get_for_key, destroy_for_key,
}
use wonderwall.Session.Handler.Storage.{last_unless_missing}
use wonderwall.Session.Handler.Isolation.{IsApart}

module _ {W Held : Type 0} (env : Env W Held) (provider : Provider) where
  -- Whatever the entry decrypts to is data of the session of that key.
  abbrev pub BelongsTo : String → EncryptedData → Type 0
  BelongsTo k e =
      (d : Data)
      → Data.decrypt env.encoding env.json env.crypter e ≡ ok d
      → key provider d.external_session_id ≡ k

  abbrev pub WellKeyed : Entries → Type 0
  WellKeyed m = (k : String) (e : EncryptedData) → m k ≡ some e → BelongsTo k e

  -- The entries are well keyed, and those that are not `Mine` are the old ones.
  pub record IsOwned (Mine : String → Type 0) (old m : Entries) : Type 0 where
    pub keyed : WellKeyed m
    pub others : (j : String) → ¬ Mine j → m j ≡ old j

-- What the invariant relies on: the contracts of the store and of the encryption, that what is outside the
-- store does not change it, and that others, while a call waits to be tried again, keep the invariant.
pub record Surroundings {W Held : Type 0} (env : Env W Held) (retrier : Retrier W)
    (provider : Provider) (entries : W → Entries) (Mine : String → Type 0) (old : Entries)
    : Type 0 where
  pub store : IsStore env.store entries
  pub careful : IsCareful env.store entries
  pub apart : (j : String) → IsApart env entries j
  pub encoding : IsEncoding env.encoding
  pub json : IsJson env.json
  pub crypter : IsCrypter env.crypter
  pub waits :
      (w v : W)
      → retrier.Elapse w v
      → IsOwned env provider Mine old (entries w)
      → IsOwned env provider Mine old (entries v)

module _ {W Held : Type 0} (env : Env W Held) (retrier : Retrier W) (cfg : SessionConfig)
    (provider : Provider) (entries : W → Entries) (Mine : String → Type 0) (old : Entries)
    (rely : Surroundings env retrier provider entries Mine old) where
  abbrev pub Owned : W → Type 0
  Owned w = IsOwned env provider Mine old (entries w)

  -- Entries that stay as they are stay owned.
  pub same-Owned : (w v : W) → ((j : String) → entries v j ≡ entries w j) → Owned w → Owned v
  same-Owned w v same p = record {
    keyed = λ k e h. p.keyed k e (sym (same k) ∙ h);
    others = λ j h. same j ∙ p.others j h;
  }

  -- One entry of mine may become what belongs to its key, or vanish.
  pub change-Owned :
      (k : String) (new : Option EncryptedData) (w v : W)
      → Mine k
      → ((j : String) → (k == j) ≡ false → entries v j ≡ entries w j)
      → (entries v k ≡ entries w k) ⊎ (entries v k ≡ new)
      → ((e : EncryptedData) → new ≡ some e → BelongsTo env provider k e)
      → Owned w
      → Owned v
  change-Owned k new w v mine elsewhere leaves belongs p =
      let here : (e : EncryptedData) → entries v k ≡ some e → BelongsTo env provider k e = λ e h.
        elim leaves [ inl kept ↦ p.keyed k e (sym kept ∙ h) | inr put ↦ belongs e (sym put ∙ h) ] in
      record {
        keyed = λ j e h. elim (Bool-cases (k == j)) [
          | inr other ↦ p.keyed j e (sym (elsewhere j other) ∙ h)
          | inl same ↦
              let eq = (eq_iff k j).0 same in
              subst (λ t. BelongsTo env provider t e) eq (here e (ap (λ t. entries v t) eq ∙ h))
        ];
        others = λ j h. elim (Bool-cases (k == j)) [
          | inr other ↦ elsewhere j other ∙ p.others j h
          | inl same ↦ absurd (h (subst Mine ((eq_iff k j).0 same) mine))
        ];
      }

  pub apart-Preserves :
      {A : Type 0} (m : Action W A)
      → ((j : String) (w : W) → entries (m w).1 j ≡ entries w j)
      → Preserves Owned m
  apart-Preserves m same = preserves Owned m λ w. same-Owned w (m w).1 (λ j. same j w)

  pub now-Owned : Preserves Owned (always env.now)
  now-Owned = apart-Preserves (always env.now) (λ j. (rely.apart j).now)

  pub schedule-Owned : Preserves Owned (always env.schedule)
  schedule-Owned = apart-Preserves (always env.schedule) (λ j. (rely.apart j).schedule)

  pub random-Owned : (n : ℕ) → Preserves Owned (env.random n)
  random-Owned n = apart-Preserves (env.random n) (λ j. (rely.apart j).random n)

  pub seal-Owned : (b : Bytes) → Preserves Owned (env.crypter.encrypt b)
  seal-Owned b = apart-Preserves (env.crypter.encrypt b) (λ j. (rely.apart j).encrypt b)

  pub acquire-Owned : (k : String) (d : Duration) → Preserves Owned (env.store.acquire k d)
  acquire-Owned k d = apart-Preserves (env.store.acquire k d) (λ j. rely.store.acquire_keeps k j d)

  pub release-Owned : (h : Held) → Preserves Owned (env.store.release h)
  release-Owned h = apart-Preserves (env.store.release h) (rely.store.release_keeps h)

  pub grant-Owned : (t : String) → Preserves Owned (env.refresh_grant t)
  grant-Owned t = apart-Preserves (env.refresh_grant t) (λ j. (rely.apart j).refresh_grant t)

  encrypt-Preserves :
      (d : Data) → Preserves Owned (Data.encrypt env.encoding env.json env.crypter d)
  unfolding Data.encrypt
  encrypt-Preserves d =
      bind-Ensures Owned Anything Anything _ _
        (lift-Ensures Owned Anything (env.json.marshal d) (λ _ _. tt))
        λ b _.
          bind-Ensures Owned Anything Anything _ _ (seal-Owned b)
            λ c _. pure-Ensures Owned Anything _ tt

  -- What is encrypted for a session belongs to the key of the session.
  pub encrypt-Owned :
      (d : Data)
      → Ensures Owned
          (Data.encrypt env.encoding env.json env.crypter d)
          (BelongsTo env provider (key provider d.external_session_id))
  encrypt-Owned d = record {
    at = λ w p. (
      ((encrypt-Preserves d).at w p).0,
      OnOk-intro (BelongsTo env provider (key provider d.external_session_id)) _ λ e h d' h'.
          let opened =
            decrypt-encrypt env.encoding rely.encoding env.json rely.json env.crypter rely.crypter d
              w e h in
          let same : d' ≡ d = cc in ap (λ t. key provider t.external_session_id) same,
    );
  }

  -- The calls of the store, tried again until they succeed.
  pub write_retried-Owned :
      (k : String) (e : EncryptedData) (d : Duration)
      → Mine k
      → BelongsTo env provider k e
      → Preserves Owned (retrier.run Unit (attempt retry_all (env.store.write k e d)))
  write_retried-Owned k e d mine belongs =
      run-Preserves Owned retrier retry_all (env.store.write k e d) rely.waits (
        preserves Owned (env.store.write k e d) λ w.
          change-Owned k (some e) w _ mine (λ j. rely.store.write_keeps k j e d w)
            (rely.careful.write_leaves k e d w)
            (λ e' h. subst (BelongsTo env provider k) (cc) belongs))

  pub update_retried-Owned :
      (k : String) (e : EncryptedData)
      → Mine k
      → BelongsTo env provider k e
      → Preserves Owned (retrier.run Unit (attempt unless_missing (env.store.update k e)))
  update_retried-Owned k e mine belongs =
      run-Preserves Owned retrier unless_missing (env.store.update k e) rely.waits (
        preserves Owned (env.store.update k e) λ w.
          change-Owned k (some e) w _ mine (λ j. rely.store.update_keeps k j e w)
            (rely.careful.update_leaves k e w)
            (λ e' h. subst (BelongsTo env provider k) (cc) belongs))

  pub destroy_for_key-Owned :
      (k : String) → Mine k → Preserves Owned (destroy_for_key env retrier cfg provider k)
  unfolding destroy_for_key
  destroy_for_key-Owned k mine =
      run-Preserves Owned retrier unless_missing (env.store.delete (k ∷ [])) rely.waits (
        preserves Owned (env.store.delete (k ∷ [])) λ w.
          change-Owned k none w _ mine (λ j. rely.store.delete_keeps k j w)
            (rely.careful.delete_leaves k w) (λ e h. cc))

  read-Owned : (k : String) → Preserves Owned (env.store.read k)
  read-Owned k = apart-Preserves (env.store.read k) (λ j. rely.store.read_keeps k j)

  read_retried-Owned :
      (k : String)
      → Ensures Owned
          (retrier.run EncryptedData (attempt unless_missing (env.store.read k)))
          (BelongsTo env provider k)
  read_retried-Owned k =
      let m = env.store.read k in
      let kept = run-Preserves Owned retrier unless_missing m rely.waits (read-Owned k) in
      record {
        at = λ w p. (
          (kept.at w p).0,
          OnOk-intro (BelongsTo env provider k) _ λ e h.
              let last =
                last_unless_missing retrier Owned rely.waits m (λ u q. ((read-Owned k).at u q).0) w
                  e p h in
              last.holds.keyed k e (rely.store.found k last.from e last.returned),
        );
      }

  -- The data that is found under a key is that of the session of the key.
  pub get_for_key-Owned :
      (k : String)
      → Ensures Owned
          (get_for_key env retrier cfg provider k)
          (λ d. key provider d.external_session_id ≡ k)
  unfolding get_for_key
  get_for_key-Owned k =
      bind-Ensures Owned (BelongsTo env provider k) _ _ _ (read_retried-Owned k)
        λ e belongs. lift-Ensures Owned _ (Data.decrypt env.encoding env.json env.crypter e) belongs
