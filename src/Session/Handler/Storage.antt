-- ===== src/Session/Handler/Storage.antt =====
-- What the handler's retried calls do to the entries of its store (pkg/session/handler.go: Create,
-- destroyForKey, GetForKey, Update).
use wonderwall.Base.{
  String, ◌≡◌, ◌∙◌, refl, ap, sym, none, some, [], ◌∷◌, Result, ok, err, arith, eq_refl,
  Result-cases, inl, inr,
}
use wonderwall.Base.Action.{Action}
use wonderwall.Base.Retry.{done, retry_all, Retrier, Runs-done}
use wonderwall.Session.Metadata.{Duration}
use wonderwall.Session.Data
use wonderwall.Session.Data.{Data, EncryptedData}
use wonderwall.Session.Store.{Entries, IsStore}
use wonderwall.Session.Id.{Provider}
use wonderwall.Session.Handler.{
  SessionConfig, Env, attempt, unless_missing, get_for_key, destroy_for_key, update,
}

unless_missing_done : {A : Type 0} (r : Result A) (a : A) → unless_missing r ≡ done a → r ≡ ok a
unless_missing_done (ok b) a e = cc
unless_missing_done (err x) a e = ground arith

retry_all_done : {A : Type 0} (r : Result A) (a : A) → retry_all r ≡ done a → r ≡ ok a
retry_all_done (ok b) a e = cc
retry_all_done (err x) a e = cc

-- The last call of a run that succeeded: it succeeded, and left the state that the run left.
pub record LastCall {W A : Type 0} (m : Action W A) (P : W → Type 0) (a : A) (v : W) : Type 0 where
  pub from : W
  pub holds : P from
  pub returned : (m from).0 ≡ ok a
  pub left : (m from).1 ≡ v

module _ {W : Type 0} (retrier : Retrier W) (P : W → Type 0)
    (wait : (w v : W) → retrier.Elapse w v → P w → P v) {A : Type 0} (m : Action W A)
    (step : (w : W) → P w → P (m w).1) where
  pub last_unless_missing :
      (w : W) (a : A)
      → P w
      → (retrier.run A (attempt unless_missing m) w).0 ≡ ok a
      → LastCall m P a (retrier.run A (attempt unless_missing m) w).1
  last_unless_missing w a h e =
      let (u, p, q) = Runs-done P wait step (retrier.runs A (attempt unless_missing m) w) e h in
      record {
        from = u;
        holds = p;
        returned = unless_missing_done (m u).0 a (ap (λ x. x.0) q);
        left = ap (λ x. x.1) q;
      }

  pub last_retry_all :
      (w : W) (a : A)
      → P w
      → (retrier.run A (attempt retry_all m) w).0 ≡ ok a
      → LastCall m P a (retrier.run A (attempt retry_all m) w).1
  last_retry_all w a h e =
      let (u, p, q) = Runs-done P wait step (retrier.runs A (attempt retry_all m) w) e h in
      record {
        from = u;
        holds = p;
        returned = retry_all_done (m u).0 a (ap (λ x. x.0) q);
        left = ap (λ x. x.1) q;
      }

-- Nobody else changes the entry of the key while the handler waits.
abbrev pub IsQuiet : {W : Type 0} → Retrier W → (W → Entries) → String → Type 0
IsQuiet {W} retrier entries k = (w v : W) → retrier.Elapse w v → entries v k ≡ entries w k

module _ {W Held : Type 0} (env : Env W Held) (retrier : Retrier W) (cfg : SessionConfig)
    (provider : Provider) (entries : W → Entries) (laws : IsStore env.store entries) where
  -- While others leave the key alone, the data that `GetForKey` returns is what the entry of the
  -- key decrypts to, and the entry stays.
  pub get_for_key_found :
      (k : String) (w : W) (d : Data)
      → IsQuiet retrier entries k
      → (get_for_key env retrier cfg provider k w).0 ≡ ok d
      → (e : EncryptedData) × (entries w k ≡ some e)
        × (Data.decrypt env.encoding env.json env.crypter e ≡ ok d)
        × (entries (get_for_key env retrier cfg provider k w).1 k ≡ some e)
  unfolding get_for_key
  get_for_key_found k w d quiet h =
      let m = env.store.read k in
      elim (Result-cases (retrier.run EncryptedData (attempt unless_missing m) w).0) [
        | inr (x, hx) ↦ ground arith
        | inl (e, he) ↦
            let last =
              last_unless_missing retrier (λ v. entries v k ≡ entries w k)
                (λ u v t q. quiet u v t ∙ q) m (λ u q. laws.read_keeps k k u ∙ q) w e refl he in
            let there : entries w k ≡ some e =
              sym last.holds ∙ laws.found k last.from e last.returned in
            let kept : entries (retrier.run EncryptedData (attempt unless_missing m) w).1 k
                ≡ some e =
              ap (λ v. entries v k) (sym last.left)
              ∙ laws.read_keeps k k last.from
              ∙ last.holds
              ∙ there in
            (e, there, ground arith, ground arith)
      ]

  -- When `DestroyForID` reports success, the key of the session has no entry.
  pub destroy_for_key_gone :
      (k : String) (w : W)
      → (destroy_for_key env retrier cfg provider k w).0 ≡ ok tt
      → entries (destroy_for_key env retrier cfg provider k w).1 k ≡ none
  unfolding destroy_for_key
  destroy_for_key_gone k w h =
      let m = env.store.delete (k ∷ []) in
      let last =
        last_unless_missing retrier (λ v. Unit {0}) (λ u v t q. tt) m (λ u q. tt) w tt tt h in
      ap (λ v. entries v k) (sym last.left)
      ∙ laws.deleted k k last.from last.returned
      ∙ ground (arith, eq_refl k)

  -- When `Update` reports success, the entry of the key is an encryption of the data.
  pub update_stored :
      (k : String) (d : Data) (w : W)
      → (update env retrier cfg provider k d w).0 ≡ ok tt
      → (e : EncryptedData) × ((Data.encrypt env.encoding env.json env.crypter d w).0 ≡ ok e)
        × (entries (update env retrier cfg provider k d w).1 k ≡ some e)
  unfolding update
  update_stored k d w h =
      elim (Result-cases (Data.encrypt env.encoding env.json env.crypter d w).0) [
        | inr (x, hx) ↦ ground arith
        | inl (e, he) ↦
            let m = env.store.update k e in
            let w₁ = (Data.encrypt env.encoding env.json env.crypter d w).1 in
            let run_ok : (retrier.run Unit (attempt unless_missing m) w₁).0 ≡ ok tt =
              ground arith in
            let last =
              last_unless_missing retrier (λ v. Unit {0}) (λ u v t q. tt) m (λ u q. tt) w₁ tt tt
                run_ok in
            let stored : entries (retrier.run Unit (attempt unless_missing m) w₁).1 k ≡ some e =
              ap (λ v. entries v k) (sym last.left)
              ∙ laws.updated k k e last.from last.returned
              ∙ ground (arith, eq_refl k) in
            (e, he, ground arith)
      ]

  -- When the retried `Write` of `Create` reports success, the key has the entry written.
  pub write_stored :
      (k : String) (e : EncryptedData) (d : Duration) (w : W)
      → (retrier.run Unit (attempt retry_all (env.store.write k e d)) w).0 ≡ ok tt
      → entries (retrier.run Unit (attempt retry_all (env.store.write k e d)) w).1 k ≡ some e
  write_stored k e d w h =
      let m = env.store.write k e d in
      let last = last_retry_all retrier (λ v. Unit {0}) (λ u v t q. tt) m (λ u q. tt) w tt tt h in
      ap (λ v. entries v k) (sym last.left)
      ∙ laws.written k k e d last.from last.returned
      ∙ ground (arith, eq_refl k)
