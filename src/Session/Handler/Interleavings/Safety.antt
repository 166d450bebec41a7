-- ===== src/Session/Handler/Interleavings/Safety.antt =====
-- The invariant of refreshes that run at once (pkg/session/handler.go: Refresh): one has the lock, and what
-- it has read is what is stored.
use wonderwall.Base.{
  ℕ, String, ◌≡◌, ◌∙◌, sym, ap, subst, ◌⊎◌, inl, inr, Bool, true, false, none, some, ok, arith,
  Bool-cases, Result-cases,
}
use wonderwall.Base.Retry.{Retrier}
use wonderwall.Session.Data
use wonderwall.Session.Data.{Data, EncryptedData}
use wonderwall.Session.Id.{Provider}
use wonderwall.Session.Store.{Entries, IsStore}
use wonderwall.Session.Handler.{SessionConfig, Env, attempt, unless_missing, get_for_key}
use wonderwall.Session.Handler.Storage.{last_unless_missing}
use wonderwall.Session.Handler.Interleavings.{
  Phase, outside, holding, found, ready, answered, leaving, has_lock, System, same, moves,
}

module _ {W Held : Type 0} (env : Env W Held) (k : String) (entries : W → Entries)
    (locked : W → Bool) where
  -- The entry of the key decrypts to the data, unless it has been deleted.
  abbrev pub Stored : Data → W → Type 0
  Stored d w =
      (e : EncryptedData) × (Data.decrypt env.encoding env.json env.crypter e ≡ ok d)
      × ((entries w k ≡ some e) ⊎ (entries w k ≡ none))

  -- Requests that do not refresh the session may delete its entry, and leave its lock as it is.
  abbrev pub Allowed : (W → W → Type 0) → Type 0
  Allowed Others =
      (v w : W)
      → Others v w
      → (locked v ≡ true → locked w ≡ true) × ((entries w k ≡ entries v k) ⊎ (entries w k ≡ none))

  -- What a request knows of the session.
  abbrev pub Known : Phase Held → W → Type 0
  Known outside w = Unit
  Known (holding h) w = Unit
  Known (found h d) w = Stored d w
  Known (ready h d) w = Stored d w
  Known (answered h d resp) w = Unit
  Known (leaving h) w = Unit

  pub record IsSafe (s : System W Held) : Type 0 where
    pub alone : (i j : ℕ) → has_lock (s.phases i) ≡ true → has_lock (s.phases j) ≡ true → i ≡ j
    pub held : (i : ℕ) → has_lock (s.phases i) ≡ true → locked s.world ≡ true
    pub known : (i : ℕ) → Known (s.phases i) s.world

  Known-outside : (p : Phase Held) (w : W) → has_lock p ≡ false → Known p w
  Known-outside outside w h = tt
  Known-outside (holding x) w h = cc
  Known-outside (found x d) w h = cc
  Known-outside (ready x d) w h = cc
  Known-outside (answered x d resp) w h = cc
  Known-outside (leaving x) w h = cc

  -- A request moves while no other has the lock.
  pub moves-IsSafe :
      (s : System W Held) (i : ℕ) (w : W) (p : Phase Held)
      → ((j : ℕ) → has_lock (s.phases j) ≡ true → i ≡ j)
      → (has_lock p ≡ true → locked w ≡ true)
      → Known p w
      → IsSafe (moves s i w p)
  moves-IsSafe s i w p only locks knows = record {
    alone = λ j l hj hl. ground (arith, only j, only l);
    held = λ j hj. elim (Bool-cases (same i j)) [
      | inl e ↦ locks (ground arith)
      | inr e ↦ ground (arith, only j)
    ];
    known = λ j. elim (Bool-cases (same i j)) [
      | inl e ↦ subst (λ q. Known q w) (ground arith) knows
      | inr e ↦
          subst (λ q. Known q w) (ground arith)
            (Known-outside (s.phases j) w (elim (Bool-cases (has_lock (s.phases j))) [
              | inl h ↦ ground (arith, only j)
              | inr h ↦ h
            ]))
    ];
  }

  -- The request that has the lock moves.
  pub holder-IsSafe :
      (s : System W Held) (i : ℕ) (w : W) (p : Phase Held)
      → IsSafe s
      → has_lock (s.phases i) ≡ true
      → (locked s.world ≡ true → locked w ≡ true)
      → Known p w
      → IsSafe (moves s i w p)
  holder-IsSafe s i w p safe has keeps knows =
      moves-IsSafe s i w p (λ j h. safe.alone i j has h) (λ _. keeps (safe.held i has)) knows

  -- The entry of the key is as it was, or it is gone.
  abbrev pub Lasts : W → W → Type 0
  Lasts v w = (entries w k ≡ entries v k) ⊎ (entries w k ≡ none)

  pub Stored-Lasts : (d : Data) (v w : W) → Lasts v w → Stored d v → Stored d w
  Stored-Lasts d v w (inr gone) (e, de, there) = (e, de, inr gone)
  Stored-Lasts d v w (inl same) (e, de, inl there) = (e, de, inl (same ∙ there))
  Stored-Lasts d v w (inl same) (e, de, inr gone) = (e, de, inr (same ∙ gone))

  pub Known-Lasts : (p : Phase Held) (v w : W) → Lasts v w → Known p v → Known p w
  Known-Lasts outside v w l h = tt
  Known-Lasts (holding x) v w l h = tt
  Known-Lasts (found x d) v w l h = Stored-Lasts d v w l h
  Known-Lasts (ready x d) v w l h = Stored-Lasts d v w l h
  Known-Lasts (answered x d resp) v w l h = tt
  Known-Lasts (leaving x) v w l h = tt

  -- No request moves, and the lock stays as it is.
  pub world-IsSafe :
      (s : System W Held) (w : W)
      → IsSafe s
      → (locked s.world ≡ true → locked w ≡ true)
      → Lasts s.world w
      → IsSafe (record s { world = w })
  world-IsSafe s w safe l lasts = record {
    alone = safe.alone;
    held = λ i h. l (safe.held i h);
    known = λ i. Known-Lasts (s.phases i) s.world w lasts (safe.known i);
  }

module _ {W Held : Type 0} (env : Env W Held) (retrier : Retrier W) (cfg : SessionConfig)
    (provider : Provider) (k : String) (entries : W → Entries) (laws : IsStore env.store entries)
    (locked : W → Bool) where
  pub get_for_key-Stored :
      (v w : W) (d : Data)
      → get_for_key env retrier cfg provider k v ≡ (ok d, w)
      → Stored env k entries locked d w
  unfolding get_for_key
  get_for_key-Stored v w d h =
      let m = env.store.read k in
      elim (Result-cases (retrier.run EncryptedData (attempt unless_missing m) v).0) [
        | inr (x, hx) ↦ ground arith
        | inl (e, he) ↦
            let last =
              last_unless_missing retrier (λ u. Unit {0}) (λ u t q p. tt) m (λ u q. tt) v e tt he in
            let kept : entries (retrier.run EncryptedData (attempt unless_missing m) v).1 k
                ≡ some e =
              ap (λ u. entries u k) (sym last.left)
              ∙ laws.read_keeps k k last.from
              ∙ laws.found k last.from e last.returned in
            (e, ground arith, inl (subst (λ u. entries u k ≡ some e) (ground arith) kept))
      ]
