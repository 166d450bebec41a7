-- ===== src/Session/Id.antt =====
-- Session IDs and keys (pkg/session/handler.go: NewSessionID, getSessionStateFrom, Key).
use Prim.Native.String.{◌++◌ as append}
use text.Mathlib.TextLemmas.{append_cancel_left}
use wonderwall.Base.{
  ℕ, String, ◌==◌, ◌≡◌, Bool, true, false, Result, ok, err, Error, other, arith, if◌then◌else◌,
}
use wonderwall.Base.Action.{Action, lift}
use wonderwall.Base.Ensures.{Anything, Preserves, lift-Ensures, if-Ensures, then_pure}
use wonderwall.Http.{Bytes, Pairs, get}
use wonderwall.OpenId.Token.{IdToken, get_sid_claim}
use wonderwall.Random.{generate_base64}

-- What the session handler reads of the configuration of the provider and the client.
pub record Provider : Type 0 where
  pub name : String
  pub client_id : String
  pub session_state_required : Bool
  pub sid_claim_required : Bool

unfoldable pub get_session_state_from : Pairs → Result String
get_session_state_from params =
    let session_state = get params "session_state" in
    if session_state == "" then err other else ok session_state

module _ {W : Type 0} (random : ℕ → Action W Bytes) (raw_url : Bytes → String) where
  or_generate : Provider → Result String → Action W String
  unfolding generate_base64
  or_generate cfg (ok session_state) = lift (ok session_state)
  or_generate cfg (err e) =
      if cfg.session_state_required then lift (err e) else generate_base64 random raw_url 64

  or_session_state : Provider → Result String → Pairs → Action W String
  unfolding or_generate get_session_state_from
  or_session_state cfg (ok sid) params = lift (ok sid)
  or_session_state cfg (err e) params =
      if cfg.sid_claim_required
      then lift (err e)
      else or_generate cfg (get_session_state_from params)

  unfoldable pub new_session_id : Provider → IdToken → Pairs → Action W String
  unfolding or_session_state
  new_session_id cfg id_token params = or_session_state cfg (get_sid_claim id_token) params

  -- The ID is the `sid` claim if the token has it. Without it the login fails if the provider
  -- promises the claim; else the ID is the parameter `session_state`, if there is one. Without both
  -- the login fails if the provider promises the parameter; else the ID is 64 random bytes.
  pub new_session_id_sources :
      (cfg : Provider) (id_token : IdToken) (params : Pairs) (w : W)
      → ((sid : String)
          → get_sid_claim id_token ≡ ok sid
          → new_session_id cfg id_token params w ≡ (ok sid, w))
        × ((e : Error)
            → get_sid_claim id_token ≡ err e
            → cfg.sid_claim_required ≡ true
            → new_session_id cfg id_token params w ≡ (err e, w))
        × ((e : Error)
            → get_sid_claim id_token ≡ err e
            → cfg.sid_claim_required ≡ false
            → (get params "session_state" == "") ≡ false
            → new_session_id cfg id_token params w ≡ (ok (get params "session_state"), w))
        × ((e : Error)
            → get_sid_claim id_token ≡ err e
            → cfg.sid_claim_required ≡ false
            → (get params "session_state" == "") ≡ true
            → new_session_id cfg id_token params w ≡ (
                if cfg.session_state_required
                then (err other, w)
                else generate_base64 random raw_url 64 w))
  unfolding new_session_id
  new_session_id_sources cfg id_token params w = (
    λ sid h. rw (h, or_session_state),
    λ e h r. rw (h, or_session_state) (rw r),
    λ e h r s. rw (h, or_session_state) (rw r (rw s)),
    λ e h r s. rw (h, or_session_state) (rw r (ground arith)),
  )

module _ {W : Type 0} (random : ℕ → Action W Bytes) (raw_url : Bytes → String) (P : W → Type 0)
    (quiet : (n : ℕ) → Preserves P (random n)) where
  or_generate-Preserves :
      (cfg : Provider) (r : Result String) → Preserves P (or_generate random raw_url cfg r)
  unfolding or_generate generate_base64
  or_generate-Preserves cfg (ok s) = lift-Ensures P Anything (ok s) (λ _ _. tt)
  or_generate-Preserves cfg (err e) =
      if-Ensures P Anything cfg.session_state_required _ _
        (lift-Ensures P Anything (err e) (λ _ _. tt)) (then_pure P (random 64) raw_url (quiet 64))

  -- A new ID leaves what random bytes leave.
  pub new_session_id-Preserves :
      (cfg : Provider) (t : IdToken) (params : Pairs)
      → Preserves P (new_session_id random raw_url cfg t params)
  unfolding new_session_id or_session_state
  new_session_id-Preserves cfg t params = from (get_sid_claim t)
    where
      from : (r : Result String) → Preserves P (or_session_state random raw_url cfg r params)
      from (ok sid) = lift-Ensures P Anything (ok sid) (λ _ _. tt)
      from (err e) =
          if-Ensures P Anything cfg.sid_claim_required _ _
            (lift-Ensures P Anything (err e) (λ _ _. tt))
            (or_generate-Preserves cfg (get_session_state_from params))

-- `fmt.Sprintf("%s:%s:%s", provider.Name(), client.ClientID(), sessionID)`
unfoldable pub key : Provider → String → String
key cfg session_id = append cfg.name (append ":" (append cfg.client_id (append ":" session_id)))

-- Under one provider and client, different session IDs have different keys.
pub key_injective : (cfg : Provider) (s t : String) → key cfg s ≡ key cfg t → s ≡ t
unfolding key
key_injective cfg s t e = append_cancel_left ":" s t (
    append_cancel_left cfg.client_id _ _
      (append_cancel_left ":" _ _ (append_cancel_left cfg.name _ _ e)))
