-- ===== src/Iam/Authentication/Login/Steps.antt =====
-- Steps of Login and VerifyLogin that came to their end.
use backend_infrastructure_g.Base.{
  ◌≡◌, refl, sym, ap, ◌∙◌, inl, inr, Bool, true, false, Option, none, some, Text, trim_space, arith,
  Bool-cases,
}
use backend_infrastructure_g.Iam.Service.{
  User, Found, found, missing, unreadable, TokenPair, Session, opened, denied, issue_pair, hash_of,
}
use backend_infrastructure_g.Iam.Refresh.{Keys}
use backend_infrastructure_g.Iam.Service.Laws.{issue_pair-opened}
use backend_infrastructure_g.Iam.AuthCache.{login, verify_and_consume, CacheError}
use backend_infrastructure_g.Iam.Security.{SecurityState}
use backend_infrastructure_g.Iam.Authentication.{
  AuthError, Outcome, done, raised, AuthenticationState, World, Env, Action, raise_if, continue,
  row_or_default, of_session, of_cache_error, read_state, read_security, use_code, open_session,
}
use backend_infrastructure_g.Iam.Authentication.Login.{checked_credentials, credentials}

-- An action that came to its end came there by each of its steps.
pub continue-done :
    {A B : Type 0} (p : World × Outcome A) (f : A → Action B) {w' : World} {b : B}
    → continue p f ≡ (w', done b)
    → (w1 : World) × (a : A) × (p ≡ (w1, done a)) × (f a w1 ≡ (w', done b))
unfolding continue
continue-done (w, done a) f h = (w, a, refl, h)
continue-done (w, raised e) f h = absurd (ground arith)

pub raise_if-done :
    (c : Bool) (e : AuthError) (w w1 : World) (u : Unit {0})
    → raise_if c e w ≡ (w1, done u)
    → (c ≡ false) × (w ≡ w1)
raise_if-done true e w w1 u h = absurd (ground arith)
raise_if-done false e w w1 u h = (refl, ground arith)

abbrev pub ends : {A : Type 0} → World → Outcome A → World × Outcome A
ends w o = (w, o)

session_opened :
    (o : Session) (w w' : World) (keys : Keys) (pair : TokenPair)
    → ends (record w { sessions = keys }) (of_session o) ≡ (w', done pair)
    → (o ≡ opened pair) × (record w { sessions = keys } ≡ w')
session_opened (opened p) w w' keys pair h = (ground arith, ap (λ x. x.0) h)
session_opened (denied e) w w' keys pair h = absurd (ground arith)

code_used :
    (o : Option CacheError) (w w' : World) (u : Unit {0})
    → ends w (of_cache_error o) ≡ (w', done u)
    → (o ≡ none) × (w ≡ w')
code_used none w w' u h = (refl, ap (λ x. x.0) h)
code_used (some e) w w' u h = absurd (ground arith)

checked_done :
    (env : Env) (f : Found) (v : Option Bool) (w w1 : World) (user : User)
    → ends w (checked_credentials env f v) ≡ (w1, done user)
    → (f ≡ found user) × (v ≡ some true) × (user.active ≡ true) × (w ≡ w1)
unfolding checked_credentials
checked_done env missing v w w1 user h = absurd (ground arith)
checked_done env unreadable v w w1 user h = absurd (ground arith)
checked_done env (found x) none w w1 user h = absurd (ground arith)
checked_done env (found x) (some false) w w1 user h = absurd (ground arith)
checked_done env (found x) (some true) w w1 user h = elim (Bool-cases x.active) [
  | inl active ↦ (ground arith, refl, ground arith, ground arith)
  | inr inactive ↦ absurd (ground arith)
]

module _ (env : Env) where
  pub open_session-done :
      (id : Text) (w w' : World) (pair : TokenPair)
      → open_session env id w ≡ (w', done pair)
      → (w'.sessions.tokens (env.hash pair.refresh_token) ≡ some id) × (w'.settings ≡ w.settings)
  unfolding open_session
  open_session-done id w w' pair h =
      let ran = issue_pair env.hash env.backend id w.sessions in
      let (open_, same) = session_opened ran.1 w w' ran.0 pair h in
      (
        ap (λ x. x.sessions.tokens (env.hash pair.refresh_token)) (sym same)
            ∙ issue_pair-opened env.hash env.backend id w.sessions pair open_,
        ap (λ x. x.settings) (sym same),
      )

  pub credentials-done :
      (address password : Text) (w w1 : World) (user : User)
      → credentials env address password w ≡ (w1, done user)
      → (env.backend.find_by_email (env.backend.lower (trim_space address)) ≡ found user)
        × (env.backend.verify password user.password_hash ≡ some true)
        × (user.active ≡ true)
        × (w ≡ w1)
  unfolding credentials hash_of
  credentials-done address password w w1 user h =
      let f = env.backend.find_by_email (env.backend.lower (trim_space address)) in
      let (known, right, active, same) =
        checked_done env f (env.backend.verify password (hash_of env.hash env.backend f)) w w1 user
          h in
      (
        known,
        ap (λ x. env.backend.verify password (hash_of env.hash env.backend x)) (sym known) ∙ right,
        active,
        same,
      )

  pub use_code-done :
      (user : User) (code : Text) (w w1 : World) (u : Unit {0})
      → use_code env user.email login code w ≡ (w1, done u)
      → ((verify_and_consume env.store env.code_fault env.redis_now user.email login code
            w.codes_sent).1
          ≡ none)
        × (w1.settings ≡ w.settings)
  unfolding use_code
  use_code-done user code w w1 u h =
      let r =
        verify_and_consume env.store env.code_fault env.redis_now user.email login code
          w.codes_sent in
      let (accepted, same) = code_used r.1 (record w { codes_sent = r.0 }) w1 u h in
      (accepted, ap (λ x. x.settings) (sym same))

  pub read_state-done :
      (w w1 : World) (state : AuthenticationState)
      → read_state env w ≡ (w1, done state)
      → (state ≡ w.settings) × (w ≡ w1)
  unfolding read_state
  read_state-done w w1 state h = elim (Bool-cases env.settings_fault) [
    | inl broken ↦ absurd (ground arith)
    | inr reads ↦ (ground arith, ground arith)
  ]

  pub read_security-done :
      (id : Text) (w w1 : World) (v : SecurityState)
      → read_security env id w ≡ (w1, done v)
      → (v ≡ row_or_default (w.rows id)) × (w1.codes_sent ≡ w.codes_sent)
  unfolding read_security
  read_security-done id w w1 v h = elim (Bool-cases env.security_fault) [
    | inl broken ↦ absurd (ground arith)
    | inr reads ↦ (ground arith, ground arith)
  ]
