-- ===== src/Iam/Security.antt =====
-- The second factor of one user: SecurityState of pkg/modules/iam/authentication.go, its row with the
-- statements of db/queries/authentication.sql, and the methods of
-- pkg/platform/database/iamstore/authentication.go on it. Instants are nanoseconds, NULL and nil are
-- `none`, a secret that is NULL is the empty text, and `version` is a BIGINT far from its end. A
-- transaction that returns an error leaves the tables as they were. The SHA-256 of a challenge's id
-- stands in the caller's text for it.
pub mod Edits
pub mod Snapshots
pub mod Once
pub mod Challenges
mod Tests
use backend_infrastructure_g.Base.{
  ℕ, ◌+◌, ◌*◌, Bool, true, false, not, ◌&&◌, ◌||◌, Option, none, some, List, [], ◌∷◌, Text, text_eq,
  ◌==◌, ℤ, pos, negsuc, ◌+ℤ◌, ltb_ℤ, leb_ℤ, if◌then◌else◌,
}

pub data Mode : Type 0 where
  default_mode email totp : Mode

pub record SecurityState : Type 0 where
  pub mode : Mode
  pub version : ℕ
  pub secret : Text
  pub pending_secret : Text
  pub pending_expires_at : Option ℤ
  pub last_totp_step : ℤ
  pub recovery_hashes : List Text
  pub recovery_codes_expires_at : Option ℤ

-- `TOTPEnabled`, as `securityFromDB` computes it.
abbrev pub totp_enabled : SecurityState → Bool
totp_enabled v = elim v.secret [ [] ↦ false | c ∷ s ↦ true ]

-- The user's row, and authentication_consumptions: the credentials with the ends of their lives.
pub record Store : Type 0 where
  pub row : SecurityState
  pub consumptions : List (Text × ℤ)

-- ErrSecurityConflict, ErrEmailNotVerified, ErrInvalidCode, an error of the database.
pub data SecurityError : Type 0 where
  security_conflict email_not_verified invalid_code database_error : SecurityError

abbrev is_email : Mode → Bool
is_email email = true
is_email _ = false

abbrev is_totp : Mode → Bool
is_totp totp = true
is_totp _ = false

-- SaveSecuritySettings: the version that the caller read must still be the row's. The constraint
-- that the mode totp has a secret makes the database refuse a row.
unfoldable pub save_settings : SecurityState → ℕ → Store → Store × Option SecurityError
save_settings v version s =
    if not (s.row.version == version)
    then (s, some security_conflict)
    else (if is_totp v.mode && not (totp_enabled v)
        then (s, some database_error)
        else (record s { row = record v { version = s.row.version + 1 } }, none))

-- `SaveSecurity`: in the mode email the user's verification is read again under the row's lock.
unfoldable pub save_security :
    Bool → Bool → SecurityState → ℕ → Store → Store × Option SecurityError
unfolding save_settings
save_security fault verified v version s =
    if fault
    then (s, some database_error)
    else (if is_email v.mode && not verified
        then (s, some email_not_verified)
        else save_settings v version s)

-- The instants of a transaction: `time.Now()` of the service, whose two readings are taken as one, and
-- NOW() of the database.
pub record Clocks : Type 0 where
  pub service : ℤ
  pub database : ℤ

-- PruneAuthenticationConsumptions, at the database's NOW().
unfoldable pub prune : ℤ → List (Text × ℤ) → List (Text × ℤ)
prune now [] = []
prune now ((c, expires_at) ∷ cs) =
    let rest = prune now cs in if ltb_ℤ expires_at now then rest else (c, expires_at) ∷ rest

unfoldable pub is_consumed : Text → List (Text × ℤ) → Bool
is_consumed credential [] = false
is_consumed credential ((c, expires_at) ∷ cs) = text_eq c credential || is_consumed credential cs

-- Prunes and inserts: what Register, VerifyEmail and ConsumeCredential do with the table. `none`
-- stands for the error of the unique key, at which the transaction ends.
unfoldable pub record_consumption : ℤ → Text → ℤ → List (Text × ℤ) → Option (List (Text × ℤ))
unfolding prune is_consumed
record_consumption database_now c expires_at cs =
    let kept = prune database_now cs in
    if is_consumed c kept then none else some ((c, expires_at) ∷ kept)

-- Ten minutes.
abbrev pub consumption_life : ℤ
consumption_life = pos (600 * 1000000000)

-- The credential's part of `ConsumeCredential`: its life is counted by the service's clock.
unfoldable pub insert_consumption : Text → Clocks → List (Text × ℤ) → Option (List (Text × ℤ))
unfolding record_consumption
insert_consumption [] now cs = some cs
insert_consumption (c ∷ s) now cs =
    record_consumption now.database (c ∷ s) (now.service +ℤ consumption_life) cs

abbrev is_after : Option ℤ → ℤ → Bool
is_after none now = false
is_after (some t) now = ltb_ℤ now t

-- The loop over the recovery hashes: whether one is found, and the others.
unfoldable pub holds_hash : Text → List Text → Bool
holds_hash hash [] = false
holds_hash hash (h ∷ hs) = text_eq h hash || holds_hash hash hs

unfoldable pub without_hash : Text → List Text → List Text
without_hash hash [] = []
without_hash hash (h ∷ hs) =
    let rest = without_hash hash hs in if text_eq h hash then rest else h ∷ rest

-- The row after the proof was spent; `none` stands for ErrInvalidCode. A recovery code has the empty
-- text where the proof is a TOTP step.
unfoldable pub spend : ℤ → ℤ → Text → SecurityState → Option SecurityState
unfolding holds_hash without_hash
spend now step [] r =
    if leb_ℤ step r.last_totp_step
    then none
    else some (record r { last_totp_step = step; version = r.version + 1 })
spend now step (c ∷ s) r =
    if not (is_after r.recovery_codes_expires_at now)
    then none
    else (if holds_hash (c ∷ s) r.recovery_hashes
        then some (record r {
          recovery_hashes = without_hash (c ∷ s) r.recovery_hashes;
          version = r.version + 1;
        })
        else none)

-- The parts of the transaction together.
spent : Store → Option (List (Text × ℤ)) → Option SecurityState → Store × Option SecurityError
spent s (some cs) (some r) = (record { row = r; consumptions = cs }, none)
spent s _ _ = (s, some invalid_code)

unfoldable pub consume_credential :
    Bool → Clocks → Text → ℕ → ℤ → Text → Store → Store × Option SecurityError
unfolding insert_consumption spend spent
consume_credential fault now credential version step recovery s =
    if fault
    then (s, some database_error)
    else (if not (s.row.version == version) || not (totp_enabled s.row)
        then (s, some invalid_code)
        else spent s (insert_consumption credential now s.consumptions)
            (spend now.service step recovery s.row))

-- InvalidatePasswordCredentials.
unfoldable pub invalidate_password_credentials : Store → Store
invalidate_password_credentials s = record s {
  row = record (s.row) {
    version = s.row.version + 1;
    pending_secret = [];
    pending_expires_at = none;
  };
}
