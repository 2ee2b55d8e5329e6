-- ===== src/Iam/Security/Edits.antt =====
-- What the requests of pkg/modules/iam/authentication_service.go make of the security settings that
-- they have read, before they save them: PutSecurity, Enroll, Confirm and Disable.
use backend_infrastructure_g.Base.{ℕ, ◌*◌, none, some, List, [], Text, ℤ, pos, negsuc, ◌+ℤ◌}
use backend_infrastructure_g.Iam.Security.{Mode, default_mode, totp, SecurityState}

-- Ten minutes.
abbrev pub enrolment_life : ℤ
enrolment_life = pos (600 * 1000000000)

abbrev pub with_mode : Mode → SecurityState → SecurityState
with_mode mode v = record v { mode = mode }

abbrev pub with_pending : Text → ℤ → SecurityState → SecurityState
with_pending encrypted now v = record v {
  pending_secret = encrypted;
  pending_expires_at = some (now +ℤ enrolment_life);
}

abbrev pub confirmed : ℤ → List Text → ℤ → SecurityState → SecurityState
confirmed step hashes expires_at v = record v {
  secret = v.pending_secret;
  pending_secret = [];
  pending_expires_at = none;
  recovery_codes_expires_at = some expires_at;
  recovery_hashes = hashes;
  mode = totp;
  last_totp_step = step;
}

-- `Disable` writes every column; the version is the one after the proof was spent.
abbrev pub disabled : ℕ → SecurityState
disabled version = record {
  mode = default_mode;
  version = version;
  secret = [];
  pending_secret = [];
  pending_expires_at = none;
  last_totp_step = negsuc 0;
  recovery_hashes = [];
  recovery_codes_expires_at = none;
}

-- The edits of a state that was read, each with what it takes from elsewhere.
pub data Edit : Type 0 where
  puts_mode : Mode → Edit
  enrols : Text → ℤ → Edit
  confirms : ℤ → List Text → ℤ → Edit

unfoldable pub apply_edit : Edit → SecurityState → SecurityState
apply_edit (puts_mode mode) v = with_mode mode v
apply_edit (enrols encrypted now) v = with_pending encrypted now v
apply_edit (confirms step hashes expires_at) v = confirmed step hashes expires_at v
