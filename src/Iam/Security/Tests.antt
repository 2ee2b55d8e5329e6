-- ===== src/Iam/Security/Tests.antt =====
-- A user with a factor, and two requests.
use backend_infrastructure_g.Base.{
  ◌+◌, ◌≡◌, ◌≢◌, refl, true, false, none, some, List, [], ◌∷◌, codes, All, pos, ◌+ℤ◌, leb_ℤ,
}
use backend_infrastructure_g.Iam.Security.{
  email, totp, SecurityState, Store, Clocks, consume_credential, save_security, save_settings,
  insert_consumption, record_consumption, spend, spent, prune, is_consumed,
  invalidate_password_credentials, consumption_life,
}
use backend_infrastructure_g.Iam.Security.Edits.{puts_mode, apply_edit}
use backend_infrastructure_g.Iam.Security.Snapshots.{
  Event, reads, saves, consumes, invalidates, elsewhere, System, nth, step, run,
  save_security_unlost,
}
use backend_infrastructure_g.Iam.Security.Once.{
  keeps_factor, is_until, IsUntil, KeepsFactor, totp_once,
}
use backend_infrastructure_g.Iam.Security.Challenges.{challenge_once}

abbrev with_factor : Store
with_factor = record {
  row = record {
    mode = totp;
    version = 4;
    secret = codes "sealed";
    pending_secret = [];
    pending_expires_at = none;
    last_totp_step = pos 100;
    recovery_hashes = [];
    recovery_codes_expires_at = none;
  };
  consumptions = [];
}

abbrev earlier_requests : List Event
earlier_requests = reads ∷ invalidates ∷ reads ∷ []

abbrev start : System
start = record { store = with_factor; snapshots = [] }

-- The snapshot of the second read.
abbrev second_read : SecurityState
second_read = record with_factor.row { version = 5 }

held : nth 0 (run earlier_requests start).snapshots ≡ some second_read
unfolding nth run step invalidate_password_credentials
held = refl

accepted :
    (save_security false true
      (apply_edit (puts_mode totp) second_read)
      5
      (run earlier_requests start).store).1
    ≡ none
unfolding save_security save_settings apply_edit run step invalidate_password_credentials
accepted = refl

save_security_unlost_example :
    (second_read ≡ (run earlier_requests start).store.row)
    × ((save_security false true
          (apply_edit (puts_mode totp) second_read)
          second_read.version
          (run earlier_requests start).store).0.row
        ≡ record (apply_edit (puts_mode totp) (run earlier_requests start).store.row) {
          version = (run earlier_requests start).store.row.version + 1;
        })
save_security_unlost_example =
    save_security_unlost with_factor earlier_requests false true 0 (puts_mode totp) second_read held
      accepted

-- The database's clock is a little ahead.
abbrev at_seven : Clocks
at_seven = record { service = pos 7; database = pos 8 }

abbrev at_nine : Clocks
at_nine = record { service = pos 9; database = pos 10 }

proved :
    (consume_credential false at_seven
      (codes "c")
      5
      (pos 101)
      []
      (run earlier_requests start).store).1
    ≡ none
unfolding consume_credential insert_consumption record_consumption prune is_consumed spend spent run
    step invalidate_password_credentials
proved = refl

abbrev later_requests : List Event
later_requests =
    saves false true 1 (puts_mode email) ∷ elsewhere (pos 9) (codes "e") (pos 99) ∷ reads ∷ []

kept : All KeepsFactor later_requests
unfolding keeps_factor
kept = (refl, (refl, (refl, tt)))

totp_once_example :
    (consume_credential false at_nine
      (codes "d")
      6
      (pos 101)
      []
      (run later_requests (
        step
          (consumes false at_seven (codes "c") 5 (pos 101) [])
          (run earlier_requests start))).store).1
    ≢ none
totp_once_example =
    totp_once with_factor earlier_requests later_requests false false at_seven at_nine (codes "c")
      (codes "d") 5 6 (pos 101) (pos 101) proved kept refl

soon :
    All (IsUntil (at_seven.service +ℤ consumption_life)) later_requests
    × (leb_ℤ at_nine.database (at_seven.service +ℤ consumption_life) ≡ true)
unfolding is_until ◌+ℤ◌
soon = ((refl, (refl, (refl, tt))), refl)

named : codes "c" ≢ []
named = λ e. cc

challenge_once_example :
    (consume_credential false at_nine
      (codes "c")
      6
      (pos 102)
      []
      (run later_requests (
        step
          (consumes false at_seven (codes "c") 5 (pos 101) [])
          (run earlier_requests start))).store).1
    ≢ none
challenge_once_example =
    challenge_once (run earlier_requests start) later_requests false false at_seven at_nine
      (codes "c") 5 6 (pos 101) (pos 102) [] [] named proved soon.0 soon.1
