-- ===== src/Iam/Registration/Tests.antt =====
-- A registration that needs a code, and its receipt tried again.
use backend_infrastructure_g.Base.{
  ◌≡◌, ◌≢◌, refl, true, false, none, some, [], ◌∷◌, codes, text_eq, pos,
}
use backend_infrastructure_g.Iam.AuthCache.{CodeReceipt}
use backend_infrastructure_g.Iam.Security.{Clocks, record_consumption}
use backend_infrastructure_g.Iam.Registration.{
  Account, Registry, register_user, any_domain, has_suffix, spend_optional, spend_receipt,
}
use backend_infrastructure_g.Iam.Registration.Receipts.{
  Request, requests, challenges, registers, verifies, apply, run, receipt_once,
}

abbrev ann : Account
ann = record {
  id = codes "u1";
  email = codes "ann@b.c";
  username = codes "ann";
  password_hash = codes "h";
  active = true;
  email_verified = false;
}

abbrev empty : Registry
empty = record {
  settings = record {
    password_login_enabled = true;
    registration_enabled = true;
    registration_email_verification_required = true;
    allowed_email_domains = codes "b.c" ∷ [];
    bootstrap_admin_user_id = codes "u0";
    initialized_at = true;
  };
  consumptions = [];
  accounts = [];
}

abbrev receipt : CodeReceipt
receipt = record { id = codes "r"; expires_at = pos 600 }

-- The database's clock is a little ahead.
abbrev at_five : Clocks
at_five = record { service = pos 5; database = pos 6 }

abbrev at_seven : Clocks
at_seven = record { service = pos 7; database = pos 8 }

abbrev first_use : Request
first_use = registers false (λ a as_. false) at_five ann (some receipt)

registers_ann : (apply first_use empty).1 ≡ none
unfolding apply register_user any_domain has_suffix spend_optional spend_receipt record_consumption
    text_eq
registers_ann = refl

receipt_once_example :
    (apply (verifies false at_seven (codes "u1") (codes "ann@b.c") receipt) (
      run
        (requests first_use ∷ challenges (pos 9) (codes "c") (pos 99) ∷ [])
        (apply first_use empty).0)).1
    ≢ none
receipt_once_example =
    receipt_once first_use (verifies false at_seven (codes "u1") (codes "ann@b.c") receipt)
      (requests first_use ∷ challenges (pos 9) (codes "c") (pos 99) ∷ []) empty receipt receipt refl
      registers_ann (refl, (refl, tt)) refl refl refl
