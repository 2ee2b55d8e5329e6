-- ===== src/Iam/Registration.antt =====
-- pkg/platform/database/iamstore/authentication.go: the transactions Register and VerifyEmail, which
-- spend the receipt of an email code. A transaction that returns an error leaves the tables as they
-- were; `fault` is any other error of the database. Which new users the database refuses as
-- duplicates is the parameter `is_taken`.
pub mod Receipts
mod Tests
use backend_infrastructure_g.Base.{
  Bool, true, false, not, ◌&&◌, ◌||◌, Option, none, some, List, [], ◌∷◌, ◌++◌, Text, codes, text_eq,
  ℤ, ltb_ℤ, length, leb, if◌then◌else◌,
}
use backend_infrastructure_g.Iam.AuthCache.{CodeReceipt}
use backend_infrastructure_g.Iam.Security.{Clocks, record_consumption}
use backend_infrastructure_g.Iam.Authentication.{AuthenticationState}

pub record Account : Type 0 where
  pub id : Text
  pub email : Text
  pub username : Text
  pub password_hash : Text
  pub active : Bool
  pub email_verified : Bool

pub record Registry : Type 0 where
  pub settings : AuthenticationState
  pub consumptions : List (Text × ℤ)
  pub accounts : List Account

pub data RegisterError : Type 0 where
  forbidden email_code_required invalid_code duplicate_identity : RegisterError
  not_found inactive_user security_conflict fault : RegisterError

-- `strings.HasSuffix`
unfoldable pub has_suffix : Text → Text → Bool
has_suffix suffix [] = text_eq [] suffix
has_suffix suffix (c ∷ t) = text_eq (c ∷ t) suffix || has_suffix suffix t

-- Whether one of the domains is the address's.
unfoldable pub any_domain : Text → List Text → Bool
unfolding has_suffix
any_domain email [] = false
any_domain email (d ∷ ds) = has_suffix (codes "@" ++ d) email || any_domain email ds

abbrev pub credential_of : CodeReceipt → Text
credential_of r = codes "email:" ++ r.id

-- The receipt must not have expired by the service's clock, and is recorded until it expires; the
-- table is pruned by the database's clock. `none` stands for ErrInvalidCode.
unfoldable pub spend_receipt : Clocks → CodeReceipt → List (Text × ℤ) → Option (List (Text × ℤ))
unfolding record_consumption
spend_receipt now r cs =
    if not (ltb_ℤ now.service r.expires_at)
    then none
    else record_consumption now.database (credential_of r) r.expires_at cs

-- The receipt of a registration, which may have none.
unfoldable pub spend_optional :
    Clocks → Option CodeReceipt → List (Text × ℤ) → Option (List (Text × ℤ))
unfolding spend_receipt
spend_optional now none cs = some cs
spend_optional now (some r) cs = spend_receipt now r cs

abbrev is_some : Option CodeReceipt → Bool
is_some none = false
is_some (some r) = true

abbrev is_nil : List Text → Bool
is_nil [] = true
is_nil (d ∷ ds) = false

-- CreateUser with the default role, and MarkEmailVerified if there was a receipt.
created :
    Bool
    → Account
    → Option CodeReceipt
    → Option (List (Text × ℤ))
    → Registry
    → Registry × Option RegisterError
created taken a receipt none db = (db, some invalid_code)
created taken a receipt (some cs) db = if taken then (db, some duplicate_identity) else (
  record db {
    consumptions = cs;
    accounts = db.accounts ++ (record a { email_verified = is_some receipt }) ∷ [];
  },
  none,
)

-- The receipt counts only if the settings want one.
abbrev wanted : AuthenticationState → Option CodeReceipt → Option CodeReceipt
wanted s receipt = if s.registration_email_verification_required then receipt else none

-- `Register`
unfoldable pub register_user :
    Bool
    → (Account → List Account → Bool)
    → Clocks
    → Account
    → Option CodeReceipt
    → Registry
    → Registry × Option RegisterError
unfolding any_domain spend_optional created
register_user broken is_taken now a receipt db =
    if broken
    then (db, some fault)
    else (if not db.settings.initialized_at || not db.settings.registration_enabled
        then (db, some forbidden)
        else (if db.settings.registration_email_verification_required && not (is_some receipt)
            then (db, some email_code_required)
            else (if not (is_nil db.settings.allowed_email_domains)
                  && not (any_domain a.email db.settings.allowed_email_domains)
                then (db, some forbidden)
                else created (is_taken a db.accounts) a (wanted db.settings receipt)
                    (spend_optional now (wanted db.settings receipt) db.consumptions) db)))

unfoldable pub find_account : Text → List Account → Option Account
find_account id [] = none
find_account id (a ∷ others) =
    let rest = find_account id others in if text_eq a.id id then some a else rest

-- MarkEmailVerified
unfoldable pub mark_verified : Text → List Account → List Account
mark_verified id [] = []
mark_verified id (a ∷ others) =
    let rest = mark_verified id others in
    (if text_eq a.id id then record a { email_verified = true } else a) ∷ rest

marked : Text → Option (List (Text × ℤ)) → Registry → Registry × Option RegisterError
unfolding mark_verified
marked id none db = (db, some invalid_code)
marked id (some cs) db =
    (record db { consumptions = cs; accounts = mark_verified id db.accounts }, none)

verify_account :
    Clocks → Text → Text → CodeReceipt → Option Account → Registry → Registry × Option RegisterError
unfolding spend_receipt marked
verify_account now id email r none db = (db, some not_found)
verify_account now id email r (some a) db =
    if not a.active
    then (db, some inactive_user)
    else (if not (text_eq a.email email)
        then (db, some security_conflict)
        else (if text_eq r.id []
            then (db, some invalid_code)
            else marked id (spend_receipt now r db.consumptions) db))

-- `VerifyEmail`
unfoldable pub verify_email :
    Bool → Clocks → Text → Text → CodeReceipt → Registry → Registry × Option RegisterError
unfolding verify_account find_account
verify_email broken now id email r db =
    if broken
    then (db, some fault)
    else verify_account now id email r (find_account id db.accounts) db
