-- ===== src/Iam/Registration/Receipts.antt =====
-- A receipt is spent once.
use backend_infrastructure_g.Base.{
  ◌≡◌, ◌≢◌, refl, sym, ap, subst, ◌∙◌, inl, inr, Bool, true, Option, none, some, List, [], ◌∷◌,
  Text, ℤ, leb_ℤ, codes, ◌++◌, All, IsIn, arith, Option-cases, Bool-cases, not, ltb_ℤ,
}
use backend_infrastructure_g.Iam.AuthCache.{CodeReceipt}
use backend_infrastructure_g.Iam.Security.{Clocks, record_consumption}
use backend_infrastructure_g.Iam.Security.Snapshots.{or_same}
use backend_infrastructure_g.Iam.Security.Challenges.{
  record-IsIn, record_used, record_fresh, elsewhere-IsIn,
}
use backend_infrastructure_g.Iam.Registration.{
  Account, Registry, RegisterError, credential_of, spend_receipt, spend_optional, created, wanted,
  register_user, find_account, marked, verify_account, verify_email,
}

-- A transaction, with what it meets.
pub data Request : Type 0 where
  registers :
      Bool → (Account → List Account → Bool) → Clocks → Account → Option CodeReceipt → Request
  verifies : Bool → Clocks → Text → Text → CodeReceipt → Request

unfoldable pub apply : Request → Registry → Registry × Option RegisterError
unfolding register_user verify_email
apply (registers broken is_taken now a receipt) db = register_user broken is_taken now a receipt db
apply (verifies broken now id email r) db = verify_email broken now id email r db

-- A registration or verification, or a challenge of a login that ConsumeCredential records, for any
-- user, with the database's NOW(), its name and the end of its life.
pub data Event : Type 0 where
  requests : Request → Event
  challenges : ℤ → Text → ℤ → Event

unfoldable pub run : List Event → Registry → Registry
run [] db = db
run (requests e ∷ es) db = run es (apply e db).0
run (challenges database_now c expires_at ∷ es) db = run es (record db {
  consumptions =
      or_same db.consumptions (record_consumption database_now c expires_at db.consumptions);
})

-- The instants of a transaction, and the receipt that it spends.
abbrev pub at : Request → Clocks
at (registers broken is_taken now a receipt) = now
at (verifies broken now id email r) = now

abbrev pub receipt_of : Request → Registry → Option CodeReceipt
receipt_of (registers broken is_taken now a receipt) db = wanted db.settings receipt
receipt_of (verifies broken now id email r) db = some r

abbrev pub IsUntil : ℤ → Request → Type 0
IsUntil limit e = leb_ℤ (at e).database limit ≡ true

-- The database's clock is not past the limit at an event.
abbrev pub HappensUntil : ℤ → Event → Type 0
HappensUntil limit (requests e) = IsUntil limit e
HappensUntil limit (challenges database_now c expires_at) = leb_ℤ database_now limit ≡ true

-- A receipt that is spent has not expired, and is recorded.
spend_receipt-some :
    (now : Clocks) (r : CodeReceipt) (cs cs' : List (Text × ℤ))
    → spend_receipt now r cs ≡ some cs'
    → record_consumption now.database (credential_of r) r.expires_at cs ≡ some cs'
unfolding spend_receipt
spend_receipt-some now r cs cs' e = elim (Bool-cases (not (ltb_ℤ now.service r.expires_at))) [
  | inl over ↦ absurd (ground arith)
  | inr live ↦ ground arith
]

spend_receipt-fresh :
    (now : Clocks) (r : CodeReceipt) (cs cs' : List (Text × ℤ))
    → spend_receipt now r cs ≡ some cs'
    → IsIn (credential_of r, r.expires_at) cs'
spend_receipt-fresh now r cs cs' e =
    record_fresh now.database (credential_of r) r.expires_at cs cs'
      (spend_receipt-some now r cs cs' e)

spend_receipt-IsIn :
    (now : Clocks) (t : ℤ) (c : Text) (r : CodeReceipt) (cs cs' : List (Text × ℤ))
    → leb_ℤ now.database t ≡ true
    → spend_receipt now r cs ≡ some cs'
    → IsIn (c, t) cs
    → IsIn (c, t) cs'
spend_receipt-IsIn now t c r cs cs' h e m =
    record-IsIn now.database (credential_of r) c r.expires_at t cs cs' h
      (spend_receipt-some now r cs cs' e) m

spend_receipt-used :
    (now : Clocks) (t : ℤ) (r : CodeReceipt) (cs cs' : List (Text × ℤ))
    → leb_ℤ now.database t ≡ true
    → IsIn (credential_of r, t) cs
    → spend_receipt now r cs ≢ some cs'
spend_receipt-used now t r cs cs' h m = λ e.
    record_used now.database (credential_of r) r.expires_at t cs cs' h m
      (spend_receipt-some now r cs cs' e)

spend_optional-IsIn :
    (now : Clocks) (t : ℤ) (c : Text) (o : Option CodeReceipt) (cs cs' : List (Text × ℤ))
    → leb_ℤ now.database t ≡ true
    → spend_optional now o cs ≡ some cs'
    → IsIn (c, t) cs
    → IsIn (c, t) cs'
unfolding spend_optional
spend_optional-IsIn now t c none cs cs' h e m = subst (IsIn (c, t)) (ground arith) m
spend_optional-IsIn now t c (some r) cs cs' h e m = spend_receipt-IsIn now t c r cs cs' h e m

created-outcome :
    (taken : Bool) (a : Account) (receipt : Option CodeReceipt) (o : Option (List (Text × ℤ)))
    (db : Registry)
    → (created taken a receipt o db).1 ≡ none
    → o ≡ some (created taken a receipt o db).0.consumptions
unfolding created
created-outcome taken a receipt none db h = absurd (ground arith)
created-outcome taken a receipt (some cs) db h = ground arith

created-error :
    (taken : Bool) (a : Account) (receipt : Option CodeReceipt) (o : Option (List (Text × ℤ)))
    (db : Registry) {x : RegisterError}
    → (created taken a receipt o db).1 ≡ some x
    → (created taken a receipt o db).0 ≡ db
unfolding created
created-error taken a receipt none db h = refl
created-error taken a receipt (some cs) db h = ground arith

marked-outcome :
    (id : Text) (o : Option (List (Text × ℤ))) (db : Registry)
    → (marked id o db).1 ≡ none
    → o ≡ some (marked id o db).0.consumptions
unfolding marked
marked-outcome id none db h = absurd (ground arith)
marked-outcome id (some cs) db h = refl

marked-error :
    (id : Text) (o : Option (List (Text × ℤ))) (db : Registry) {x : RegisterError}
    → (marked id o db).1 ≡ some x
    → (marked id o db).0 ≡ db
unfolding marked
marked-error id none db h = refl
marked-error id (some cs) db h = absurd (ground arith)

verify_account-outcome :
    (now : Clocks) (id email : Text) (r : CodeReceipt) (o : Option Account) (db : Registry)
    → (verify_account now id email r o db).1 ≡ none
    → spend_receipt now r db.consumptions ≡ some (verify_account now id email r o db).0.consumptions
unfolding verify_account
verify_account-outcome now id email r none db h = absurd (ground arith)
verify_account-outcome now id email r (some a) db h =
    let m = marked id (spend_receipt now r db.consumptions) db in
    ground (arith, marked-outcome id (spend_receipt now r db.consumptions) db)

verify_account-error :
    (now : Clocks) (id email : Text) (r : CodeReceipt) (o : Option Account) (db : Registry)
    {x : RegisterError}
    → (verify_account now id email r o db).1 ≡ some x
    → (verify_account now id email r o db).0 ≡ db
unfolding verify_account
verify_account-error now id email r none db h = refl
verify_account-error now id email r (some a) db {x} h =
    ground (arith, marked-error id (spend_receipt now r db.consumptions) db {x = x})

-- An accepted transaction has spent its receipt, a refused one has changed nothing.
apply-outcome :
    (e : Request) (db : Registry)
    → (apply e db).1 ≡ none
    → spend_optional (at e) (receipt_of e db) db.consumptions ≡ some (apply e db).0.consumptions
unfolding apply spend_optional
apply-outcome (registers broken is_taken now a receipt) db h = ground (
  arith,
  created-outcome (is_taken a db.accounts) a (wanted db.settings receipt)
      (spend_optional now (wanted db.settings receipt) db.consumptions) db,
)
apply-outcome (verifies broken now id email r) db h =
    ground (arith, verify_account-outcome now id email r (find_account id db.accounts) db)

apply-error :
    (e : Request) (db : Registry) {x : RegisterError}
    → (apply e db).1 ≡ some x
    → (apply e db).0 ≡ db
unfolding apply
apply-error (registers broken is_taken now a receipt) db {x} h = ground (
  arith,
  created-error (is_taken a db.accounts) a (wanted db.settings receipt)
      (spend_optional now (wanted db.settings receipt) db.consumptions) db {x = x},
)
apply-error (verifies broken now id email r) db {x} h =
    ground (arith, verify_account-error now id email r (find_account id db.accounts) db {x = x})

apply-IsIn :
    (c : Text) (t : ℤ) (e : Request) (db : Registry)
    → IsUntil t e
    → IsIn (c, t) db.consumptions
    → IsIn (c, t) (apply e db).0.consumptions
apply-IsIn c t e db early m = elim (Option-cases (apply e db).1) [
  | inl done ↦
      spend_optional-IsIn (at e) t c (receipt_of e db) db.consumptions (apply e db).0.consumptions
        early (apply-outcome e db done) m
  | inr (x, refused) ↦ subst (λ d. IsIn (c, t) d.consumptions) (sym (apply-error e db refused)) m
]

run-IsIn :
    (c : Text) (t : ℤ) (es : List Event) (db : Registry)
    → All (HappensUntil t) es
    → IsIn (c, t) db.consumptions
    → IsIn (c, t) (run es db).consumptions
unfolding run
run-IsIn c t [] db early m = m
run-IsIn c t (requests e ∷ es) db early m =
    run-IsIn c t es (apply e db).0 early.1 (apply-IsIn c t e db early.0 m)
run-IsIn c t (challenges database_now d expires_at ∷ es) db early m =
    run-IsIn c t es _ early.1
      (elsewhere-IsIn database_now d c expires_at t db.consumptions early.0 m)

spends :
    (e : Request) (db : Registry) (r : CodeReceipt)
    → receipt_of e db ≡ some r
    → (apply e db).1 ≡ none
    → spend_receipt (at e) r db.consumptions ≡ some (apply e db).0.consumptions
unfolding spend_optional
spends e db r has done =
    ap (λ o. spend_optional (at e) o db.consumptions) (sym has) ∙ apply-outcome e db done

-- The receipt of an email code that Register or VerifyEmail has accepted is not accepted again by
-- either, until the database's clock has passed its end, whatever registrations, verifications and
-- logins of any users come between. Register spends a receipt only if the settings want one.
pub receipt_once :
    (e e' : Request) (es : List Event) (db : Registry) (r r' : CodeReceipt)
    → receipt_of e db ≡ some r
    → (apply e db).1 ≡ none
    → All (HappensUntil r.expires_at) es
    → IsUntil r.expires_at e'
    → receipt_of e' (run es (apply e db).0) ≡ some r'
    → r'.id ≡ r.id
    → (apply e' (run es (apply e db).0)).1 ≢ none
receipt_once e e' es db r r' has done early early' has' same_id = λ again.
    let db' = run es (apply e db).0 in
    let there = run-IsIn (credential_of r) r.expires_at es (apply e db).0 early (
      spend_receipt-fresh (at e) r db.consumptions (apply e db).0.consumptions
        (spends e db r has done)) in
    spend_receipt-used (at e') r.expires_at r' db'.consumptions (apply e' db').0.consumptions early'
      (subst (λ i. IsIn (codes "email:" ++ i, r.expires_at) db'.consumptions) (sym same_id) there)
      (spends e' db' r' has' again)
