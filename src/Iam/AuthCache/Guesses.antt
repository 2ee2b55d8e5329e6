-- ===== src/Iam/AuthCache/Guesses.antt =====
-- How many guesses a code stands.
use backend_infrastructure_g.Base.{
  ℕ, ◌+◌, ◌-◌, ◌<◌, ◌≡◌, refl, ◌∙◌, inl, inr, Bool, true, false, Option, none, some, List, [], ◌∷◌,
  ◌++◌, Text, codes, text_eq, text_eq_refl, ltb, leb, length, All, ℤ, arith, if◌then◌else◌,
  Bool-cases, Option-cases,
}
use backend_infrastructure_g.Iam.AuthCache.{
  Purpose, Entry, Keys, invalid_code, ok, drawn, live_entry, verify_script, issue_script, put_code,
  Store, issued, accepted, email_digest, email_key, code_digest, six_digits, issue, verify,
  verify_and_consume,
}

wrong_entry :
    (now : ℕ) (key digest : Text) (consume : Bool) (e : Entry) (db : Keys)
    → db.entries key ≡ some e
    → now < e.expires_at
    → text_eq e.digest digest ≡ false
    → (verify_script now key digest consume db).0.entries key
      ≡ some (record e { errors = if leb 5 e.errors then e.errors else e.errors + 1 })
unfolding verify_script live_entry
wrong_entry now key digest consume e db there live wrong = ground (arith, text_eq_refl key)

right_entry :
    (now : ℕ) (key digest : Text) (consume : Bool) (e : Entry) (db : Keys)
    → db.entries key ≡ some e
    → now < e.expires_at
    → text_eq e.digest digest ≡ true
    → (verify_script now key digest consume db).1
      ≡ (if leb 5 e.errors then none else some (e.id, e.expires_at - now))
unfolding verify_script live_entry
right_entry now key digest consume e db there live right = ground (arith, text_eq_refl key)

-- One try of a code, by VerifyAndConsume or by Verify.
pub data Guess : Type 0 where
  logs_in : ℕ → Text → Guess
  verifies : ℤ → ℕ → Text → Guess

module _ (s : Store) (email : Text) (purpose : Purpose) where
  unfoldable pub guess : Guess → Keys → Keys
  guess (logs_in now code) db = (verify_and_consume s none now email purpose code db).0
  guess (verifies started now code) db = (verify s none started now email purpose code db).0

  unfoldable pub guess_all : List Guess → Keys → Keys
  guess_all [] db = db
  guess_all (g ∷ gs) db = guess_all gs (guess g db)

  -- A guess before `limit` of a code whose hash is not `digest`.
  unfoldable pub is_wrong : Text → ℕ → Guess → Bool
  is_wrong digest limit (logs_in now code) =
      if text_eq digest (code_digest s email purpose code) then false else ltb now limit
  is_wrong digest limit (verifies started now code) =
      if text_eq digest (code_digest s email purpose code) then false else ltb now limit

  abbrev pub IsWrong : Text → ℕ → Guess → Type 0
  IsWrong digest limit g = is_wrong digest limit g ≡ true

  logs_in-keys :
      (now : ℕ) (code : Text) (db : Keys)
      → guess (logs_in now code) db
        ≡ (verify_script now
            (email_key s email purpose)
            (code_digest s email purpose code)
            true
            db).0
  unfolding guess verify_and_consume
  logs_in-keys now code db =
      elim (Option-cases
        (verify_script now (email_key s email purpose) (code_digest s email purpose code) true
          db).1) [ inl n ↦ ground arith | inr (x, y) ↦ ground arith ]

  verifies-keys :
      (started : ℤ) (now : ℕ) (code : Text) (db : Keys)
      → guess (verifies started now code) db
        ≡ (verify_script now
            (email_key s email purpose)
            (code_digest s email purpose code)
            false
            db).0
  unfolding guess verify
  verifies-keys started now code db =
      elim (Option-cases
        (verify_script now (email_key s email purpose) (code_digest s email purpose code) false
          db).1) [ inl n ↦ ground arith | inr (x, y) ↦ ground arith ]

  wrong_guess :
      (g : Guess) (e : Entry) (db : Keys)
      → db.entries (email_key s email purpose) ≡ some e
      → IsWrong e.digest e.expires_at g
      → (guess g db).entries (email_key s email purpose)
        ≡ some (record e { errors = if leb 5 e.errors then e.errors else e.errors + 1 })
  unfolding is_wrong
  wrong_guess (logs_in now code) e db there wrong = rw (logs_in-keys now code db) (
      wrong_entry now (email_key s email purpose) (code_digest s email purpose code) true e db there
        (ground arith) (ground arith))
  wrong_guess (verifies started now code) e db there wrong =
      rw (verifies-keys started now code db) (
        wrong_entry now (email_key s email purpose) (code_digest s email purpose code) false e db
          there (ground arith) (ground arith))

  -- The entry after wrong guesses: as it was, and at most five errors more.
  wrong_guesses :
      (gs : List Guess) (e : Entry) (db : Keys)
      → db.entries (email_key s email purpose) ≡ some e
      → All (IsWrong e.digest e.expires_at) gs
      → (n : ℕ) × ((guess_all gs db).entries (email_key s email purpose)
          ≡ some (record e { errors = n }))
        × (leb 5 n ≡ leb 5 (e.errors + length gs))
  unfolding guess_all
  wrong_guesses [] e db there wrong = (e.errors, there, ground arith)
  wrong_guesses (g ∷ gs) e db there wrong =
      let (n, after, count) =
        wrong_guesses gs (record e { errors = if leb 5 e.errors then e.errors else e.errors + 1 })
          (guess g db) (wrong_guess g e db there wrong.0) wrong.1 in
      (n, after, ground arith)

  -- What is stored when `Issue` returns a code.
  issue_script-entry :
      (now : ℕ) (key email_k ip_k digest id : Text) (db : Keys)
      → (issue_script now key email_k ip_k digest id db).1 ≡ 0
      → (issue_script now key email_k ip_k digest id db).0.entries key
        ≡ some record { digest = digest; id = id; errors = 0; expires_at = now + 600000 }
  unfolding issue_script put_code
  issue_script-entry now key email_k ip_k digest id db h = ground (arith, text_eq_refl key)

  issued-ok :
      (c code : Text) (p : Keys × ℕ)
      → (issued s c p).1 ≡ ok code
      → (p.1 ≡ 0) × (code ≡ c) × ((issued s c p).0 ≡ p.0)
  unfolding issued
  issued-ok c code (db, retry) h = elim (Bool-cases (ltb 0 retry)) [
    | inl wait ↦ absurd (ground arith)
    | inr now ↦ (ground arith, ground arith, refl)
  ]

  accepted-none : (p : Keys × Option (Text × ℕ)) → p.1 ≡ none → (accepted s p).1 ≡ some invalid_code
  unfolding accepted
  accepted-none (db, none) h = refl
  accepted-none (db, some x) h = absurd (ground arith)

  accepted-some :
      (p : Keys × Option (Text × ℕ)) {x : Text × ℕ} → p.1 ≡ some x → (accepted s p).1 ≡ none
  unfolding accepted
  accepted-some (db, none) h = absurd (ground arith)
  accepted-some (db, some y) h = refl

  pub issue-entry :
      (now n : ℕ) (id ip code : Text) (db : Keys)
      → (issue s none now (drawn n) (drawn id) email purpose ip db).1 ≡ ok code
      → (code ≡ six_digits n)
        × ((issue s none now (drawn n) (drawn id) email purpose ip db).0.entries
              (email_key s email purpose)
            ≡ some record {
              digest = code_digest s email purpose code;
              id = id;
              errors = 0;
              expires_at = now + 600000;
            })
  unfolding issue
  issue-entry now n id ip code db h =
      let ran =
        issue_script now (email_key s email purpose)
          (s.prefix ++ codes "limit:email:" ++ email_digest s email)
          (s.prefix ++ codes "limit:ip:" ++ s.digest ip)
          (code_digest s email purpose (six_digits n)) id db in
      let (done, same, kept) = issued-ok (six_digits n) code ran h in
      (
        same,
        rw kept (
            rw same (
              issue_script-entry now (email_key s email purpose)
                (s.prefix ++ codes "limit:email:" ++ email_digest s email)
                (s.prefix ++ codes "limit:ip:" ++ s.digest ip)
                (code_digest s email purpose (six_digits n)) id db done)),
      )

  right_guess :
      (now : ℕ) (code : Text) (e : Entry) (db : Keys)
      → db.entries (email_key s email purpose) ≡ some e
      → now < e.expires_at
      → e.digest ≡ code_digest s email purpose code
      → (verify_and_consume s none now email purpose code db).1
        ≡ (if leb 5 e.errors then some invalid_code else none)
  unfolding verify_and_consume
  right_guess now code e db there live same =
      let looked =
        right_entry now (email_key s email purpose) (code_digest s email purpose code) true e db
          there live (ground (arith, text_eq_refl e.digest)) in
      elim (Bool-cases (leb 5 e.errors)) [
        | inl spent ↦ rw spent (
            accepted-none
              (verify_script now (email_key s email purpose) (code_digest s email purpose code) true
                db)
              (looked ∙ rw spent refl))
        | inr unspent ↦ rw unspent (
            accepted-some
              (verify_script now (email_key s email purpose) (code_digest s email purpose code) true
                db)
              {x = (e.id, e.expires_at - now)} (looked ∙ rw unspent refl))
      ]

  -- After Issue has sent a code, and any number of other guesses at it in its ten minutes, by
  -- VerifyAndConsume and by Verify, VerifyAndConsume accepts the code within the ten minutes if there
  -- were fewer than five guesses, and answers ErrInvalidCode from then on. A guess is another if its
  -- hash is another.
  pub issue-verify_and_consume :
      (now now' n : ℕ) (id ip code : Text) (gs : List Guess) (db : Keys)
      → (issue s none now (drawn n) (drawn id) email purpose ip db).1 ≡ ok code
      → All (IsWrong (code_digest s email purpose code) (now + 600000)) gs
      → now' < now + 600000
      → (verify_and_consume s none now' email purpose code
          (guess_all gs (issue s none now (drawn n) (drawn id) email purpose ip db).0)).1
        ≡ (if ltb (length gs) 5 then none else some invalid_code)
  issue-verify_and_consume now now' n id ip code gs db sent wrong early =
      let (_, stored) = issue-entry now n id ip code db sent in
      let (errors, after, count) =
        wrong_guesses gs
          record {
            digest = code_digest s email purpose code;
            id = id;
            errors = 0;
            expires_at = now + 600000;
          }
          (issue s none now (drawn n) (drawn id) email purpose ip db).0 stored wrong in
      right_guess now' code
        record {
          digest = code_digest s email purpose code;
          id = id;
          errors = errors;
          expires_at = now + 600000;
        }
        (guess_all gs (issue s none now (drawn n) (drawn id) email purpose ip db).0) after early
        refl
      ∙ ground arith
