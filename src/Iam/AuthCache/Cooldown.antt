-- ===== src/Iam/AuthCache/Cooldown.antt =====
-- The pause between two codes for one address.
use backend_infrastructure_g.Base.{
  ℕ, ◌+◌, ◌<◌, ◌≡◌, refl, sym, ap, ◌∙◌, inl, inr, Bool, true, false, Option, none, some, List, [],
  ◌∷◌, ◌++◌, Text, codes, text_eq, text_eq_refl, text_eq_sound, ltb, All, ℤ, arith, Bool-cases,
  Option-cases,
}
use backend_infrastructure_g.Iam.AuthCache.{
  Purpose, Keys, CodeReceipt, rate_limited, Fault, ok, failed, Drawn, drawn, undrawn, seconds_left,
  cooldown_left, live_entry, verify_script, verify_entry, consume_script, consume_entry,
  issue_script, count_request, put_code, Store, issued, accepted, receipt_of, consumed,
  email_digest, email_key, code_digest, six_digits, issue, verify, verify_and_consume, consume,
}

-- The calls of the store, with what the calls outside give them.
pub data Call : Type 0 where
  issues : Option Fault → ℕ → Drawn ℕ → Drawn Text → Text → Purpose → Text → Call
  verifies : Option Fault → ℤ → ℕ → Text → Purpose → Text → Call
  logs_in : Option Fault → ℕ → Text → Purpose → Text → Call
  consumes : Option Fault → ℕ → Text → Purpose → CodeReceipt → Call

-- The instant of a call, on Redis' clock.
abbrev at : Call → ℕ
at (issues fault now n id email purpose ip) = now
at (verifies fault started now email purpose code) = now
at (logs_in fault now email purpose code) = now
at (consumes fault now email purpose receipt) = now

abbrev pub IsBefore : ℕ → Call → Type 0
IsBefore limit c = at c < limit

verify_script-cooldowns :
    (now : ℕ) (key digest : Text) (consume : Bool) (db : Keys)
    → (verify_script now key digest consume db).0.cooldowns ≡ db.cooldowns
unfolding verify_script verify_entry
verify_script-cooldowns now key digest consume db =
    elim (Option-cases (live_entry now (db.entries key))) [
      | inl gone ↦ ground arith
      | inr (e, live) ↦ ground arith
    ]

consume_script-cooldowns :
    (now : ℕ) (key id : Text) (db : Keys)
    → (consume_script now key id db).0.cooldowns ≡ db.cooldowns
unfolding consume_script consume_entry
consume_script-cooldowns now key id db = elim (Option-cases (live_entry now (db.entries key))) [
  | inl gone ↦ ground arith
  | inr (e, live) ↦ ground arith
]

-- A script that issues within a cooldown is refused, and leaves every cooldown.
issue_script-refused :
    (now t : ℕ) (key email_k ip_k digest id : Text) (db : Keys)
    → db.cooldowns key ≡ some t
    → now < t
    → ((issue_script now key email_k ip_k digest id db).0.cooldowns ≡ db.cooldowns)
      × (0 < (issue_script now key email_k ip_k digest id db).1)
unfolding issue_script count_request cooldown_left seconds_left
issue_script-refused now t key email_k ip_k digest id db cools early = (ground arith, ground arith)

issue_script-other :
    (now : ℕ) (key key' email_k ip_k digest id : Text) (db : Keys)
    → text_eq key' key ≡ false
    → (issue_script now key email_k ip_k digest id db).0.cooldowns key' ≡ db.cooldowns key'
unfolding issue_script count_request put_code
issue_script-other now key key' email_k ip_k digest id db other = ground arith

issue_script-cools :
    (now : ℕ) (key email_k ip_k digest id : Text) (db : Keys)
    → (issue_script now key email_k ip_k digest id db).1 ≡ 0
    → (issue_script now key email_k ip_k digest id db).0.cooldowns key ≡ some (now + 60000)
unfolding issue_script put_code
issue_script-cools now key email_k ip_k digest id db h = ground (arith, text_eq_refl key)

module _ (s : Store) where
  unfoldable pub apply : Call → Keys → Keys
  apply (issues fault now n id email purpose ip) db = (issue s fault now n id email purpose ip db).0
  apply (verifies fault started now email purpose code) db =
      (verify s fault started now email purpose code db).0
  apply (logs_in fault now email purpose code) db =
      (verify_and_consume s fault now email purpose code db).0
  apply (consumes fault now email purpose receipt) db =
      (consume s fault now email purpose receipt db).0

  unfoldable pub apply_all : List Call → Keys → Keys
  apply_all [] db = db
  apply_all (c ∷ cs) db = apply_all cs (apply c db)

  issued-keys : (code : Text) (p : Keys × ℕ) → (issued s code p).0 ≡ p.0
  unfolding issued
  issued-keys code (db, retry) = refl

  issued-wait :
      (code : Text) (p : Keys × ℕ) → 0 < p.1 → (issued s code p).1 ≡ failed (rate_limited p.1)
  unfolding issued
  issued-wait code (db, retry) h = ground arith

  receipt_of-keys : (started : ℤ) (p : Keys × Option (Text × ℕ)) → (receipt_of s started p).0 ≡ p.0
  unfolding receipt_of
  receipt_of-keys started (db, none) = refl
  receipt_of-keys started (db, some (id, left)) = refl

  accepted-keys : (p : Keys × Option (Text × ℕ)) → (accepted s p).0 ≡ p.0
  unfolding accepted
  accepted-keys (db, none) = refl
  accepted-keys (db, some x) = refl

  consumed-keys : (p : Keys × Bool) → (consumed s p).0 ≡ p.0
  unfolding consumed
  consumed-keys (db, true) = refl
  consumed-keys (db, false) = refl

  -- The script of `issue`, in a cooldown or not.
  issue_script-keeps :
      (now t : ℕ) (key key' email_k ip_k digest id : Text) (db : Keys)
      → db.cooldowns key ≡ some t
      → now < t
      → (issue_script now key' email_k ip_k digest id db).0.cooldowns key ≡ some t
  issue_script-keeps now t key key' email_k ip_k digest id db cools early =
      elim (Bool-cases (text_eq key key')) [
        | inl same ↦
            let same_cools = ap (λ k. db.cooldowns k) (sym (text_eq_sound key key' same)) ∙ cools in
            ap (λ f. f key)
              (issue_script-refused now t key' email_k ip_k digest id db same_cools early).0
            ∙ cools
        | inr other ↦ issue_script-other now key' key email_k ip_k digest id db other ∙ cools
      ]

  issue-keeps :
      (fault : Option Fault) (now t : ℕ) (n : Drawn ℕ) (id : Drawn Text) (email : Text)
      (purpose : Purpose) (ip key : Text) (db : Keys)
      → db.cooldowns key ≡ some t
      → now < t
      → (issue s fault now n id email purpose ip db).0.cooldowns key ≡ some t
  unfolding issue
  issue-keeps fault now t (undrawn f) id email purpose ip key db cools early = cools
  issue-keeps fault now t (drawn n) (undrawn f) email purpose ip key db cools early = cools
  issue-keeps (some f) now t (drawn n) (drawn id) email purpose ip key db cools early = cools
  issue-keeps none now t (drawn n) (drawn id) email purpose ip key db cools early =
      let email_k = s.prefix ++ codes "limit:email:" ++ email_digest s email in
      let ip_k = s.prefix ++ codes "limit:ip:" ++ s.digest ip in
      let digest = code_digest s email purpose (six_digits n) in
      ap (λ d. d.cooldowns key)
        (issued-keys (six_digits n)
          (issue_script now (email_key s email purpose) email_k ip_k digest id db))
      ∙ issue_script-keeps now t key (email_key s email purpose) email_k ip_k digest id db cools
          early

  apply-keeps :
      (c : Call) (t : ℕ) (key : Text) (db : Keys)
      → db.cooldowns key ≡ some t
      → IsBefore t c
      → (apply c db).cooldowns key ≡ some t
  unfolding apply verify verify_and_consume consume
  apply-keeps (issues fault now n id email purpose ip) t key db cools early =
      issue-keeps fault now t n id email purpose ip key db cools early
  apply-keeps (verifies (some f) started now email purpose code) t key db cools early = cools
  apply-keeps (verifies none started now email purpose code) t key db cools early =
      rw
        (receipt_of-keys started (
          verify_script now (email_key s email purpose) (code_digest s email purpose code) false
            db))
        (rw
          (verify_script-cooldowns now (email_key s email purpose)
            (code_digest s email purpose code) false db)
          cools)
  apply-keeps (logs_in (some f) now email purpose code) t key db cools early = cools
  apply-keeps (logs_in none now email purpose code) t key db cools early =
      rw
        (accepted-keys (
          verify_script now (email_key s email purpose) (code_digest s email purpose code) true db))
        (rw
          (verify_script-cooldowns now (email_key s email purpose)
            (code_digest s email purpose code) true db)
          cools)
  apply-keeps (consumes (some f) now email purpose receipt) t key db cools early = cools
  apply-keeps (consumes none now email purpose receipt) t key db cools early =
      rw (consumed-keys (consume_script now (email_key s email purpose) receipt.id db))
        (rw (consume_script-cooldowns now (email_key s email purpose) receipt.id db) cools)

  apply_all-keeps :
      (cs : List Call) (t : ℕ) (key : Text) (db : Keys)
      → db.cooldowns key ≡ some t
      → All (IsBefore t) cs
      → (apply_all cs db).cooldowns key ≡ some t
  unfolding apply_all
  apply_all-keeps [] t key db cools early = cools
  apply_all-keeps (c ∷ cs) t key db cools early =
      apply_all-keeps cs t key (apply c db) (apply-keeps c t key db cools early.0) early.1

  issued-zero : (c code : Text) (p : Keys × ℕ) → (issued s c p).1 ≡ ok code → p.1 ≡ 0
  unfolding issued
  issued-zero c code (db, retry) h = elim (Bool-cases (ltb 0 retry)) [
    | inl wait ↦ absurd (ground arith)
    | inr now ↦ ground arith
  ]

  issue-cools :
      (now n : ℕ) (id email : Text) (purpose : Purpose) (ip code : Text) (db : Keys)
      → (issue s none now (drawn n) (drawn id) email purpose ip db).1 ≡ ok code
      → (issue s none now (drawn n) (drawn id) email purpose ip db).0.cooldowns
          (email_key s email purpose)
        ≡ some (now + 60000)
  unfolding issue
  issue-cools now n id email purpose ip code db sent =
      let email_k = s.prefix ++ codes "limit:email:" ++ email_digest s email in
      let ip_k = s.prefix ++ codes "limit:ip:" ++ s.digest ip in
      let digest = code_digest s email purpose (six_digits n) in
      let ran = issue_script now (email_key s email purpose) email_k ip_k digest id db in
      ap (λ d. d.cooldowns (email_key s email purpose)) (issued-keys (six_digits n) ran)
      ∙ issue_script-cools now (email_key s email purpose) email_k ip_k digest id db
          (issued-zero (six_digits n) code ran sent)

  issue-waits :
      (now t n : ℕ) (id email : Text) (purpose : Purpose) (ip : Text) (db : Keys)
      → db.cooldowns (email_key s email purpose) ≡ some t
      → now < t
      → (r : ℕ) × (0 < r)
        × ((issue s none now (drawn n) (drawn id) email purpose ip db).1 ≡ failed (rate_limited r))
  unfolding issue
  issue-waits now t n id email purpose ip db cools early =
      let email_k = s.prefix ++ codes "limit:email:" ++ email_digest s email in
      let ip_k = s.prefix ++ codes "limit:ip:" ++ s.digest ip in
      let digest = code_digest s email purpose (six_digits n) in
      let ran = issue_script now (email_key s email purpose) email_k ip_k digest id db in
      let (_, wait) =
        issue_script-refused now t (email_key s email purpose) email_k ip_k digest id db cools
          early in
      (ran.1, wait, issued-wait (six_digits n) ran wait)

  -- After Issue has sent a code to an address for a purpose, and any calls of the store within a
  -- minute, whoever makes them, another Issue for the address and the purpose within the minute is
  -- refused with a RateLimitError that asks for a wait of at least a second.
  pub issue_spaced :
      (now now' n n' : ℕ) (id id' email : Text) (purpose : Purpose) (ip ip' code : Text)
      (calls : List Call) (db : Keys)
      → (issue s none now (drawn n) (drawn id) email purpose ip db).1 ≡ ok code
      → All (IsBefore (now + 60000)) calls
      → now' < now + 60000
      → (r : ℕ) × (0 < r)
        × ((issue s none now'
              (drawn n')
              (drawn id')
              email
              purpose
              ip'
              (apply_all calls (issue s none now (drawn n) (drawn id) email purpose ip db).0)).1
            ≡ failed (rate_limited r))
  issue_spaced now now' n n' id id' email purpose ip ip' code calls db sent early early' =
      issue-waits now' (now + 60000) n' id' email purpose ip'
        (apply_all calls (issue s none now (drawn n) (drawn id) email purpose ip db).0)
        (apply_all-keeps calls (now + 60000) (email_key s email purpose)
          (issue s none now (drawn n) (drawn id) email purpose ip db).0
          (issue-cools now n id email purpose ip code db sent) early)
        early'
