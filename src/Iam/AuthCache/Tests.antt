-- ===== src/Iam/AuthCache/Tests.antt =====
-- A store whose hashes and lower case are the texts themselves.
use backend_infrastructure_g.Base.{
  ℕ, ◌<◌, ◌≡◌, refl, none, some, List, [], ◌∷◌, Text, codes, text_eq, trim_space, trim_left,
  is_space, length, All, arith, if◌then◌else◌, ltb, pos,
}
use backend_infrastructure_g.Iam.AuthCache.{
  login, Keys, invalid_code, rate_limited, ok, failed, drawn, Store, issue, issued, issue_script,
  count_request, increment, over_limit, cooldown_left, seconds_left, put_code, email_key,
  email_digest, code_digest, six_digits, verify_and_consume,
}
use backend_infrastructure_g.Iam.AuthCache.Guesses.{
  Guess, logs_in, verifies, is_wrong, IsWrong, guess_all, issue-verify_and_consume,
}
use backend_infrastructure_g.Iam.AuthCache.Cooldown.{Call, apply_all, issue_spaced}
use backend_infrastructure_g.Iam.AuthCache.Attempts.{
  Challenge, attempt, attempt_all, issue_challenge, issue_challenge-attempt,
}

abbrev plain : Store
plain = record { prefix = codes "auth:"; digest = λ x. x; lower = λ x. x }

abbrev no_keys : Keys
no_keys = record { entries = λ k. none; cooldowns = λ k. none; counters = λ k. none }

abbrev a : Text
a = codes "a@b.c"

abbrev sent_keys : Keys
sent_keys = (issue plain none 7 (drawn 42) (drawn (codes "r")) a login (codes "ip") no_keys).0

sent :
    (issue plain none 7 (drawn 42) (drawn (codes "r")) a login (codes "ip") no_keys).1
    ≡ ok (codes "000042")
unfolding issue issued issue_script count_request increment over_limit cooldown_left seconds_left
    six_digits put_code text_eq email_key email_digest code_digest
sent = refl

abbrev guesses : List Guess
guesses = logs_in 8 (codes "000041") ∷ verifies (pos 3) 9 (codes "000043") ∷ []

wrong : All (IsWrong plain a login (code_digest plain a login (codes "000042")) 600007) guesses
unfolding is_wrong code_digest email_key email_digest trim_space trim_left is_space text_eq
wrong = (refl, (refl, tt))

issue-verify_and_consume_example :
    (verify_and_consume plain none 500 a login
      (codes "000042")
      (guess_all plain a login guesses sent_keys)).1
    ≡ (if ltb (length guesses) 5 then none else some invalid_code)
issue-verify_and_consume_example =
    issue-verify_and_consume plain a login 7 500 42 (codes "r") (codes "ip") (codes "000042")
      guesses no_keys sent wrong (omega arith)

abbrev calls : List Call
calls =
    Call.logs_in none 8 a login (codes "000041")
    ∷ Call.issues none 9 (drawn 5) (drawn (codes "q")) a login (codes "ip2")
    ∷ []

issue_spaced_example :
    (r : ℕ) × (0 < r)
    × ((issue plain none 60000
          (drawn 43)
          (drawn (codes "t"))
          a
          login
          (codes "ip2")
          (apply_all plain calls sent_keys)).1
        ≡ failed (rate_limited r))
issue_spaced_example =
    issue_spaced plain 7 60000 42 43 (codes "r") (codes "t") a login (codes "ip") (codes "ip2")
      (codes "000042") calls no_keys sent (omega arith, (omega arith, tt)) (omega arith)

abbrev id : Text
id = codes "0123456789abcdef0123456789abcdef0123456789abcdef0123456789abcdef"

abbrev user_challenge : Challenge
user_challenge = record { user_id = codes "u"; version = 3 }

abbrev nows : List ℕ
nows = 8 ∷ 9 ∷ 10 ∷ 11 ∷ 12 ∷ []

issue_challenge-attempt_example :
    (attempt plain none 13 id (
      attempt_all plain id nows
        (issue_challenge plain none 7 (drawn id) user_challenge (λ k. none)).0)).1
    ≡ (if ltb (length nows) 5 then ok user_challenge else failed invalid_code)
issue_challenge-attempt_example =
    issue_challenge-attempt plain 7 13 id user_challenge nows (λ k. none) refl
      (omega arith, (omega arith, (omega arith, (omega arith, (omega arith, tt))))) (omega arith)
