-- ===== src/Iam/AuthCache.antt =====
-- pkg/platform/authcache/redis.go: the codes sent by email, in Redis. The keys of the codes, of their
-- cooldowns and of the counters are tables by key, with instants in milliseconds on Redis' clock; a key
-- whose end has come counts as absent. Each script runs as one step. HMAC-SHA-256 with its hex text,
-- strings.ToLower, the random number and the random id are parameters, and `Fault` is what made a
-- call fail before it did anything.
pub mod Guesses
pub mod Attempts
pub mod Cooldown
mod Tests
use backend_infrastructure_g.Base.{
  ℕ, ◌+◌, ◌-◌, ◌*◌, ◌/◌, ◌%◌, Bool, true, false, not, ◌&&◌, ◌||◌, Option, none, some, List, [], ◌∷◌,
  ◌++◌, Text, codes, text_eq, trim_space, set, del, ltb, leb, ◌==◌, length, ℤ, pos, ◌+ℤ◌,
  if◌then◌else◌,
}

pub data Purpose : Type 0 where
  register login verify_email : Purpose

abbrev pub purpose_text : Purpose → Text
purpose_text register = codes "register"
purpose_text login = codes "login"
purpose_text verify_email = codes "verify_email"

-- The hash of a code that was sent.
pub record Entry : Type 0 where
  pub digest : Text
  pub id : Text
  pub errors : ℕ
  pub expires_at : ℕ

pub record Counter : Type 0 where
  pub count : ℕ
  pub expires_at : ℕ

pub record Keys : Type 0 where
  pub entries : Text → Option Entry
  pub cooldowns : Text → Option ℕ
  pub counters : Text → Option Counter

-- The errors that the store returns. `context_error` is ctx.Err().
pub data CacheError : Type 0 where
  context_error canceled unavailable invalid_code : CacheError
  rate_limited : ℕ → CacheError

-- An error from outside: whether the context has ended, whether it is context.Canceled.
pub record Fault : Type 0 where
  pub ended : Bool
  pub is_canceled : Bool

unfoldable pub cache_error : Fault → CacheError
cache_error f = if f.ended then context_error else (if f.is_canceled then canceled else unavailable)

pub data Result {ℓ} (A : Type ℓ) : Type ℓ where
  ok : A → Result A
  failed : CacheError → Result A

-- What a source of random values gave.
pub data Drawn {ℓ} (A : Type ℓ) : Type ℓ where
  drawn : A → Drawn A
  undrawn : Fault → Drawn A

-- What is there at `now`.
unfoldable pub live_entry : ℕ → Option Entry → Option Entry
live_entry now none = none
live_entry now (some e) = if ltb now e.expires_at then some e else none

-- `math.ceil(PTTL / 1000)`, where it is not negative.
unfoldable pub seconds_left : ℕ → ℕ → ℕ
seconds_left now expires_at = (expires_at - now + 999) / 1000

abbrev pub max : ℕ → ℕ → ℕ
max a b = if ltb a b then b else a

-- INCR, with EXPIRE at the first count.
unfoldable pub increment : ℕ → Option Counter → Counter
increment now none = record { count = 1; expires_at = now + 3600000 }
increment now (some c) =
    if ltb now c.expires_at
    then record c { count = c.count + 1 }
    else record { count = 1; expires_at = now + 3600000 }

-- The wait that a counter over its limit asks for.
unfoldable pub over_limit : ℕ → ℕ → Counter → ℕ
unfolding seconds_left
over_limit now limit c = if ltb limit c.count then seconds_left now c.expires_at else 0

unfoldable pub cooldown_left : ℕ → Option ℕ → ℕ
unfolding seconds_left
cooldown_left now none = 0
cooldown_left now (some t) = seconds_left now t

-- The two counters of `issueScript`, and the wait so far.
unfoldable pub count_request : ℕ → Text → Text → Keys → Keys × ℕ
unfolding increment over_limit
count_request now email_key ip_key db =
    let by_email = increment now (db.counters email_key) in
    let counters = set email_key by_email db.counters in
    let by_ip = increment now (counters ip_key) in
    (
      record db { counters = set ip_key by_ip counters },
      max (over_limit now 10 by_email) (over_limit now 50 by_ip),
    )

-- The code and its cooldown of one minute; the code lives ten.
unfoldable pub put_code : ℕ → Text → Text → Text → Keys → Keys
put_code now key digest id db = record db {
  entries =
      set key record { digest = digest; id = id; errors = 0; expires_at = now + 600000 } db.entries;
  cooldowns = set key (now + 60000) db.cooldowns;
}

unfoldable pub issue_script : ℕ → Text → Text → Text → Text → Text → Keys → Keys × ℕ
unfolding count_request cooldown_left put_code
issue_script now key email_key ip_key digest id db =
    let counted = count_request now email_key ip_key db in
    let retry = max counted.1 (cooldown_left now (db.cooldowns key)) in
    if ltb 0 retry then (counted.0, retry) else (put_code now key digest id counted.0, 0)

-- `verifyScript`: the id and the milliseconds left, or nothing.
verify_entry : ℕ → Text → Text → Bool → Option Entry → Keys → Keys × Option (Text × ℕ)
verify_entry now key digest consume none db = (db, none)
verify_entry now key digest consume (some e) db =
    if leb 5 e.errors
    then (db, none)
    else (if not (text_eq e.digest digest)
        then (record db { entries = set key (record e { errors = e.errors + 1 }) db.entries }, none)
        else (
          record db { entries = if consume then del key db.entries else db.entries },
          some (e.id, e.expires_at - now),
        ))

unfoldable pub verify_script : ℕ → Text → Text → Bool → Keys → Keys × Option (Text × ℕ)
unfolding verify_entry live_entry
verify_script now key digest consume db =
    verify_entry now key digest consume (live_entry now (db.entries key)) db

consume_entry : Text → Text → Option Entry → Keys → Keys × Bool
consume_entry key id none db = (db, false)
consume_entry key id (some e) db =
    if not (text_eq e.id id)
    then (db, false)
    else (record db { entries = del key db.entries }, true)

unfoldable pub consume_script : ℕ → Text → Text → Keys → Keys × Bool
unfolding consume_entry live_entry
consume_script now key id db = consume_entry key id (live_entry now (db.entries key)) db

abbrev digit : ℕ → ℕ
digit n = 48 + n % 10

-- `fmt.Sprintf("%06d", n)` for n below a million.
unfoldable pub six_digits : ℕ → Text
six_digits n =
    digit (n / 100000)
    ∷ digit (n / 10000)
    ∷ digit (n / 1000)
    ∷ digit (n / 100)
    ∷ digit (n / 10)
    ∷ digit n
    ∷ []

pub record CodeReceipt : Type 0 where
  pub id : Text
  pub expires_at : ℤ

-- The store of one environment: `prefix`, and `digest` with its pepper.
pub record Store : Type 0 where
  pub prefix : Text
  pub digest : Text → Text
  pub lower : Text → Text

module _ (s : Store) where
  unfoldable pub email_digest : Text → Text
  email_digest email = s.digest (s.lower (trim_space email))

  unfoldable pub email_key : Text → Purpose → Text
  unfolding email_digest
  email_key email purpose =
      s.prefix ++ codes "email:" ++ purpose_text purpose ++ codes ":" ++ email_digest email

  unfoldable pub code_digest : Text → Purpose → Text → Text
  unfolding email_key
  code_digest email purpose code = s.digest (email_key email purpose ++ codes ":" ++ code)

  -- The reply to an issue that ran.
  issued : Text → Keys × ℕ → Keys × Result Text
  issued code (db, retry) = (db, if ltb 0 retry then failed (rate_limited retry) else ok code)

  -- `Issue`, with the random number and id.
  unfoldable pub issue :
      Option Fault → ℕ → Drawn ℕ → Drawn Text → Text → Purpose → Text → Keys → Keys × Result Text
  unfolding issued email_key email_digest code_digest
  issue fault now (undrawn f) id email purpose ip db = (db, failed (cache_error f))
  issue fault now (drawn n) (undrawn f) email purpose ip db = (db, failed (cache_error f))
  issue (some f) now (drawn n) (drawn id) email purpose ip db = (db, failed (cache_error f))
  issue none now (drawn n) (drawn id) email purpose ip db = issued (six_digits n) (
      issue_script now (email_key email purpose)
        (s.prefix ++ codes "limit:email:" ++ email_digest email)
        (s.prefix ++ codes "limit:ip:" ++ s.digest ip) (code_digest email purpose (six_digits n)) id
        db)

  -- The reply to a verification that ran, which was `started` on the service's clock.
  receipt_of : ℤ → Keys × Option (Text × ℕ) → Keys × Result CodeReceipt
  receipt_of started (db, none) = (db, failed invalid_code)
  receipt_of started (db, some (id, left)) = (
    db,
    if leb left 0
        then failed invalid_code
        else ok record { id = id; expires_at = started +ℤ pos (left * 1000000) },
  )

  unfoldable pub verify :
      Option Fault → ℤ → ℕ → Text → Purpose → Text → Keys → Keys × Result CodeReceipt
  unfolding receipt_of email_key code_digest verify_script
  verify (some f) started now email purpose code db = (db, failed (cache_error f))
  verify none started now email purpose code db =
      receipt_of started
        (verify_script now (email_key email purpose) (code_digest email purpose code) false db)

  accepted : Keys × Option (Text × ℕ) → Keys × Option CacheError
  accepted (db, none) = (db, some invalid_code)
  accepted (db, some _) = (db, none)

  -- `none` where `VerifyAndConsume` returns nil.
  unfoldable pub verify_and_consume :
      Option Fault → ℕ → Text → Purpose → Text → Keys → Keys × Option CacheError
  unfolding accepted email_key code_digest verify_script
  verify_and_consume (some f) now email purpose code db = (db, some (cache_error f))
  verify_and_consume none now email purpose code db =
      accepted
        (verify_script now (email_key email purpose) (code_digest email purpose code) true db)

  consumed : Keys × Bool → Keys × Option CacheError
  consumed (db, true) = (db, none)
  consumed (db, false) = (db, some invalid_code)

  unfoldable pub consume :
      Option Fault → ℕ → Text → Purpose → CodeReceipt → Keys → Keys × Option CacheError
  unfolding consumed email_key consume_script
  consume (some f) now email purpose receipt db = (db, some (cache_error f))
  consume none now email purpose receipt db =
      consumed (consume_script now (email_key email purpose) receipt.id db)
