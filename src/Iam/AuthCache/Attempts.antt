-- ===== src/Iam/AuthCache/Attempts.antt =====
-- pkg/platform/authcache/redis.go: the challenges of logins, in Redis, with their ids hashed by HMAC.
-- An id is a text of bytes.
use backend_infrastructure_g.Base.{
  ℕ, ◌+◌, ◌<◌, ◌≡◌, ◌∙◌, not, Option, none, some, List, [], ◌∷◌, ◌++◌, Text, codes, text_eq_refl,
  set, set_same, del, ltb, ◌==◌, length, All, arith, if◌then◌else◌,
}
use backend_infrastructure_g.Iam.AuthCache.{
  CacheError, invalid_code, Fault, cache_error, Result, ok, failed, Drawn, drawn, undrawn, Store,
}

pub record Challenge : Type 0 where
  pub user_id : Text
  pub version : ℕ

pub record Entry : Type 0 where
  pub challenge : Challenge
  pub attempts : ℕ
  pub expires_at : ℕ

abbrev pub Table : Type 0
Table = Text → Option Entry

live_entry : ℕ → Option Entry → Option Entry
live_entry now none = none
live_entry now (some e) = if ltb now e.expires_at then some e else none

-- The script of `Attempt` on the entry: HINCRBY comes before the limit is read.
attempt_entry : Text → Option Entry → Table → Table × Option Challenge
attempt_entry key none db = (db, none)
attempt_entry key (some e) db = (
  set key (record e { attempts = e.attempts + 1 }) db,
  if ltb 5 (e.attempts + 1) then none else some e.challenge,
)

attempt_reply : Table × Option Challenge → Table × Result Challenge
attempt_reply (db, none) = (db, failed invalid_code)
attempt_reply (db, some c) = (db, ok c)

-- DEL, and whether it deleted a key.
delete_entry : Text → Option Entry → Table → Table × Option CacheError
delete_entry key none db = (db, some invalid_code)
delete_entry key (some e) db = (del key db, none)

module _ (s : Store) where
  unfoldable pub challenge_key : Text → Text
  challenge_key id = s.prefix ++ codes "challenge:" ++ s.digest id

  -- `Issue`. If the script fails, the id comes back with the error.
  unfoldable pub issue_challenge :
      Option Fault → ℕ → Drawn Text → Challenge → Table → Table × Result Text
  unfolding challenge_key
  issue_challenge fault now (undrawn f) c db = (db, failed (cache_error f))
  issue_challenge (some f) now (drawn id) c db = (db, failed (cache_error f))
  issue_challenge none now (drawn id) c db = (
    set (challenge_key id) record { challenge = c; attempts = 0; expires_at = now + 300000 } db,
    ok id,
  )

  unfoldable pub attempt : Option Fault → ℕ → Text → Table → Table × Result Challenge
  unfolding attempt_reply attempt_entry live_entry challenge_key
  attempt fault now id db =
      if not (length id == 64) then (db, failed invalid_code) else elim fault [
        | some f ↦ (db, failed (cache_error f))
        | none ↦
            attempt_reply
              (attempt_entry (challenge_key id) (live_entry now (db (challenge_key id))) db)
      ]

  -- `none` where `Consume` returns nil.
  unfoldable pub consume_challenge : Option Fault → ℕ → Text → Table → Table × Option CacheError
  unfolding delete_entry live_entry challenge_key
  consume_challenge (some f) now id db = (db, some (cache_error f))
  consume_challenge none now id db =
      delete_entry (challenge_key id) (live_entry now (db (challenge_key id))) db

  -- Attempts at the given instants.
  unfoldable pub attempt_all : Text → List ℕ → Table → Table
  attempt_all id [] db = db
  attempt_all id (now ∷ nows) db = attempt_all id nows (attempt none now id db).0

  abbrev pub IsBefore : ℕ → ℕ → Type 0
  IsBefore limit now = now < limit

  attempt_live :
      (now : ℕ) (id : Text) (e : Entry) (db : Table)
      → length id ≡ 64
      → db (challenge_key id) ≡ some e
      → now < e.expires_at
      → ((attempt none now id db).0 (challenge_key id)
          ≡ some (record e { attempts = e.attempts + 1 }))
        × ((attempt none now id db).1
            ≡ (if ltb e.attempts 5 then ok e.challenge else failed invalid_code))
  unfolding attempt
  attempt_live now id e db long there live =
      (ground (arith, text_eq_refl (challenge_key id)), ground arith)

  attempts_live :
      (nows : List ℕ) (id : Text) (e : Entry) (db : Table)
      → length id ≡ 64
      → db (challenge_key id) ≡ some e
      → All (IsBefore e.expires_at) nows
      → attempt_all id nows db (challenge_key id)
        ≡ some (record e { attempts = e.attempts + length nows })
  unfolding attempt_all
  attempts_live [] id e db long there live = there ∙ ground arith
  attempts_live (now ∷ nows) id e db long there live =
      attempts_live nows id (record e { attempts = e.attempts + 1 }) (attempt none now id db).0 long
        (attempt_live now id e db long there live.0).0 live.1
      ∙ ground arith

  -- A challenge that Issue has stored comes back from Attempt as it was, user and version, in its
  -- five minutes, in the first five attempts; every later attempt is refused. The id has the length
  -- of the ids that randomID makes.
  pub issue_challenge-attempt :
      (now now' : ℕ) (id : Text) (c : Challenge) (nows : List ℕ) (db : Table)
      → length id ≡ 64
      → All (IsBefore (now + 300000)) nows
      → now' < now + 300000
      → (attempt none now' id (attempt_all id nows (issue_challenge none now (drawn id) c db).0)).1
        ≡ (if ltb (length nows) 5 then ok c else failed invalid_code)
  unfolding issue_challenge
  issue_challenge-attempt now now' id c nows db long early early' =
      (attempt_live now' id
        record { challenge = c; attempts = 0 + length nows; expires_at = now + 300000 }
        (attempt_all id nows (issue_challenge none now (drawn id) c db).0) long
        (attempts_live nows id record { challenge = c; attempts = 0; expires_at = now + 300000 }
          (issue_challenge none now (drawn id) c db).0 long
          (set_same (challenge_key id)
            record { challenge = c; attempts = 0; expires_at = now + 300000 } db)
          early)
        early').1
      ∙ ground arith
