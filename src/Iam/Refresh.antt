-- ===== src/Iam/Refresh.antt =====
-- pkg/modules/iam/refresh.go: refresh tokens in Redis. The keys under ":token:" and under ":user:"
-- are two tables by the hash in the key, and each script runs as one step. SHA-256 with its hex
-- text is the parameter `hash`; a token that is made new is an argument, `none` if the source of
-- randomness fails. `fault` says that the cache returned an error and did nothing.
pub mod Session
mod Tests
use backend_infrastructure_g.Base.{
  ℕ, Bool, true, false, Option, none, some, List, [], ◌∷◌, Text, text_eq, set, del, if◌then◌else◌,
}

-- What Redis holds: the user of each token, the token's hash of each user.
pub record Keys : Type 0 where
  pub tokens : Text → Option Text
  pub users : Text → Option Text

-- `redis.call("GET", …) == v`.
abbrev pub holds : Option Text → Text → Bool
holds none v = false
holds (some x) v = text_eq x v

-- `if previous then DEL`.
abbrev del_previous : Option Text → (Text → Option Text) → Text → Option Text
del_previous none f = f
del_previous (some p) f = del p f

unfoldable pub replace_script : Text → Text → Text → Keys → Keys
replace_script token user user_id db = record {
  tokens = set token user_id (del_previous (db.users user) db.tokens);
  users = set user token db.users;
}

unfoldable pub rotate_script : Text → Text → Text → Text → Keys → Keys × Bool
rotate_script old next user user_id db =
    if holds (db.tokens old) user_id
    then (if holds (db.users user) old
        then (
          record { tokens = set next user_id (del old db.tokens); users = set user next db.users },
          true,
        )
        else (db, false))
    else (db, false)

-- The user's id, or false.
unfoldable pub consume_script : Text → Text → Keys → Keys × Option Text
consume_script token user db = elim (db.tokens token) [
  | none ↦ (db, none)
  | some user_id ↦
      if holds (db.users user) token
      then (record { tokens = del token db.tokens; users = del user db.users }, some user_id)
      else (db, none)
]

unfoldable pub revoke_script : Text → Text → Keys → Keys
revoke_script token user db = elim (db.tokens token) [
  | none ↦ db
  | some user_id ↦ record {
    tokens = del token db.tokens;
    users = if holds (db.users user) token then del user db.users else db.users;
  }
]

unfoldable pub revoke_all_script : Text → Keys → Keys
revoke_all_script user db = elim (db.users user) [
  | none ↦ db
  | some token ↦ record { tokens = del token db.tokens; users = del user db.users }
]

-- ErrInvalidRefreshToken, an error of the cache, an error of the source of randomness.
pub data RefreshError : Type 0 where
  invalid_refresh_token cache_error no_randomness : RefreshError

-- A text or an error.
pub data Reply : Type 0 where
  ok : Text → Reply
  refused : RefreshError → Reply

module _ (hash : Text → Text) where
  unfoldable pub issue : Bool → Option Text → Text → Keys → Keys × Reply
  issue fault none user_id db = (db, refused no_randomness)
  issue fault (some raw) user_id db =
      if fault
      then (db, refused cache_error)
      else (replace_script (hash raw) (hash user_id) user_id db, ok raw)

  -- An entry that is the empty text counts as none.
  abbrev known : Option Text → Reply
  known none = refused invalid_refresh_token
  known (some []) = refused invalid_refresh_token
  known (some (c ∷ s)) = ok (c ∷ s)

  unfoldable pub lookup : Bool → Text → Keys → Reply
  lookup fault [] db = refused invalid_refresh_token
  lookup fault (c ∷ s) db = if fault then refused cache_error else known (db.tokens (hash (c ∷ s)))

  -- The reply to a rotation that ran.
  rotated : Text → Keys × Bool → Keys × Reply
  rotated next (db, true) = (db, ok next)
  rotated next (db, false) = (db, refused invalid_refresh_token)

  unfoldable pub rotate : Bool → Text → Option Text → Text → Keys → Keys × Reply
  unfolding rotated
  rotate fault [] next user_id db = (db, refused invalid_refresh_token)
  rotate fault (c ∷ s) next [] db = (db, refused invalid_refresh_token)
  rotate fault (c ∷ s) none (u ∷ v) db = (db, refused no_randomness)
  rotate fault (c ∷ s) (some next) (u ∷ v) db =
      if fault
      then (db, refused cache_error)
      else rotated next (rotate_script (hash (c ∷ s)) (hash next) (hash (u ∷ v)) (u ∷ v) db)

  -- The reply to a consumption that ran.
  consumed : Text → Keys × Option Text → Keys × Reply
  consumed user_id (db, none) = (db, refused invalid_refresh_token)
  consumed user_id (db, some v) =
      (db, if text_eq v user_id then ok v else refused invalid_refresh_token)

  -- What `Consume` does with the result of its lookup; others act on the keys in between.
  consume_found : Bool → Text → (Keys → Keys) → Keys → Reply → Keys × Reply
  unfolding consumed
  consume_found fault raw others db (refused e) = (db, refused invalid_refresh_token)
  consume_found fault raw others db (ok user_id) =
      if fault
      then (others db, refused cache_error)
      else consumed user_id (consume_script (hash raw) (hash user_id) (others db))

  unfoldable pub consume : Bool → Bool → (Keys → Keys) → Text → Keys → Keys × Reply
  unfolding consume_found
  consume fault fault' others [] db = (db, refused invalid_refresh_token)
  consume fault fault' others (c ∷ s) db =
      consume_found fault' (c ∷ s) others db (lookup fault (c ∷ s) db)

  -- What `Revoke` does with the result of its lookup; an error is `some`.
  revoke_found : Bool → Text → (Keys → Keys) → Keys → Reply → Keys × Option RefreshError
  revoke_found fault raw others db (refused invalid_refresh_token) = (db, none)
  revoke_found fault raw others db (refused cache_error) = (db, some cache_error)
  revoke_found fault raw others db (refused no_randomness) = (db, some no_randomness)
  revoke_found fault raw others db (ok user_id) =
      if fault
      then (others db, some cache_error)
      else (revoke_script (hash raw) (hash user_id) (others db), none)

  unfoldable pub revoke : Bool → Bool → (Keys → Keys) → Text → Keys → Keys × Option RefreshError
  unfolding revoke_found
  revoke fault fault' others [] db = (db, none)
  revoke fault fault' others (c ∷ s) db =
      revoke_found fault' (c ∷ s) others db (lookup fault (c ∷ s) db)

  unfoldable pub revoke_all : Bool → Text → Keys → Keys × Option RefreshError
  revoke_all fault user_id db =
      if fault then (db, some cache_error) else (revoke_all_script (hash user_id) db, none)
