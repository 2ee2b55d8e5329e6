-- ===== src/Iam/Refresh/Session.antt =====
-- A user has at most one refresh token, whatever requests run.
use backend_infrastructure_g.Base.{
  ◌≡◌, refl, sym, ap, ◌∙◌, inl, inr, true, false, Option, none, some, List, [], ◌∷◌, Text, text_eq,
  text_eq_sound, text_eq_refl, arith, Option-cases, Bool-cases,
}
use backend_infrastructure_g.Iam.Refresh.{
  Keys, holds, replace_script, rotate_script, consume_script, revoke_script, revoke_all_script,
}

-- A script that any request runs, on the hashes of its tokens and users; keys that were set together
-- expire together, a user's with that of the token it names.
pub data Event : Type 0 where
  replaces consumes revokes : Text → Text → Event
  rotates : Text → Text → Text → Event
  revokes_all expires : Text → Event

holds_sound : (o : Option Text) (v : Text) → holds o v ≡ true → o ≡ some v
holds_sound none v h = cc
holds_sound (some x) v h = ap some (text_eq_sound x v h)

module _ (hash : Text → Text) where
  unfoldable pub apply : Event → Keys → Keys
  apply (replaces token user_id) db = replace_script token (hash user_id) user_id db
  apply (rotates old next user_id) db = (rotate_script old next (hash user_id) user_id db).0
  apply (consumes token user_id) db = (consume_script token (hash user_id) db).0
  apply (revokes token user_id) db = revoke_script token (hash user_id) db
  apply (revokes_all user_id) db = revoke_all_script (hash user_id) db
  apply (expires user_id) db = revoke_all_script (hash user_id) db

  unfoldable pub apply_all : List Event → Keys → Keys
  apply_all [] db = db
  apply_all (e ∷ es) db = apply_all es (apply e db)

  -- A token's user names that token.
  abbrev pub IsLinked : Keys → Type 0
  IsLinked db =
      (token user_id : Text) → db.tokens token ≡ some user_id → db.users (hash user_id) ≡ some token

  same_hash : (a b : Text) → a ≡ b → text_eq (hash a) (hash b) ≡ true
  same_hash a b e = rw e (text_eq_refl (hash b))

  module _ (db : Keys) (linked : IsLinked db) (token user_id : Text) where
    -- The same user hash means the same token.
    one_token :
        (user held : Text)
        → db.tokens token ≡ some user_id
        → db.users user ≡ some held
        → text_eq (hash user_id) user ≡ true
        → token ≡ held
    one_token user held e h same =
        ground (arith, linked token user_id e, ap db.users (text_eq_sound (hash user_id) user same))

  replace_script-IsLinked :
      (new id : Text) (db : Keys) → IsLinked db → IsLinked (replace_script new (hash id) id db)
  unfolding replace_script
  replace_script-IsLinked new id db linked token user_id =
      elim (Option-cases (db.users (hash id))) [
        | inl none_ ↦ rw none_ (λ e. ground (
          arith,
          linked token user_id,
          text_eq_sound token new,
          same_hash user_id id,
          ap db.users (text_eq_sound (hash user_id) (hash id) _),
        ))
        | inr (p, some_) ↦ rw some_ (λ e. ground (
          arith,
          linked token user_id,
          text_eq_sound token new,
          same_hash user_id id,
          one_token db linked token user_id (hash id) p,
          text_eq_refl token,
        ))
      ]

  rotate_script-IsLinked :
      (old new id : Text) (db : Keys)
      → IsLinked db
      → IsLinked (rotate_script old new (hash id) id db).0
  unfolding rotate_script
  rotate_script-IsLinked old new id db linked token user_id e = ground (
    arith,
    linked token user_id,
    text_eq_sound token new,
    same_hash user_id id,
    holds_sound (db.users (hash id)) old,
    one_token db linked token user_id (hash id) old,
    text_eq_refl token,
  )

  consume_script-IsLinked :
      (old id : Text) (db : Keys) → IsLinked db → IsLinked (consume_script old (hash id) db).0
  unfolding consume_script
  consume_script-IsLinked old id db linked token user_id e = ground (
    arith,
    linked token user_id,
    holds_sound (db.users (hash id)) old,
    one_token db linked token user_id (hash id) old,
    text_eq_refl token,
  )

  revoke_script-IsLinked :
      (old id : Text) (db : Keys) → IsLinked db → IsLinked (revoke_script old (hash id) db)
  unfolding revoke_script
  revoke_script-IsLinked old id db linked token user_id e = ground (
    arith,
    linked token user_id,
    holds_sound (db.users (hash id)) old,
    one_token db linked token user_id (hash id) old,
    text_eq_refl token,
  )

  pub revoke_all_script-IsLinked :
      (id : Text) (db : Keys) → IsLinked db → IsLinked (revoke_all_script (hash id) db)
  unfolding revoke_all_script
  revoke_all_script-IsLinked id db linked token user_id = elim (Option-cases (db.users (hash id))) [
    | inl none_ ↦ rw (none_, revoke_all_script) (linked token user_id)
    | inr (p, some_) ↦
        rw (some_, revoke_all_script)
          (λ e. ground (
            arith,
            linked token user_id,
            one_token db linked token user_id (hash id) p,
            text_eq_refl token,
          ))
  ]

  apply-IsLinked : (e : Event) (db : Keys) → IsLinked db → IsLinked (apply e db)
  unfolding apply
  apply-IsLinked (replaces new id) = replace_script-IsLinked new id
  apply-IsLinked (rotates old new id) = rotate_script-IsLinked old new id
  apply-IsLinked (consumes old id) = consume_script-IsLinked old id
  apply-IsLinked (revokes old id) = revoke_script-IsLinked old id
  apply-IsLinked (revokes_all id) = revoke_all_script-IsLinked id
  apply-IsLinked (expires id) = revoke_all_script-IsLinked id

  pub apply_all-IsLinked : (es : List Event) (db : Keys) → IsLinked db → IsLinked (apply_all es db)
  unfolding apply_all
  apply_all-IsLinked [] db linked = linked
  apply_all-IsLinked (e ∷ es) db linked =
      apply_all-IsLinked es (apply e db) (apply-IsLinked e db linked)

  abbrev pub no_keys : Keys
  no_keys = record { tokens = λ k. none; users = λ k. none }

  -- From an empty cache, whatever scripts run for any tokens and users, in any order, and whatever
  -- expires: two tokens that are valid for the same user have the same hash, so a user never has more
  -- than one session.
  pub one_session :
      (es : List Event) (a b user_id : Text)
      → (apply_all es no_keys).tokens (hash a) ≡ some user_id
      → (apply_all es no_keys).tokens (hash b) ≡ some user_id
      → hash a ≡ hash b
  one_session es a b user_id at_a at_b =
      let linked = apply_all-IsLinked es no_keys (λ token id e. absurd (cc e)) in
      cc (linked (hash a) user_id at_a, linked (hash b) user_id at_b)

  spent :
      (old new user id : Text) (db db' : Keys)
      → text_eq old new ≡ false
      → rotate_script old new user id db ≡ (db', true)
      → db'.tokens old ≡ none
  unfolding rotate_script
  spent old new user id db db' fresh e = elim (Bool-cases (holds (db.tokens old) id)) [
    | inr no_token ↦ absurd (cc (ap (λ r. r.1) (rw no_token at e)))
    | inl token ↦ elim (Bool-cases (holds (db.users user) old)) [
      | inr other ↦ absurd (cc (ap (λ r. r.1) (rw (token, other) at e)))
      | inl mine ↦
          sym (ap (λ r. r.0.tokens old) (rw (token, mine) at e))
          ∙ (rw (fresh, text_eq_refl old) refl)
    ]
  ]

  -- A token that was rotated is spent: whoever presents it again, for whatever user, is refused and
  -- changes nothing, even if two requests rotate it at once. The new token's hash is taken to be
  -- another one.
  pub rotate_once :
      (old new again id id' : Text) (db db' : Keys)
      → text_eq old new ≡ false
      → rotate_script old new (hash id) id db ≡ (db', true)
      → rotate_script old again (hash id') id' db' ≡ (db', false)
  unfolding rotate_script
  rotate_once old new again id id' db db' fresh e =
      rw (spent old new (hash id) id db db' fresh e) refl
