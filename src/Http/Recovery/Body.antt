-- ===== src/Http/Recovery/Body.antt =====
-- What reaches the client through Recovery.
use backend_infrastructure_g.Base.{
  ◌≡◌, refl, ◌∙◌, ◌⊎◌, inl, inr, true, false, List, [], ◌∷◌, ◌++◌, arith, Bool-cases,
}
use backend_infrastructure_g.Http.Recovery.{
  internal_error, Destination, RecoveryWriter, Op, sets_header, writes_header, writes, flushes,
  panics, send, new_recovery_writer, commit, write_header, write, flush, set_header, do_op, do_all,
  finish, recovery,
}

module _ {H : Type 0} where
  -- An operation that leaves the response uncommitted has not touched the server's writer.
  do_op-uncommitted :
      (op : Op H) (w : RecoveryWriter H)
      → (do_op op w).committed ≡ false
      → (w.committed ≡ false) × ((do_op op w).destination ≡ w.destination)
  unfolding do_op set_header write_header write flush commit
  do_op-uncommitted (sets_header f) w e = ground arith
  do_op-uncommitted (writes_header status) w e = ground arith
  do_op-uncommitted (writes value) w e = ground arith
  do_op-uncommitted flushes w e = ground arith

  do_all-uncommitted :
      (ops : List (Op H)) (w : RecoveryWriter H)
      → (do_all ops w).committed ≡ false
      → (w.committed ≡ false) × ((do_all ops w).destination ≡ w.destination)
  unfolding do_all
  do_all-uncommitted [] w e = (e, refl)
  do_all-uncommitted (op ∷ ops) w e =
      let (open_, same) = do_all-uncommitted ops (do_op op w) e in
      let (before, same') = do_op-uncommitted op w open_ in (before, same ∙ same')

  -- If a handler panics, then either its response was committed and the connection is aborted, or the
  -- response was not, and the client gets a 500 and nothing else, with the headers as they were
  -- before the handler.
  pub recovery-panics :
      (ops : List (Op H)) (d : Destination H)
      → (((do_all ops (new_recovery_writer d)).committed ≡ true)
          × ((recovery ops panics d).1 ≡ false))
        ⊎ (((do_all ops (new_recovery_writer d)).committed ≡ false)
            × (recovery ops panics d ≡ (record d { sent = d.sent ++ internal_error ∷ [] }, true)))
  unfolding recovery finish send new_recovery_writer
  recovery-panics ops d =
      let w = do_all ops (new_recovery_writer d) in
      elim (Bool-cases w.committed) [
        | inl done ↦ inl (done, rw done refl)
        | inr open_ ↦
            let (_, same) = do_all-uncommitted ops (new_recovery_writer d) open_ in
            inr (open_, rw (open_, same) refl)
      ]
