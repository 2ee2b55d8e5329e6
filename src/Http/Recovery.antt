-- ===== src/Http/Recovery.antt =====
-- pkg/httpkit/middleware.go: Recovery and its buffering writer. A header is a value of any type, and
-- the response writer of the server is the log of the calls that it gets; its calls succeed here.
pub mod Body
mod Tests
use backend_infrastructure_g.Base.{
  ℕ, ◌+◌, ◌*◌, ◌-◌, Bool, true, false, not, Option, none, some, List, [], ◌∷◌, ◌++◌, Text, length,
  leb, if◌then◌else◌,
}

abbrev pub recovery_buffer_limit : ℕ
recovery_buffer_limit = 65536

-- A call of the server's writer.
pub data Sent (H : Type 0) : Type 0 where
  header_sent : ℕ → H → Sent H
  body_sent : Text → Sent H
  flushed : Sent H
  -- apikit's reply with status 500.
  internal_error : Sent H

pub record Destination (H : Type 0) : Type 0 where
  pub header : H
  pub sent : List (Sent H)

pub record RecoveryWriter (H : Type 0) : Type 0 where
  pub destination : Destination H
  pub header : H
  pub body : Text
  pub status : ℕ
  pub wrote_header : Bool
  pub committed : Bool

-- What a handler does with its writer.
pub data Op (H : Type 0) : Type 0 where
  sets_header : (H → H) → Op H
  writes_header : ℕ → Op H
  writes : Text → Op H
  flushes : Op H

-- How a handler ends; the panic with http.ErrAbortHandler is told apart.
pub data Ending : Type 0 where
  returns panics aborts : Ending

module _ {H : Type 0} where
  unfoldable pub send : Sent H → Destination H → Destination H
  send x d = record d { sent = d.sent ++ x ∷ [] }

  -- `newRecoveryWriter`: the header is a copy.
  unfoldable pub new_recovery_writer : Destination H → RecoveryWriter H
  new_recovery_writer d = record {
    destination = d;
    header = d.header;
    body = [];
    status = 0;
    wrote_header = false;
    committed = false;
  }

  abbrev send_header : Bool → ℕ → Destination H → Destination H
  send_header wrote status d = if wrote then send (header_sent status d.header) d else d

  abbrev send_body : Text → Destination H → Destination H
  send_body [] d = d
  send_body (c ∷ s) d = send (body_sent (c ∷ s)) d

  unfoldable pub commit : RecoveryWriter H → RecoveryWriter H
  unfolding send
  commit w = if w.committed then w else record w {
    committed = true;
    body = [];
    destination =
        send_body w.body
          (send_header w.wrote_header w.status (record (w.destination) { header = w.header }));
  }

  unfoldable pub write_header : ℕ → RecoveryWriter H → RecoveryWriter H
  unfolding send
  write_header status w =
      if w.committed
      then record w { destination = send (header_sent status w.destination.header) w.destination }
      else (if w.wrote_header then w else record w { wrote_header = true; status = status })

  unfoldable pub write : Text → RecoveryWriter H → RecoveryWriter H
  unfolding send write_header commit
  write value w =
      if w.committed
      then record w { destination = send (body_sent value) w.destination }
      else (let w = if w.wrote_header then w else write_header 200 w in
          if leb (length value) (recovery_buffer_limit - length w.body)
          then record w { body = w.body ++ value }
          else (let w = commit w in
              record w { destination = send (body_sent value) w.destination }))

  unfoldable pub flush : RecoveryWriter H → RecoveryWriter H
  unfolding send commit
  flush w = let w = commit w in record w { destination = send flushed w.destination }

  unfoldable pub set_header : (H → H) → RecoveryWriter H → RecoveryWriter H
  set_header f w =
      if w.committed
      then record w { destination = record (w.destination) { header = f w.destination.header } }
      else record w { header = f w.header }

  unfoldable pub do_op : Op H → RecoveryWriter H → RecoveryWriter H
  do_op (sets_header f) w = set_header f w
  do_op (writes_header status) w = write_header status w
  do_op (writes value) w = write value w
  do_op flushes w = flush w

  unfoldable pub do_all : List (Op H) → RecoveryWriter H → RecoveryWriter H
  do_all [] w = w
  do_all (op ∷ ops) w = do_all ops (do_op op w)

  -- What `Recovery` leaves; false: it panics with http.ErrAbortHandler.
  unfoldable pub finish : Ending → RecoveryWriter H → Destination H × Bool
  unfolding commit send
  finish returns w = ((commit w).destination, true)
  finish panics w =
      if w.committed then (w.destination, false) else (send internal_error w.destination, true)
  finish aborts w = (w.destination, false)

  unfoldable pub recovery : List (Op H) → Ending → Destination H → Destination H × Bool
  recovery ops ending d = finish ending (do_all ops (new_recovery_writer d))
