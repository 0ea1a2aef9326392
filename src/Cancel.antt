-- ===== src/Cancel.antt =====
-- src/sqli_cancel_posix.c: one cancel operation, the connection it is registered on, and the urgent
-- bytes that left on its socket. Each call holds the mutex of the operation from its first test to
-- its last, so calls of several threads are a sequence of these functions.
pub mod Safety
pub mod Outcomes
pub mod Finish
mod Examples
use libsqli.Prelude.{
  ℕ, ◌+◌, Bool, true, false, ◌&&◌, ◌||◌, not, Option, none, some, ◌==◌, if◌then◌else◌,
}
use libsqli.Prelude.Int.{ℤ, pos, negsuc}
use libsqli.Status.{Status, is_ok}
use libsqli.Conn.{Conn, ErrorInfo, no_error_info, is_ready, has_socket, conn_discard}

pub data CancelState : Type 0 where
  fresh active terminal : CancelState

pub data Disposition : Type 0 where
  latched was_sent send_failed already_requested completed : Disposition

pub data Outcome : Type 0 where
  not_executed executed interrupted failed unknown : Outcome

pub record Snapshot : Type 0 where
  pub started : Bool
  pub requested : Bool
  pub send_attempted : Bool
  pub send_status : Status
  pub operation_status : Status
  pub disposal_status : Status
  pub diagnostic : ErrorInfo
  pub outcome : Outcome
  pub connection_discarded : Bool

-- `linked` says that the pointer to the connection is set.
pub record Operation : Type 0 where
  pub state : CancelState
  pub linked : Bool
  pub armed : Bool
  pub snapshot : Snapshot
  pub open snapshot use *

-- `sent` counts the calls of sqli_tcp_interrupt.
pub record System : Type 0 where
  pub op : Operation
  pub conn : Conn
  pub sent : ℕ

abbrev pub is_fresh : CancelState → Bool
is_fresh s = elim s [ fresh ↦ true | _ ↦ false ]

abbrev pub is_active : CancelState → Bool
is_active s = elim s [ active ↦ true | _ ↦ false ]

abbrev pub is_terminal : CancelState → Bool
is_terminal s = elim s [ terminal ↦ true | _ ↦ false ]

unfoldable pub operation_create : Operation
operation_create = record {
  state = fresh;
  linked = false;
  armed = false;
  snapshot = record {
    started = false;
    requested = false;
    send_attempted = false;
    send_status = Status.ok;
    operation_status = Status.invalid_state;
    disposal_status = Status.ok;
    diagnostic = no_error_info;
    outcome = Outcome.not_executed;
    connection_discarded = false;
  };
}

-- What pthread_mutex_lock and pthread_mutex_unlock answer.
pub record Mutex : Type 0 where
  pub locks : Bool
  pub unlocks : Bool

-- A call gives back the system, the status, and the output where it wrote one.
abbrev pub Call : Type 0 → Type 0
Call A = System → System × Status × Option A

abbrev pub locked : {A : Type 0} → Mutex → Call A → Call A
locked mutex body s =
    if mutex.locks
    then (let (s', status, out) = body s in (s', if mutex.unlocks then status else Status.err, out))
    else (s, Status.err, none)

-- `inet` says that getsockname succeeds with an address of family AF_INET or AF_INET6.
unfoldable pub is_tcp_connection : Bool → Conn → Bool
is_tcp_connection inet c = is_ready c.state && has_socket c && inet

-- The compare-and-exchange from 0 that pins a connection.
abbrev pub is_free : Conn → Bool
is_free c = not c.pinned && not c.discarded && not c.released

-- The part of register_operation that runs with the connection pinned.
unfoldable pub enroll : Bool → Operation → Operation
enroll arms p =
    if p.requested
    then record p {
      state = terminal;
      snapshot = record (p.snapshot) {
        operation_status = Status.canceled;
        outcome = Outcome.not_executed;
      };
    }
    else record p {
      state = active;
      armed = arms;
      linked = true;
      snapshot = record (p.snapshot) { started = true };
    }

-- register_operation, behind sqli_cancel_operation_begin (`arms` true) and
-- sqli_cancel_operation_prepare (`arms` false).
unfoldable pub register_operation : Bool → Bool → Call Bool
unfolding is_tcp_connection enroll
register_operation inet arms s =
    if not (is_fresh s.op.state)
    then (s, Status.invalid_state, none)
    else if not (is_free s.conn)
    then (s, Status.invalid_state, none)
    else if not (is_tcp_connection inet s.conn)
    then (s, if is_ready s.conn.state then Status.unsupported else Status.invalid_state, none)
    else (
      record s { op = enroll arms s.op; conn = record (s.conn) { pinned = not s.op.requested } },
      Status.ok,
      some (not s.op.requested),
    )

-- `answer` is what sqli_tcp_interrupt says.
unfoldable pub send_interrupt_locked : Status → System → System
send_interrupt_locked answer s = record s {
  op = record (s.op) {
    snapshot = record (s.op.snapshot) { send_attempted = true; send_status = answer };
  };
  conn = record (s.conn) { discarded = true };
  sent = s.sent + 1;
}

unfoldable pub arm : Status → Call Unit
unfolding send_interrupt_locked
arm answer s =
    if not (is_active s.op.state) || s.op.armed
    then (s, Status.invalid_state, none)
    else (let s' : System = record s { op = record (s.op) { armed = true } } in
        (if s.op.requested then send_interrupt_locked answer s' else s', Status.ok, none))

unfoldable pub request : Status → Call Disposition
unfolding send_interrupt_locked
request answer s =
    if is_terminal s.op.state
    then (s, Status.ok, some completed)
    else if s.op.requested
    then (s, Status.ok, some already_requested)
    else (let s' : System = record s {
      op = record (s.op) { snapshot = record (s.op.snapshot) { requested = true } };
    } in
        if is_fresh s.op.state || not s.op.armed then (s', Status.ok, some latched) else (
          send_interrupt_locked answer s',
          Status.ok,
          some (if is_ok answer then was_sent else send_failed),
        ))

abbrev pub is_zero : ℤ → Bool
is_zero (pos n) = n == 0
is_zero (negsuc n) = false

abbrev pub is_interrupted : ℤ → Bool
is_interrupted (pos n) = false
is_interrupted (negsuc n) = n == 212

-- A response-processing error behind EXECUTE without a diagnostic of the server.
unfoldable pub response_unknown : Operation → Conn → Status → Bool
response_unknown p c status = p.armed && not (is_ok status) && is_zero c.error_info.sqlcode

abbrev pub is_transport : Status → Bool
is_transport s = elim s [ Status.io_error ↦ true | Status.timeout ↦ true | _ ↦ false ]

abbrev pub is_proto : Status → Bool
is_proto s = elim s [ Status.proto_error ↦ true | _ ↦ false ]

unfoldable pub outcome_of : Operation → Conn → Status → Outcome
unfolding response_unknown
outcome_of p c status =
    if is_ok status
    then Outcome.executed
    else if is_interrupted c.error_info.sqlcode
    then Outcome.interrupted
    else if response_unknown p c status
        || is_transport status
        || (is_proto status && is_zero c.error_info.sqlcode)
    then Outcome.unknown
    else Outcome.failed

-- The connection once the result is known, and its abortive teardown where it is discarded.
-- `answer` is what the teardown says.
unfoldable pub dispose : Status → Status → Conn → Conn × Status
unfolding conn_discard
dispose answer before c = if c.discarded then conn_discard answer c else (c, before)

unfoldable pub finish : Status → Status → Call Unit
unfolding response_unknown outcome_of dispose
finish answer status s =
    if not (is_active s.op.state)
    then (s, Status.invalid_state, none)
    else (let p = s.op in
        let c : Conn = record (s.conn) {
          discarded = response_unknown p s.conn status || s.conn.discarded;
        } in
        let (c', disposal) = dispose answer p.disposal_status c in
        (
          record s {
            op = record p {
              state = terminal;
              linked = false;
              snapshot = record (p.snapshot) {
                operation_status = status;
                disposal_status = disposal;
                diagnostic = s.conn.error_info;
                outcome = outcome_of p s.conn status;
                connection_discarded = c.discarded;
              };
            };
            conn = record c' { pinned = false };
          },
          disposal,
          none,
        ))

unfoldable pub snapshot_of : Call Snapshot
snapshot_of s =
    if is_terminal s.op.state
    then (s, Status.ok, some s.op.snapshot)
    else (s, Status.invalid_state, none)

-- sqli_cancel_operation_destroy: whether the memory is given back. `destroys` is what
-- pthread_mutex_destroy says.
unfoldable pub operation_destroy : Bool → Operation → Bool × Status
operation_destroy destroys p =
    if is_active p.state
    then (false, Status.invalid_state)
    else if destroys
    then (true, Status.ok)
    else (false, Status.err)
