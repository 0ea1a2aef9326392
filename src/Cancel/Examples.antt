-- ===== src/Cancel/Examples.antt =====
-- Runs of a cancel operation, and the theorems at concrete inputs.
use libsqli.Prelude.{◌≡◌, refl, true, false, List, [], ◌∷◌, some}
use libsqli.Prelude.Int.{pos}
use libsqli.Status.{Status}
use libsqli.Conn.{Conn, ConnState, create}
use libsqli.Cancel.{
  System, Mutex, CancelState, Outcome, operation_create, register_operation, is_tcp_connection,
  request, finish, arm,
}
use libsqli.Cancel.Safety.{
  Event, registers, requests, finishes, closes, arms, run, happen, start, IsSafe, run-IsSafe,
}
use libsqli.Cancel.Finish.{IsFinished, finish-IsFinished, run-terminal, register-request_fresh}

abbrev ready_conn : Conn
unfolding create
ready_conn = record create { socket_fd = pos 5; state = ConnState.ready }

abbrev works : Mutex
works = record { locks = true; unlocks = true }

-- Prepared, asked to cancel during the transmission, armed, closed by another thread, finished.
abbrev history : List Event
history =
    registers works true false
    ∷ requests works Status.ok
    ∷ arms works Status.ok
    ∷ closes Status.ok
    ∷ finishes works Status.ok Status.timeout
    ∷ []

run-IsSafe_example : IsSafe (run (start ready_conn) history)
run-IsSafe_example = run-IsSafe history ready_conn

interrupted_once : (run (start ready_conn) history).sent ≡ 1
unfolding run happen register_operation is_tcp_connection create operation_create request arm finish
interrupted_once = refl

abbrev running : System
running = record {
  op = record operation_create { state = CancelState.active; linked = true; armed = true };
  conn = record ready_conn { pinned = true };
  sent = 0;
}

finish-IsFinished_example :
    IsFinished Status.ok Status.timeout running (finish Status.ok Status.timeout running).0
finish-IsFinished_example = finish-IsFinished Status.ok Status.timeout running refl

abbrev ended : System
ended = record {
  op = record operation_create { state = CancelState.terminal };
  conn = ready_conn;
  sent = 0;
}

run-terminal_example : (run ended history).op ≡ ended.op
run-terminal_example = run-terminal history ended refl

register-request_fresh_example :
    let (t, status, out) = register_operation true true (request Status.ok (start ready_conn)).0 in
    (status ≡ Status.ok)
    × (out ≡ some false)
    × (t.op.state ≡ CancelState.terminal)
    × (t.op.outcome ≡ Outcome.not_executed)
    × (t.sent ≡ 0)
    × (t.conn ≡ ready_conn)
unfolding operation_create create is_tcp_connection
register-request_fresh_example =
    register-request_fresh Status.ok true true (start ready_conn) refl refl refl
