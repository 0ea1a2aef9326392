-- ===== src/Txn/Examples.antt =====
-- Runs of the transaction operations, and the theorems at concrete inputs.
use libsqli.Prelude.{◌+◌, ◌≡◌, refl, true, false, List, [], ◌∷◌, arith}
use libsqli.Prelude.Int.{pos}
use libsqli.Status.{Status, done}
use libsqli.Conn.{Conn, ConnState, create, no_error_info, clear_error, set_error, set_error_context}
use libsqli.Txn.{Net, verify_txn_ready, drain_txn_response, begin}
use libsqli.Txn.Steps.{TxnStep, BoundaryContract, boundary_effect}
use libsqli.Txn.Savepoint.{sets, savepoint}
use libsqli.Txn.Savepoint.Starts.{MayStart, savepoint_effect}
use libsqli.Txn.Calls.{Call, begins, commits, sets_isolation_level, perform, perform-TxnStep}
use libsqli.Txn.Ledger.{run, opens, active, run_ledger}

-- A connection that is ready on descriptor 5.
abbrev ready_conn : Conn
unfolding create
ready_conn = record create { socket_fd = pos 5; state = ConnState.ready }

-- A network that takes every byte and reports success.
abbrev calm : Net
calm = record {
  send = λ k bytes. true;
  reply = record { status = Status.ok; saw_error = false; errmsg = ""; error_info = no_error_info };
  encode = λ name. done (115 ∷ []);
  query = λ sql c. (c, Status.ok);
}

begun : (begin calm ready_conn).0.in_transaction ≡ true
unfolding begin create clear_error set_error_context verify_txn_ready drain_txn_response
begun = refl

twice : (begin calm (begin calm ready_conn).0).1 ≡ Status.invalid_state
unfolding begin create clear_error set_error set_error_context verify_txn_ready drain_txn_response
twice = refl

savepoint_effect_example :
    MayStart (ready_conn.txn) ((savepoint calm calm (sets "s" true) ready_conn).0.txn)
    × ((savepoint calm calm (sets "s" true) ready_conn).1 ≡ Status.ok
        → (savepoint calm calm (sets "s" true) ready_conn).0.in_transaction ≡ true)
savepoint_effect_example = savepoint_effect calm calm (sets "s" true) ready_conn

perform-TxnStep_example :
    TxnStep (ready_conn.txn) ((perform (sets_isolation_level calm 3) ready_conn).0.txn)
perform-TxnStep_example = perform-TxnStep (sets_isolation_level calm 3) ready_conn (λ sql c. refl)

abbrev history : List Call
history = begins calm ∷ commits calm ∷ begins calm ∷ []

run_ledger_example :
    opens ready_conn history
      + active (ready_conn.txn)
      + ready_conn.commit_epoch
      + ready_conn.rollback_epoch
    ≡ active ((run ready_conn history).txn)
      + (run ready_conn history).commit_epoch
      + (run ready_conn history).rollback_epoch
unfolding create
run_ledger_example = run_ledger ready_conn history (tt, (tt, (tt, tt))) (omega arith) (omega arith)

boundary_effect_example : BoundaryContract calm ready_conn
boundary_effect_example = boundary_effect calm ready_conn
