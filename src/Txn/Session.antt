-- ===== src/Txn/Session.antt =====
-- Session settings and the batch frame of src/sqli_transaction.c.
pub mod Levels
use Prim.Native.String.{String}
use libsqli.Prelude.{
  ℕ, ◌+◌, ◌%◌, ◌^◌, Bool, true, false, ◌&&◌, ◌||◌, not, List, [], ◌∷◌, Option, none, some, leb, ltb,
  ◌==◌, if◌then◌else◌,
}
use libsqli.Prelude.Int.{ℤ, pos, negsuc, ltb_ℤ}
use libsqli.Status.{Status, is_ok}
use libsqli.Conn.{Conn, Isolation, is_ready, has_socket, clear_error, set_error_context, set_error}
use libsqli.Txn.{
  Net, Action, ◌>>◌, update, refuse, refuse_if, send_or_fail, verify_txn_ready, begin,
}

unfoldable pub set_autocommit : Bool → Action
set_autocommit on = do
  update clear_error
  refuse_if (λ c. on && not c.autocommit && c.in_transaction) "autocommit" 0
      "commit or roll back the active transaction before enabling autocommit" Status.invalid_state
  update (λ c. record c { txn = record (c.txn) { autocommit = on } })

abbrev pub isolation_of : ℕ → Option Isolation
isolation_of level =
    if level == 0
    then some Isolation.committed
    else if level == 1
    then some Isolation.repeatable_read
    else if level == 3
    then some Isolation.serializable
    else if level == 4
    then some Isolation.cursor
    else none

abbrev pub isolation_sql : Isolation → String
isolation_sql Isolation.committed = "set isolation to committed read"
isolation_sql Isolation.repeatable_read = "set isolation to repeatable read"
isolation_sql Isolation.serializable = "set isolation to repeatable read"
isolation_sql Isolation.cursor = "set isolation to cursor stability"

abbrev sq_isolevel : ℕ
sq_isolevel = 47

abbrev sq_lockwait : ℕ
sq_lockwait = 48

-- apply_session_sql, with the context set where it fails.
apply_session_sql : Net → String → String → ℕ → Action
apply_session_sql net sql context opcode c =
    let (c', status) = net.query sql c in
    if is_ok status then (c', status) else (set_error_context context opcode c', status)

-- The part of sqli_set_isolation_level behind its switch.
set_session_isolation : Net → Isolation → Action
unfolding apply_session_sql
set_session_isolation net level c =
    if is_ready c.state && has_socket c
    then apply_session_sql net (isolation_sql level) "isolation" sq_isolevel c
    else (c, Status.ok)

pub set_isolation : Net → Isolation → Action
set_isolation net level = do
  set_session_isolation net level
  update (λ c. record c { txn = record (c.txn) { isolation = level } })
  update clear_error

-- `level` is the number behind the enumeration; a negative one is refused as one above 4 is.
pub set_isolation_level : Net → ℕ → Action
set_isolation_level net level = do
  update clear_error
  λ c.
      if ltb 4 level
      then (c, Status.invalid_state)
      else if c.in_transaction
      then (
        set_error "isolation level cannot be changed in active transaction" c,
        Status.invalid_state,
      )
      else elim (isolation_of level) [
        | none ↦ (c, Status.invalid_state)
        | some i ↦ set_isolation net i c
      ]

-- `wait_sql` stands for snprintf of the number of seconds behind `set lock mode to wait `.
unfoldable pub set_lock_wait : Net → (ℕ → String) → ℤ → Action
unfolding apply_session_sql
set_lock_wait net wait_sql seconds = do
  update clear_error
  verify_txn_ready "lock_wait"
  apply_session_sql net
      (elim seconds [ negsuc n ↦ "set lock mode to not wait" | pos n ↦ wait_sql n ]) "lock_wait"
      sq_lockwait
  update clear_error

abbrev pub sq_batchstart : ℕ
sq_batchstart = 141

abbrev pub sq_batchend : ℕ
sq_batchend = 142

unfoldable pub batch_begin : Net → Action
batch_begin net = do
  update clear_error
  verify_txn_ready "batch_begin"
  refuse_if (λ c. c.in_batch) "batch_begin" sq_batchstart "batch already active"
      Status.invalid_state
  send_or_fail net 0 (0 ∷ sq_batchstart ∷ []) "batch_begin" sq_batchstart
      "failed to send SQ_BATCHSTART"
  update (λ c. record c { txn = record (c.txn) { in_batch = true } })
  update clear_error

unfoldable pub batch_end : Net → Action
batch_end net = do
  update clear_error
  verify_txn_ready "batch_end"
  refuse_if (λ c. not c.in_batch) "batch_end" sq_batchend "no active batch" Status.invalid_state
  send_or_fail net 0 (0 ∷ sq_batchend ∷ []) "batch_end" sq_batchend "failed to send SQ_BATCHEND"
  update (λ c. record c { txn = record (c.txn) { in_batch = false } })
  update clear_error

-- The describe types of data access that open a transaction in manual mode.
abbrev pub is_data_access : ℕ → Bool
is_data_access t = leb 2 t && leb t 8 || t == 32 || t == 33 || t == 56

unfoldable pub autobegin : Net → ℕ → Action
autobegin net statement_type c =
    if c.autocommit || c.in_transaction
    then (c, Status.ok)
    else if is_data_access statement_type
    then begin net c
    else (c, Status.ok)

unfoldable pub track_transaction_statement : ℕ → Conn → Conn
track_transaction_statement t c =
    if t == 34
    then record c { txn = record (c.txn) { in_transaction = true } }
    else if t == 35
    then record c {
      txn = record (c.txn) { in_transaction = false; commit_epoch = (c.commit_epoch + 1) % 2 ^ 64 };
    }
    else if t == 36
    then record c {
      txn = record (c.txn) {
        in_transaction = false;
        rollback_epoch = (c.rollback_epoch + 1) % 2 ^ 64;
      };
    }
    else c
