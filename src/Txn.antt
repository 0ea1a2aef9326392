-- ===== src/Txn.antt =====
-- src/sqli_transaction.c: transactions, savepoints, session settings and the batch frame.
-- An operation takes the connection and gives it back with a status. What the network answers is a
-- value of `Net`: whether sqli_tcp_send takes all the bytes it is given, how sqli_receive_dispatch
-- answers a command (it changes the diagnostics of the connection and no other field of the
-- record), and how sqli_query answers a statement of the session.
pub mod Session
pub mod Savepoint
pub mod Steps
pub mod Calls
pub mod Ledger
mod Examples
use Prim.Native.String.{String}
use text.Mathlib.Text.{◌==◌ as str_eq}
use libsqli.Prelude.{
  ℕ, zero, suc, ◌+◌, ◌*◌, ◌/◌, ◌%◌, ◌^◌, Bool, true, false, ◌&&◌, not, List, [], ◌∷◌, ◌++◌, Option,
  none, some, ltb, leb, ◌==◌, if◌then◌else◌, length,
}
use libsqli.Status.{Status, is_ok, Result, done, fail}
use libsqli.Conn.{
  Conn, TxnState, ErrorInfo, Isolation, is_ready, has_socket, clear_error, set_error_context,
  set_error,
}

-- sqli_receive_dispatch, and the saw_error mark of the result that it fills in.
pub record Reply : Type 0 where
  pub status : Status
  pub saw_error : Bool
  pub errmsg : String
  pub error_info : ErrorInfo

pub record Net : Type 0 where
  -- the answer to the k-th send of an operation
  pub send : ℕ → List ℕ → Bool
  pub reply : Reply
  -- sqli_conn_encode_client_to_db on the name of a savepoint
  pub encode : String → Result (List ℕ)
  -- sqli_query on a statement of the session
  pub query : String → Conn → Conn × Status

abbrev pub Action : Type 0
Action = Conn → Conn × Status

-- The next action, if this one ends with SQLI_OK.
infixl 5 ◌>>◌
abbrev pub ◌>>◌ : Action → Action → Action
◌>>◌ m k c = let (c', status) = m c in if is_ok status then k c' else (c', status)

abbrev pub update : (Conn → Conn) → Action
update f c = (f c, Status.ok)

-- set_error_context, set_error, return.
abbrev pub refuse : String → ℕ → String → Status → Action
refuse context opcode msg status c = (set_error msg (set_error_context context opcode c), status)

abbrev pub refuse_if : (Conn → Bool) → String → ℕ → String → Status → Action
refuse_if test context opcode msg status c =
    if test c then refuse context opcode msg status c else (c, Status.ok)

unfoldable pub verify_txn_ready : String → Action
verify_txn_ready op = do
  refuse_if (λ c. not (is_ready c.state)) op 0 "connection not ready" Status.invalid_state
  refuse_if (λ c. not (has_socket c)) op 0 "socket not connected" Status.invalid_state

abbrev pub send_or_fail : Net → ℕ → List ℕ → String → ℕ → String → Action
send_or_fail net k bytes context opcode msg c =
    if net.send k bytes then (c, Status.ok) else refuse context opcode msg Status.io_error c

-- drain_txn_response, and the message where the reply left none.
unfoldable pub drain_txn_response : Net → String → Action
drain_txn_response net msg c =
    let r = net.reply in
    let c' : Conn = record c {
      diag = record (c.diag) { errmsg = r.errmsg; error_info = r.error_info };
    } in
    let status = if is_ok r.status && r.saw_error then Status.proto_error else r.status in
    if is_ok status
    then (c', status)
    else (if c'.error_info.has_error then c' else set_error msg c', status)

abbrev pub sq_eot : ℕ
sq_eot = 12

abbrev pub sq_cmmtwork : ℕ
sq_cmmtwork = 19

abbrev pub sq_rbwork : ℕ
sq_rbwork = 20

abbrev pub sq_begin : ℕ
sq_begin = 35

-- What sets sqli_begin, sqli_commit and sqli_rollback apart.
pub record Command : Type 0 where
  pub name : String
  pub recv_name : String
  pub opcode : ℕ
  pub bytes : List ℕ
  -- whether a transaction must be active
  pub needs_transaction : Bool
  pub refusal : String
  pub send_failure : String
  pub recv_failure : String
  pub move : TxnState → TxnState

abbrev pub differs : Bool → Bool → Bool
differs true b = not b
differs false b = b

-- The body that the three share, line by line.
unfoldable pub run_command : Command → Net → Action
run_command cmd net = do
  update clear_error
  verify_txn_ready cmd.name
  refuse_if (λ c. differs cmd.needs_transaction c.in_transaction) cmd.name cmd.opcode cmd.refusal
      Status.invalid_state
  send_or_fail net 0 cmd.bytes cmd.name cmd.opcode cmd.send_failure
  update (set_error_context cmd.recv_name cmd.opcode)
  drain_txn_response net cmd.recv_failure
  update (λ c. record c { txn = cmd.move c.txn })
  update clear_error

abbrev pub begin_command : Command
begin_command = record {
  name = "begin";
  recv_name = "begin/recv";
  opcode = sq_begin;
  bytes = 0 ∷ sq_eot ∷ 0 ∷ sq_begin ∷ [];
  needs_transaction = false;
  refusal = "transaction already in progress";
  send_failure = "failed to send BEGIN";
  recv_failure = "failed to receive begin response";
  move = λ t. record t { in_transaction = true };
}

abbrev pub commit_command : Command
commit_command = record {
  name = "commit";
  recv_name = "commit/recv";
  opcode = sq_cmmtwork;
  bytes = 0 ∷ sq_eot ∷ 0 ∷ sq_cmmtwork ∷ [];
  needs_transaction = true;
  refusal = "no active transaction to commit";
  send_failure = "failed to send COMMIT";
  recv_failure = "failed to receive commit response";
  move = λ t. record t { in_transaction = false; commit_epoch = (t.commit_epoch + 1) % 2 ^ 64 };
}

abbrev pub rollback_command : Command
rollback_command = record {
  name = "rollback";
  recv_name = "rollback/recv";
  opcode = sq_rbwork;
  bytes = 0 ∷ sq_eot ∷ 0 ∷ sq_rbwork ∷ 0 ∷ 0 ∷ [];
  needs_transaction = true;
  refusal = "no active transaction to roll back";
  send_failure = "failed to send ROLLBACK";
  recv_failure = "failed to receive rollback response";
  move = λ t. record t { in_transaction = false; rollback_epoch = (t.rollback_epoch + 1) % 2 ^ 64 };
}

unfoldable pub begin : Net → Action
unfolding run_command
begin = run_command begin_command

unfoldable pub commit : Net → Action
unfolding run_command
commit = run_command commit_command

unfoldable pub rollback : Net → Action
unfolding run_command
rollback = run_command rollback_command
