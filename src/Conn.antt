-- ===== src/Conn.antt =====
-- The connection object of src/sqli_internal.h: its lifecycle bits, its diagnostics and its
-- transaction state, with the inline helpers on diagnostics there, sqli_error, sqli_errno and
-- sqli_conn_discard of src/sqli_conn.c, and sqli_close of src/sqli_handshake.c.
-- Left out of the record: I/O buffers, capabilities, locale, environment and cached handles. Every
-- text that the library stores in a diagnostic is shorter than its buffer, so nothing is cut.
mod Examples
use Prim.Native.String.{String}
use text.Mathlib.Text.{◌==◌ as str_eq}
use libsqli.Prelude.{
  ℕ, zero, suc, ◌+◌, ◌%◌, ◌^◌, Bool, true, false, ◌&&◌, not, Option, none, some, ltb, ◌==◌,
  if◌then◌else◌,
}
use libsqli.Prelude.Int.{ℤ, pos, negsuc, ltb_ℤ}
use libsqli.Status.{Status, is_err}

-- sqli_conn_state
pub data ConnState : Type 0 where
  closed connecting handshake version info auth dbopen ready error : ConnState

abbrev pub is_ready : ConnState → Bool
is_ready s = elim s [ ready ↦ true | _ ↦ false ]

-- sqli_isolation_level; any other number is refused where a level is set.
pub data Isolation : Type 0 where
  committed repeatable_read serializable cursor : Isolation

pub record ErrorInfo : Type 0 where
  pub has_error : Bool
  pub status : Status
  pub sqlcode : ℤ
  pub isamcode : ℤ
  pub opcode : ℕ
  pub context : String
  pub message : String

abbrev pub no_error_info : ErrorInfo
no_error_info = record {
  has_error = false;
  status = Status.ok;
  sqlcode = pos 0;
  isamcode = pos 0;
  opcode = 0;
  context = "";
  message = "";
}

-- What the library last said of an operation.
pub record Diagnostics : Type 0 where
  pub errmsg : String
  pub error_info : ErrorInfo
  pub error_context : String
  pub error_opcode : ℕ

-- The transaction state: the epochs count the commits and the rollbacks.
pub record TxnState : Type 0 where
  pub in_transaction : Bool
  pub in_batch : Bool
  pub autocommit : Bool
  pub isolation : Isolation
  pub commit_epoch : ℕ
  pub rollback_epoch : ℕ

-- The three bits of the atomic `lifecycle` word are `pinned`, `discarded` and `released`.
pub record Conn : Type 0 where
  pub pinned : Bool
  pub discarded : Bool
  pub released : Bool
  pub diag : Diagnostics
  pub open diag use *
  pub socket_fd : ℤ
  pub state : ConnState
  pub database_open : Bool
  pub txn : TxnState
  pub open txn use *

abbrev pub has_socket : Conn → Bool
has_socket c = not (ltb_ℤ c.socket_fd (pos 0))

abbrev pub no_diagnostics : Diagnostics
no_diagnostics = record {
  errmsg = "";
  error_info = no_error_info;
  error_context = "";
  error_opcode = 0;
}

unfoldable pub clear_error : Conn → Conn
clear_error c = record c { diag = no_diagnostics }

unfoldable pub set_error_context : String → ℕ → Conn → Conn
set_error_context context opcode c = record c {
  diag = record (c.diag) { error_context = context; error_opcode = opcode };
}

unfoldable pub set_error : String → Conn → Conn
set_error msg c = record c {
  diag = record {
    errmsg = msg;
    error_info = record {
      has_error = true;
      status = Status.err;
      sqlcode = pos 0;
      isamcode = pos 0;
      opcode = c.diag.error_opcode;
      context = c.diag.error_context;
      message = msg;
    };
    error_context = c.diag.error_context;
    error_opcode = c.diag.error_opcode;
  };
}

-- The connection that sqli_create hands out (its defaults for what the record holds).
unfoldable pub create : Conn
create = record {
  pinned = false;
  discarded = false;
  released = false;
  diag = no_diagnostics;
  socket_fd = negsuc 0;
  state = ConnState.closed;
  database_open = false;
  txn = record {
    in_transaction = false;
    in_batch = false;
    autocommit = true;
    isolation = Isolation.committed;
    commit_epoch = 0;
    rollback_epoch = 0;
  };
}

-- sqli_tcp_discard: nothing to do without a descriptor. `answer` is what the teardown of TLS, the
-- shutdown and the close of the descriptor say.
unfoldable pub tcp_discard : Status → Conn → Status
tcp_discard answer c = if has_socket c then answer else Status.ok

-- SQLI_ERR keeps the descriptor; any other answer gives it up.
unfoldable pub conn_discard : Status → Conn → Conn × Status
unfolding tcp_discard
conn_discard answer c =
    let broken : Conn = record c {
      discarded = true;
      state = ConnState.error;
      database_open = false;
    } in
    let status = tcp_discard answer c in
    if is_err status then (broken, status) else (record broken { socket_fd = negsuc 0 }, status)

-- sqli_close. What it sends and drains on the socket changes nothing of the record.
unfoldable pub close : Status → Conn → Conn
unfolding conn_discard clear_error
close answer c =
    if c.pinned
    then c
    else if c.discarded
    then (conn_discard answer c).0
    else clear_error
        (record c { socket_fd = negsuc 0; state = ConnState.closed; database_open = false })
