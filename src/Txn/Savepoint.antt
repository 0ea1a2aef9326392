-- ===== src/Txn/Savepoint.antt =====
-- Savepoints of src/sqli_transaction.c: send_char_payload, savepoint_send_core and the three
-- operations on it.
pub mod Starts
use Prim.Native.String.{String}
use text.Mathlib.Text.{◌==◌ as str_eq}
use libsqli.Prelude.{
  ℕ, ◌/◌, ◌%◌, Bool, true, false, ◌&&◌, not, List, [], ◌∷◌, ltb, ◌==◌, if◌then◌else◌, length,
}
use libsqli.Status.{Status, is_ok, Result, done, fail}
use libsqli.Conn.{Conn, clear_error, set_error_context, set_error}
use libsqli.Txn.{
  Net, Action, ◌>>◌, update, refuse, refuse_if, send_or_fail, verify_txn_ready, begin,
  drain_txn_response, sq_eot,
}

abbrev io_status : Bool → Status
io_status ok = if ok then Status.ok else Status.io_error

-- A two-byte length, the encoded name, and a padding byte behind an odd length, each a send.
send_char_payload : Net → String → Status
send_char_payload net name = elim (net.encode name) [
  | fail status ↦ status
  | done bytes ↦
      if ltb 0xffff (length bytes)
      then Status.invalid_state
      else if not (net.send 1 ((length bytes / 256) ∷ (length bytes % 256) ∷ []))
      then Status.io_error
      else if ltb 0 (length bytes) && not (net.send 2 bytes)
      then Status.io_error
      else if length bytes % 2 == 1
      then io_status (net.send 3 (0 ∷ []))
      else Status.ok
]

-- Outside a transaction: begin one in manual mode, refuse in autocommit mode.
need_transaction : Net → ℕ → Action
need_transaction net opcode c =
    if c.in_transaction
    then (c, Status.ok)
    else if not c.autocommit
    then begin net c
    else refuse "savepoint" opcode "savepoint requires an active transaction" Status.invalid_state c

send_name : Net → ℕ → String → Action
send_name net opcode name c =
    let status = send_char_payload net name in
    if is_ok status
    then (c, status)
    else refuse "savepoint" opcode "failed to send savepoint name" status c

-- The unique flag, which only sqli_savepoint_set sends.
send_flag : Net → ℕ → List ℕ → Action
send_flag net opcode [] c = (c, Status.ok)
send_flag net opcode (b ∷ rest) c =
    send_or_fail net 4 (0 ∷ b ∷ []) "savepoint" opcode "failed to send savepoint flag" c

end_exchange : Net → ℕ → Action
end_exchange net opcode = do
  send_or_fail net 5 (0 ∷ sq_eot ∷ []) "savepoint" opcode "failed to send savepoint EOT"
  update (set_error_context "savepoint/recv" opcode)
  drain_txn_response net "failed to receive savepoint response"
  update clear_error

-- The messages of a savepoint operation, and the reply.
exchange : Net → ℕ → String → List ℕ → Action
exchange net opcode name flag = do
  send_or_fail net 0 (0 ∷ opcode ∷ []) "savepoint" opcode "failed to send savepoint opcode"
  send_name net opcode name
  send_flag net opcode flag
  end_exchange net opcode

-- The network answers the BEGIN of manual mode by `begin_net`, and the savepoint's own messages by
-- `net`.
pub savepoint_send_core : Net → Net → ℕ → String → List ℕ → Action
savepoint_send_core begin_net net opcode name flag = do
  update clear_error
  verify_txn_ready "savepoint"
  refuse_if (λ c. str_eq name "") "savepoint" opcode "savepoint name must not be empty"
      Status.invalid_state
  need_transaction begin_net opcode
  exchange net opcode name flag

pub savepoint_set : Net → Net → String → Bool → Action
savepoint_set begin_net net name unique =
    savepoint_send_core begin_net net 137 name ((if unique then 1 else 0) ∷ [])

pub savepoint_release : Net → Net → String → Action
savepoint_release begin_net net name = savepoint_send_core begin_net net 138 name []

pub savepoint_rollback : Net → Net → String → Action
savepoint_rollback begin_net net name = savepoint_send_core begin_net net 139 name []

-- The three operations as one call.
pub data Request : Type 0 where
  sets : String → Bool → Request
  releases rolls_back : String → Request

pub savepoint : Net → Net → Request → Action
unfolding savepoint_set savepoint_release savepoint_rollback
savepoint begin_net net (sets name unique) = savepoint_set begin_net net name unique
savepoint begin_net net (releases name) = savepoint_release begin_net net name
savepoint begin_net net (rolls_back name) = savepoint_rollback begin_net net name
