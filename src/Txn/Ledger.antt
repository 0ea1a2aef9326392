-- ===== src/Txn/Ledger.antt =====
-- Histories of the operations of src/sqli_transaction.c, and the transactions they open.
use libsqli.Prelude.{
  ℕ, ◌+◌, ◌^◌, ◌≤◌, ◌<◌, ◌≡◌, not, ◌&&◌, List, [], ◌∷◌, length, arith, if◌then◌else◌,
}
use libsqli.Prelude.Bytes.{All}
use libsqli.Conn.{TxnState, Conn}
use libsqli.Txn.Steps.{TxnStep, stay, start, end_commit, end_rollback, frame, mode, level}
use libsqli.Txn.Calls.{Call, perform, IsQuietCall, perform-TxnStep}

unfoldable pub run : Conn → List Call → Conn
run c [] = c
run c (call ∷ calls) = run (perform call c).0 calls

abbrev pub active : TxnState → ℕ
active v = if v.in_transaction then 1 else 0

abbrev pub opened : TxnState → TxnState → ℕ
opened v w = if not v.in_transaction && w.in_transaction then 1 else 0

-- How many operations of a history open a transaction.
unfoldable pub opens : Conn → List Call → ℕ
opens c [] = 0
opens c (call ∷ calls) = opened (c.txn) ((perform call c).0.txn) + opens (perform call c).0 calls

record Balance (v w : TxnState) : Type 0 where
  books :
      opened v w + active v + v.commit_epoch + v.rollback_epoch
      ≡ active w + w.commit_epoch + w.rollback_epoch
  commits : w.commit_epoch ≤ v.commit_epoch + 1
  rollbacks : w.rollback_epoch ≤ v.rollback_epoch + 1

TxnStep-Balance :
    (v w : TxnState)
    → v.commit_epoch + 1 < 2 ^ 64
    → v.rollback_epoch + 1 < 2 ^ 64
    → TxnStep v w
    → Balance v w
TxnStep-Balance v w hc hr (stay e) = ground arith
TxnStep-Balance v w hc hr (start idle e) = ground arith
TxnStep-Balance v w hc hr (end_commit on e) = ground arith
TxnStep-Balance v w hc hr (end_rollback on e) = ground arith
TxnStep-Balance v w hc hr (frame b e) = ground arith
TxnStep-Balance v w hc hr (mode b h e) = ground arith
TxnStep-Balance v w hc hr (level i h e) = ground arith

-- Over any history of these operations in which neither epoch counter wraps, the transactions that
-- were opened, with the one that was active at the start, are the commits and the rollbacks that the
-- epochs count, with the one that is active at the end. sqli_query is asked to leave the
-- transaction state alone where an isolation level or a lock wait is set.
pub run_ledger :
    (c : Conn) (calls : List Call)
    → All IsQuietCall calls
    → c.commit_epoch + length calls < 2 ^ 64
    → c.rollback_epoch + length calls < 2 ^ 64
    → opens c calls + active (c.txn) + c.commit_epoch + c.rollback_epoch
      ≡ active ((run c calls).txn) + (run c calls).commit_epoch + (run c calls).rollback_epoch
unfolding run opens
run_ledger c [] q hc hr = omega arith
run_ledger c (call ∷ calls) (q, qs) hc hr =
    let c' = (perform call c).0 in
    let b =
      TxnStep-Balance (c.txn) (c'.txn) (omega arith) (omega arith) (perform-TxnStep call c q) in
    omega (
      arith,
      b.books,
      run_ledger c' calls qs (omega (arith, b.commits)) (omega (arith, b.rollbacks)),
    )
