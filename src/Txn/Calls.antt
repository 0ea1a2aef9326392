-- ===== src/Txn/Calls.antt =====
-- The operations of src/sqli_transaction.c as moves of the abstract transaction machine.
use mathlib.Core.Path.{refl}
use libsqli.Prelude.{
  [], ◌∷◌, ℕ, ◌≡◌, Bool, true, false, not, ◌&&◌, arith, ◌⊎◌, inl, inr, Bool-cases, ◌||◌,
}
use Prim.Native.String.{String}
use libsqli.Prelude.Int.{ℤ}
use libsqli.Conn.{Conn, clear_error, set_error, set_error_context}
use libsqli.Txn.{Net, Action, begin, commit, rollback}
use libsqli.Txn.Session.{
  sq_batchstart, sq_batchend, set_autocommit, set_isolation_level, set_lock_wait, batch_begin,
  batch_end, autobegin, is_data_access,
}
use libsqli.Txn.Savepoint.{Request, savepoint}
use libsqli.Txn.Savepoint.Starts.{savepoint_effect}
use libsqli.Txn.Session.Levels.{IsQuiet, isolation_frame, lock_wait_frame}
use libsqli.Txn.Steps.{
  verify_effect, TxnStep, stay, start, frame, mode, level, begin-TxnStep, commit-TxnStep,
  rollback-TxnStep,
}

set_autocommit-TxnStep : (on : Bool) (c : Conn) → TxnStep (c.txn) ((set_autocommit on c).0.txn)
unfolding set_autocommit clear_error set_error set_error_context
set_autocommit-TxnStep on c = elim (Bool-cases (on && not c.autocommit && c.in_transaction)) [
  | inl refused ↦ stay (ground arith)
  | inr fine ↦ mode on (ground arith) (ground arith)
]

autobegin-TxnStep : (net : Net) (t : ℕ) (c : Conn) → TxnStep (c.txn) ((autobegin net t c).0.txn)
unfolding autobegin
autobegin-TxnStep net t c = elim (Bool-cases (c.autocommit || c.in_transaction)) [
  | inl e ↦ stay (rw e)
  | inr e ↦ elim (Bool-cases (is_data_access t)) [
    | inl f ↦ rw (e, f) (begin-TxnStep net c)
    | inr f ↦ stay (rw (e, f))
  ]
]

batch_begin-frame :
    (net : Net) (c : Conn)
    → ((batch_begin net c).0.txn ≡ c.txn)
      ⊎ ((batch_begin net c).0.txn ≡ record (c.txn) { in_batch = true })
unfolding batch_begin clear_error set_error set_error_context
batch_begin-frame net c = elim (verify_effect "batch_begin" (clear_error c)) [
  | inr (bad, same) ↦ rw bad (inl same)
  | inl (good, _) ↦ rw good (elim (Bool-cases (c.in_batch)) [
    | inl refused ↦ rw refused (inl refl)
    | inr fine ↦ rw fine (elim (Bool-cases (net.send 0 (0 ∷ sq_batchstart ∷ []))) [
      | inr lost ↦ rw lost (inl refl)
      | inl sent ↦ rw sent (inr refl)
    ])
  ])
]

batch_end-frame :
    (net : Net) (c : Conn)
    → ((batch_end net c).0.txn ≡ c.txn)
      ⊎ ((batch_end net c).0.txn ≡ record (c.txn) { in_batch = false })
unfolding batch_end clear_error set_error set_error_context
batch_end-frame net c = elim (verify_effect "batch_end" (clear_error c)) [
  | inr (bad, same) ↦ rw bad (inl same)
  | inl (good, _) ↦ rw good (elim (Bool-cases (not c.in_batch)) [
    | inl refused ↦ rw refused (inl refl)
    | inr fine ↦ rw fine (elim (Bool-cases (net.send 0 (0 ∷ sq_batchend ∷ []))) [
      | inr lost ↦ rw lost (inl refl)
      | inl sent ↦ rw sent (inr refl)
    ])
  ])
]

savepoint-TxnStep :
    (begin_net net : Net) (r : Request) (c : Conn)
    → TxnStep (c.txn) ((savepoint begin_net net r c).0.txn)
savepoint-TxnStep begin_net net r c = elim (savepoint_effect begin_net net r c).0 [
  | inl same ↦ stay same
  | inr (idle, _, e) ↦ start idle e
]

isolation-TxnStep :
    (net : Net) (n : ℕ) (c : Conn)
    → IsQuiet net
    → TxnStep (c.txn) ((set_isolation_level net n c).0.txn)
isolation-TxnStep net n c quiet = elim (isolation_frame net n c quiet) [
  | inl same ↦ stay same
  | inr (i, idle, e) ↦ level i idle e
]

-- The operations that a client calls.
pub data Call : Type 0 where
  begins commits rolls_back batch_begins batch_ends : Net → Call
  savepoints : Net → Net → Request → Call
  sets_autocommit : Bool → Call
  sets_isolation_level : Net → ℕ → Call
  sets_lock_wait : Net → (ℕ → String) → ℤ → Call
  autobegins : Net → ℕ → Call

unfoldable pub perform : Call → Action
perform (begins net) = begin net
perform (commits net) = commit net
perform (rolls_back net) = rollback net
perform (batch_begins net) = batch_begin net
perform (batch_ends net) = batch_end net
perform (savepoints begin_net net r) = savepoint begin_net net r
perform (sets_autocommit on) = set_autocommit on
perform (sets_isolation_level net n) = set_isolation_level net n
perform (sets_lock_wait net wait_sql seconds) = set_lock_wait net wait_sql seconds
perform (autobegins net t) = autobegin net t

abbrev pub IsQuietCall : Call → Type 0
IsQuietCall (sets_isolation_level net n) = IsQuiet net
IsQuietCall (sets_lock_wait net wait_sql seconds) = IsQuiet net
IsQuietCall _ = Unit

-- Each of begin, commit, rollback, the batch frame, the savepoints, autocommit, the isolation
-- level, the lock wait and autobegin, whatever the network answers, makes at most one move of the
-- abstract machine: it opens a transaction where none is active, ends the active one by a commit or a rollback that is
-- counted once, sets the batch mark, sets the mode (never to autocommit from manual mode inside a
-- transaction), or sets the level outside a transaction. sqli_query is asked to leave the
-- transaction state alone where an isolation level or a lock wait is set.
pub perform-TxnStep :
    (call : Call) (c : Conn) → IsQuietCall call → TxnStep (c.txn) ((perform call c).0.txn)
unfolding perform
perform-TxnStep (begins net) c q = begin-TxnStep net c
perform-TxnStep (commits net) c q = commit-TxnStep net c
perform-TxnStep (rolls_back net) c q = rollback-TxnStep net c
perform-TxnStep (batch_begins net) c q = elim (batch_begin-frame net c) [
  | inl same ↦ stay same
  | inr e ↦ frame true e
]
perform-TxnStep (batch_ends net) c q = elim (batch_end-frame net c) [
  | inl same ↦ stay same
  | inr e ↦ frame false e
]
perform-TxnStep (savepoints begin_net net r) c q = savepoint-TxnStep begin_net net r c
perform-TxnStep (sets_autocommit on) c q = set_autocommit-TxnStep on c
perform-TxnStep (sets_isolation_level net n) c q = isolation-TxnStep net n c q
perform-TxnStep (sets_lock_wait net wait_sql seconds) c q =
    stay (lock_wait_frame net wait_sql seconds c q)
perform-TxnStep (autobegins net t) c q = autobegin-TxnStep net t c
