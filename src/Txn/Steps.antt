-- ===== src/Txn/Steps.antt =====
-- The transaction state behind each operation of src/sqli_transaction.c, and the abstract machine.
use Prim.Native.String.{String}
use libsqli.Prelude.{
  refl, sym, ◌∙◌, ap, Bool-cases, ◌+◌, ◌%◌, ◌^◌, ◌≡◌, Bool, true, false, arith, ◌⊎◌, inl, inr,
}
use libsqli.Status.{Status, is_ok}
use libsqli.Conn.{TxnState, Conn, Isolation, ready, clear_error, set_error, set_error_context}
use libsqli.Txn.{
  differs, begin_command, commit_command, rollback_command, Action, ◌>>◌, update, Command,
  run_command, verify_txn_ready, drain_txn_response, Net, begin, commit, rollback,
}

pub drain_effect :
    (net : Net) (msg : String) (c : Conn) → (drain_txn_response net msg c).0.txn ≡ c.txn
unfolding drain_txn_response set_error
drain_effect net msg c = ground arith

-- The check either passes, on a ready connection, or changes the diagnostics alone.
pub verify_effect :
    (op : String) (c : Conn)
    → ((verify_txn_ready op c ≡ (c, Status.ok)) × (c.state ≡ ready))
      ⊎ ((is_ok (verify_txn_ready op c).1 ≡ false) × ((verify_txn_ready op c).0.txn ≡ c.txn))
unfolding verify_txn_ready set_error set_error_context
verify_effect op c = ground arith

pub Status-cases : (s : Status) → (s ≡ Status.ok) ⊎ (is_ok s ≡ false)
Status-cases Status.ok = inl refl
Status-cases _ = inr refl

-- What a call from the connection `c` owes its caller, with the state `t` and the status `s` after
-- it: `needs` says whether a transaction has to be active, `moved` is the state that SQLI_OK means.
pub record Owes (needs : Bool) (c : Conn) (moved t : TxnState) (s : Status) : Type 0 where
  pub success : s ≡ Status.ok → (c.in_transaction ≡ needs) × (c.state ≡ ready) × (t ≡ moved)
  pub failure : is_ok s ≡ false → t ≡ c.txn

pub true≢false : {A : Type 0} → true ≡ false → A
true≢false e = cc

refused-Owes :
    {needs : Bool} {c : Conn} {moved t : TxnState} {s : Status}
    → is_ok s ≡ false
    → t ≡ c.txn
    → Owes needs c moved t s
refused-Owes bad same = record {
  success = λ e. true≢false (sym (ap is_ok e) ∙ bad);
  failure = λ _. same;
}

moved-Owes :
    {needs : Bool} {c : Conn} {moved t : TxnState} {s : Status}
    → c.in_transaction ≡ needs
    → c.state ≡ ready
    → is_ok s ≡ true
    → t ≡ moved
    → Owes needs c moved t s
moved-Owes a b good same = record {
  success = λ _. (a, b, same);
  failure = λ e. true≢false (sym good ∙ e);
}

differs-eq : (a b : Bool) → differs a b ≡ false → b ≡ a
differs-eq true true e = refl
differs-eq true false e = true≢false e
differs-eq false true e = true≢false e
differs-eq false false e = refl

-- What is left of a command once its message is sent.
finish : Command → Net → Action
finish cmd net = do
  drain_txn_response net cmd.recv_failure
  update (λ c. record c { txn = cmd.move c.txn })
  update clear_error

finish-Owes :
    (cmd : Command) (net : Net) (c sent : Conn)
    → c.in_transaction ≡ cmd.needs_transaction
    → c.state ≡ ready
    → sent.txn ≡ c.txn
    → Owes cmd.needs_transaction c
        (cmd.move c.txn)
        (finish cmd net sent).0.txn
        (finish cmd net sent).1
unfolding finish clear_error
finish-Owes cmd net c sent a b same =
    let drained = drain_effect net cmd.recv_failure sent in
    elim (Bool-cases (is_ok (drain_txn_response net cmd.recv_failure sent).1)) [
      | inl good ↦ rw good (moved-Owes a b refl (ap cmd.move (drained ∙ same)))
      | inr bad ↦ rw bad (refused-Owes bad (drained ∙ same))
    ]

-- With SQLI_OK a command was in order, on a ready connection, and made its move; with any other
-- status the transaction state is as it was.
pub command_effect :
    (cmd : Command) (net : Net) (c : Conn)
    → Owes cmd.needs_transaction c
        (cmd.move c.txn)
        (run_command cmd net c).0.txn
        (run_command cmd net c).1
unfolding run_command clear_error set_error set_error_context finish
command_effect cmd net c = elim (verify_effect cmd.name (clear_error c)) [
  | inr (bad, same) ↦ rw bad (refused-Owes bad same)
  | inl (good, isready) ↦
      rw good (elim (Bool-cases (differs cmd.needs_transaction c.in_transaction)) [
        | inl refused ↦ rw refused (refused-Owes refl refl)
        | inr fine ↦ rw fine (elim (Bool-cases (net.send 0 cmd.bytes)) [
          | inr lost ↦ rw lost (refused-Owes refl refl)
          | inl sent ↦ rw sent (
              finish-Owes cmd net c (set_error_context cmd.recv_name cmd.opcode (clear_error c))
                (differs-eq _ _ fine) isready refl)
        ])
      ])
]

-- The state of a transaction that was opened, was committed, was rolled back.
abbrev opened : TxnState → TxnState
opened v = record v { in_transaction = true }

abbrev committed : TxnState → TxnState
committed v = record v { in_transaction = false; commit_epoch = (v.commit_epoch + 1) % 2 ^ 64 }

abbrev rolled_back : TxnState → TxnState
rolled_back v = record v {
  in_transaction = false;
  rollback_epoch = (v.rollback_epoch + 1) % 2 ^ 64;
}

-- What begin, commit and rollback owe their caller.
abbrev pub BoundaryContract : Net → Conn → Type 0
BoundaryContract net c =
    Owes false c (opened c.txn) (begin net c).0.txn (begin net c).1
    × Owes true c (committed c.txn) (commit net c).0.txn (commit net c).1
    × Owes true c (rolled_back c.txn) (rollback net c).0.txn (rollback net c).1

-- Whatever the network answers: a begin that reports SQLI_OK found a ready connection outside a
-- transaction and opened one; a commit or a rollback that reports SQLI_OK found an active
-- transaction, ended it, and raised its own epoch by one (modulo 2 ^ 64); and each of the three
-- that reports another status left the transaction state as it was.
pub boundary_effect : (net : Net) (c : Conn) → BoundaryContract net c
unfolding begin commit rollback
boundary_effect net c = (
  command_effect begin_command net c,
  command_effect commit_command net c,
  command_effect rollback_command net c,
)

pub begin_effect :
    (net : Net) (c : Conn) → Owes false c (opened c.txn) (begin net c).0.txn (begin net c).1
begin_effect net c = (boundary_effect net c).0

commit_effect :
    (net : Net) (c : Conn) → Owes true c (committed c.txn) (commit net c).0.txn (commit net c).1
commit_effect net c = (boundary_effect net c).1

rollback_effect :
    (net : Net) (c : Conn)
    → Owes true c (rolled_back c.txn) (rollback net c).0.txn (rollback net c).1
rollback_effect net c = (boundary_effect net c).2

-- The transaction as an abstract machine: what one operation may do to the state.
pub data TxnStep (v w : TxnState) : Type 0 where
  stay : w ≡ v → TxnStep v w
  start : v.in_transaction ≡ false → w ≡ record v { in_transaction = true } → TxnStep v w
  end_commit :
      v.in_transaction ≡ true
      → w ≡ record v { in_transaction = false; commit_epoch = (v.commit_epoch + 1) % 2 ^ 64 }
      → TxnStep v w
  end_rollback :
      v.in_transaction ≡ true
      → w ≡ record v { in_transaction = false; rollback_epoch = (v.rollback_epoch + 1) % 2 ^ 64 }
      → TxnStep v w
  frame : (b : Bool) → w ≡ record v { in_batch = b } → TxnStep v w
  mode :
      (b : Bool)
      → ((b ≡ false) ⊎ (v.autocommit ≡ true) ⊎ (v.in_transaction ≡ false))
      → w ≡ record v { autocommit = b }
      → TxnStep v w
  level : (i : Isolation) → v.in_transaction ≡ false → w ≡ record v { isolation = i } → TxnStep v w

pub begin_outcome :
    (net : Net) (c : Conn) → ((begin net c).1 ≡ Status.ok) ⊎ ((begin net c).0.txn ≡ c.txn)
begin_outcome net c = elim (Status-cases (begin net c).1) [
  | inl good ↦ inl good
  | inr bad ↦ inr ((begin_effect net c).failure bad)
]

pub begin-TxnStep : (net : Net) (c : Conn) → TxnStep (c.txn) ((begin net c).0.txn)
begin-TxnStep net c = elim (begin_outcome net c) [
  | inl good ↦ let (idle, _, e) = (begin_effect net c).success good in start idle e
  | inr same ↦ stay same
]

pub commit-TxnStep : (net : Net) (c : Conn) → TxnStep (c.txn) ((commit net c).0.txn)
commit-TxnStep net c = elim (Status-cases (commit net c).1) [
  | inl good ↦ let (active, _, e) = (commit_effect net c).success good in end_commit active e
  | inr bad ↦ stay ((commit_effect net c).failure bad)
]

pub rollback-TxnStep : (net : Net) (c : Conn) → TxnStep (c.txn) ((rollback net c).0.txn)
rollback-TxnStep net c = elim (Status-cases (rollback net c).1) [
  | inl good ↦ let (active, _, e) = (rollback_effect net c).success good in end_rollback active e
  | inr bad ↦ stay ((rollback_effect net c).failure bad)
]
