-- ===== src/Txn/Session/Levels.antt =====
-- sqli_set_isolation_level and the transaction state (src/sqli_transaction.c).
use Prim.Native.String.{String}
use libsqli.Prelude.{ℕ, ◌≡◌, false, Option-cases, arith, ◌⊎◌, inl, inr, Bool-cases, ltb}
use libsqli.Conn.{Conn, Isolation, clear_error, set_error, set_error_context}
use libsqli.Prelude.Int.{ℤ, pos, negsuc}
use libsqli.Status.{is_ok}
use libsqli.Txn.Steps.{verify_effect}
use libsqli.Txn.{Net}
use libsqli.Txn.Session.{
  set_session_isolation, set_isolation, set_isolation_level, set_lock_wait, apply_session_sql,
  isolation_of, isolation_sql,
}

-- What is asked of sqli_query on the statements that set up a session: it leaves the transaction
-- state alone.
abbrev pub IsQuiet : Net → Type 0
IsQuiet net = (sql : String) (c : Conn) → (net.query sql c).0.txn ≡ c.txn

session_effect :
    (net : Net) (i : Isolation) (c : Conn)
    → IsQuiet net
    → (set_session_isolation net i c).0.txn ≡ c.txn
unfolding set_session_isolation set_error_context
session_effect net i c quiet = ground (arith, quiet (isolation_sql i) c)

set_isolation_effect :
    (net : Net) (i : Isolation) (c : Conn)
    → IsQuiet net
    → ((set_isolation net i c).0.txn ≡ c.txn)
      ⊎ ((set_isolation net i c).0.txn ≡ record (c.txn) { isolation = i })
unfolding set_isolation clear_error
set_isolation_effect net i c quiet = ground (arith, session_effect net i c quiet)

-- Where sqli_query leaves the transaction state alone, setting the isolation level changes at most
-- the level, and that only outside a transaction.
pub isolation_frame :
    (net : Net) (n : ℕ) (c : Conn)
    → IsQuiet net
    → ((set_isolation_level net n c).0.txn ≡ c.txn)
      ⊎ ((i : Isolation) × (c.in_transaction ≡ false)
          × ((set_isolation_level net n c).0.txn ≡ record (c.txn) { isolation = i }))
unfolding set_isolation_level clear_error set_error
isolation_frame net n c quiet = elim (Option-cases (isolation_of n)) [
  | inl e ↦ inl (ground arith)
  | inr (i, e) ↦ elim (Bool-cases c.in_transaction) [
    | inl active ↦ inl (ground arith)
    | inr idle ↦ elim (Bool-cases (ltb 4 n)) [
      | inl big ↦ inl (ground arith)
      | inr small ↦ elim (set_isolation_effect net i (clear_error c) quiet) [
        | inl same ↦ inl (ground arith)
        | inr set ↦ inr (i, idle, ground arith)
      ]
    ]
  ]
]

-- Where sqli_query leaves the transaction state alone, setting the lock wait does so too.
pub lock_wait_frame :
    (net : Net) (wait_sql : ℕ → String) (seconds : ℤ) (c : Conn)
    → IsQuiet net
    → (set_lock_wait net wait_sql seconds c).0.txn ≡ c.txn
unfolding set_lock_wait clear_error apply_session_sql set_error_context
lock_wait_frame net wait_sql seconds c quiet =
    let c' = clear_error c in
    elim (verify_effect "lock_wait" c') [
      | inr (bad, same) ↦ rw bad same
      | inl (good, _) ↦
          let sql : String = elim seconds [
            | negsuc n ↦ "set lock mode to not wait"
            | pos n ↦ wait_sql n
          ] in
          rw good (elim (Bool-cases (is_ok (net.query sql c').1)) [
            | inl fine ↦ rw fine (rw fine (quiet sql c'))
            | inr failed ↦ rw failed (rw failed (quiet sql c'))
          ])
    ]
