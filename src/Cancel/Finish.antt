-- ===== src/Cancel/Finish.antt =====
-- The end of a cancel operation (src/sqli_cancel_posix.c), and what comes after it.
use libsqli.Prelude.{
  ◌≡◌, refl, sym, ◌∙◌, ap, Bool, true, false, ◌||◌, List, [], ◌∷◌, some, arith, ◌⊎◌, inl, inr, ◌↔◌,
}
use libsqli.Prelude.Int.{negsuc}
use libsqli.Status.{Status}
use libsqli.Cancel.Outcomes.{IsUnsettled, IsJudged, unsettled_lem, or_cases, outcome_of-IsJudged}
use libsqli.Conn.{Conn, ConnState, conn_discard, tcp_discard}
use libsqli.Cancel.{
  System, Operation, CancelState, is_fresh, is_active, is_terminal, register_operation,
  is_tcp_connection, is_free, enroll, arm, request, finish, dispose, response_unknown, Outcome,
  already_requested, completed,
}
use libsqli.Cancel.Safety.{Event, registers, arms, requests, finishes, closes, reports, happen, run}

-- What finish promises of an active operation.
pub record IsFinished (answer status : Status) (s t : System) : Type 0 where
  pub over : t.op.state ≡ CancelState.terminal
  pub unlinked : t.op.linked ≡ false
  pub unpinned : t.conn.pinned ≡ false
  pub judged : IsJudged s.op.armed status s.conn.error_info.sqlcode t.op.outcome
  pub marked :
      (t.conn.discarded ≡ true)
      ↔ ((s.conn.discarded ≡ true) ⊎ IsUnsettled s.op.armed status s.conn.error_info.sqlcode)
  pub recorded : t.op.connection_discarded ≡ t.conn.discarded
  pub result : t.op.operation_status ≡ status
  pub copied : t.op.diagnostic ≡ s.conn.error_info
  pub diagnosed : t.conn.diag ≡ s.conn.diag
  pub kept : t.conn.discarded ≡ false → t.conn.socket_fd ≡ s.conn.socket_fd
  pub torn_down :
      t.conn.discarded ≡ true
      → t.conn.state ≡ ConnState.error
        × ((t.op.disposal_status ≡ Status.err) ⊎ (t.conn.socket_fd ≡ negsuc 0))

dispose_keeps :
    (answer before : Status) (c : Conn)
    → ((dispose answer before c).0.discarded ≡ c.discarded)
      × ((dispose answer before c).0.diag ≡ c.diag)
      × (c.discarded ≡ false → (dispose answer before c).0.socket_fd ≡ c.socket_fd)
      × (c.discarded ≡ true
          → (dispose answer before c).0.state ≡ ConnState.error
            × (((dispose answer before c).1 ≡ Status.err)
                ⊎ ((dispose answer before c).0.socket_fd ≡ negsuc 0)))
unfolding dispose conn_discard tcp_discard
dispose_keeps answer before c = ground arith

-- Finishing an active operation ends it with its result and a copy of the diagnostics, and releases
-- the connection. The outcome is `executed` exactly where the status is SQLI_OK, `interrupted` where
-- another status comes with the code -213 of the server; else it is `unknown` where the statement was
-- sent and there is no code of the server, where the connection broke or timed out, and where the data
-- were not understood with no code of the server, and `failed` in every other case. The connection is
-- discarded afterwards exactly where it was before, or where the statement was sent, did not succeed
-- and there is no code of the server; a discarded connection has its descriptor given up unless the
-- teardown says SQLI_ERR, any other keeps it.
pub finish-IsFinished :
    (answer status : Status) (s : System)
    → is_active s.op.state ≡ true
    → IsFinished answer status s (finish answer status s).0
unfolding finish
finish-IsFinished answer status s h =
    let c : Conn = record (s.conn) {
      discarded = response_unknown s.op s.conn status || s.conn.discarded;
    } in
    let (marks, diags, keeps, tears) = dispose_keeps answer s.op.disposal_status c in
    let cases = or_cases (response_unknown s.op s.conn status) s.conn.discarded in
    let unsettled = unsettled_lem s.op s.conn status in
    rw h (record {
      over = refl;
      unlinked = refl;
      unpinned = refl;
      judged = outcome_of-IsJudged s.op s.conn status;
      marked = (
        λ e. elim (cases.0 (sym marks ∙ e)) [ inl a ↦ inr (unsettled.0 a) | inr b ↦ inl b ],
        λ either. marks ∙ cases.1 (elim either [ inl b ↦ inr b | inr a ↦ inl (unsettled.1 a) ]),
      );
      recorded = sym marks;
      result = refl;
      copied = refl;
      diagnosed = diags;
      kept = λ e. keeps (sym marks ∙ e);
      torn_down = λ e. tears (sym marks ∙ e);
    })

-- An operation that has ended is changed by no further event, whatever happens to the connection.
pub happen-terminal :
    (e : Event) (s : System) → is_terminal s.op.state ≡ true → (happen e s).op ≡ s.op
unfolding happen register_operation arm request finish
happen-terminal (registers mutex inet at_once) s h = ground arith
happen-terminal (arms mutex answer) s h = ground arith
happen-terminal (requests mutex answer) s h = ground arith
happen-terminal (finishes mutex answer status) s h = ground arith
happen-terminal (closes answer) s h = refl
happen-terminal (reports d) s h = refl

-- The history of an ended operation is over.
pub run-terminal :
    (es : List Event) (s : System) → is_terminal s.op.state ≡ true → (run s es).op ≡ s.op
unfolding run
run-terminal [] s h = refl
run-terminal (e ∷ es) s h =
    let same = happen-terminal e s h in
    run-terminal es (happen e s) (ap (λ (p : Operation). is_terminal p.state) same ∙ h) ∙ same

-- A cancellation requested before registration keeps the statement from running: registering then
-- says not to execute, ends the operation, sends nothing and leaves the connection unpinned.
pub register-request_fresh :
    (answer : Status) (inet at_once : Bool) (s : System)
    → is_fresh s.op.state ≡ true
    → is_free s.conn ≡ true
    → is_tcp_connection inet s.conn ≡ true
    → let (t, status, out) = register_operation inet at_once (request answer s).0 in
      (status ≡ Status.ok)
      × (out ≡ some false)
      × (t.op.state ≡ CancelState.terminal)
      × (t.op.outcome ≡ Outcome.not_executed)
      × (t.sent ≡ s.sent)
      × (t.conn ≡ s.conn)
unfolding register_operation request enroll
register-request_fresh answer inet at_once s h k l = ground arith

-- A second request sends nothing and says so: it finds the first one, or an operation that ended.
request-request :
    (a b : Status) (s : System)
    → let t = (request a s).0 in
      ((request b t).0 ≡ t)
      × (((request b t).2 ≡ some already_requested) ⊎ ((request b t).2 ≡ some completed))
unfolding request
request-request a b s = ground arith
