-- ===== src/Cancel/Safety.antt =====
-- What holds of a cancel operation and its connection after any sequence of calls
-- (src/sqli_cancel_posix.c), the close of the connection and the reports of the running statement
-- among them.
use libsqli.Prelude.{
  ◌≡◌, refl, sym, ◌∙◌, Bool, true, false, List, [], ◌∷◌, arith, inl, inr, Bool-cases, if◌then◌else◌,
}
use libsqli.Status.{Status, is_err}
use libsqli.Conn.{ConnState, tcp_discard, Conn, Diagnostics, close, conn_discard}
use libsqli.Txn.Steps.{true≢false}
use libsqli.Cancel.{
  System, Mutex, Call, locked, is_fresh, is_active, is_terminal, operation_create, enroll,
  register_operation, send_interrupt_locked, arm, request, finish, dispose, is_tcp_connection,
}

pub record IsSafe (s : System) : Type 0 where
  pub pinned : is_active s.op.state ≡ true → s.conn.pinned ≡ true
  pub linked : s.op.linked ≡ is_active s.op.state
  pub counted : s.sent ≡ (if s.op.send_attempted then 1 else 0)
  pub asked : s.op.send_attempted ≡ true → s.op.requested ≡ true
  pub served :
      is_active s.op.state ≡ true
      → s.op.armed ≡ true
      → s.op.requested ≡ true
      → s.op.send_attempted ≡ true
  pub cut : is_active s.op.state ≡ true → s.op.send_attempted ≡ true → s.conn.discarded ≡ true
  pub told :
      is_terminal s.op.state ≡ true → s.op.send_attempted ≡ true → s.op.connection_discarded ≡ true
  pub unused : is_fresh s.op.state ≡ true → s.op.armed ≡ false
  pub spent : s.op.send_attempted ≡ true → s.op.armed ≡ true

request-IsSafe : (answer : Status) (s : System) → IsSafe s → IsSafe (request answer s).0
unfolding request send_interrupt_locked
request-IsSafe answer s h = record {
  pinned = ground (arith, h.pinned);
  linked = ground (arith, h.linked);
  counted = ground (arith, h.counted, h.spent, h.unused);
  asked = ground (arith, h.asked);
  served = ground (arith, h.served);
  cut = ground (arith, h.cut, h.asked);
  told = ground (arith, h.told);
  unused = ground (arith, h.unused);
  spent = ground (arith, h.spent);
}

arm-IsSafe : (answer : Status) (s : System) → IsSafe s → IsSafe (arm answer s).0
unfolding arm send_interrupt_locked
arm-IsSafe answer s h = record {
  pinned = ground (arith, h.pinned, h.served);
  linked = ground (arith, h.linked, h.served);
  counted = ground (arith, h.counted, h.spent);
  asked = ground (arith, h.asked, h.served);
  served = ground (arith, h.served, h.served);
  cut = ground (arith, h.cut, h.asked, h.served);
  told = ground (arith, h.told, h.served);
  unused = ground (arith, h.unused);
  spent = ground (arith, h.spent);
}

register-IsSafe :
    (inet arms : Bool) (s : System) → IsSafe s → IsSafe (register_operation inet arms s).0
unfolding register_operation is_tcp_connection enroll
register-IsSafe inet arms s h = record {
  pinned = ground (arith, h.pinned, h.unused);
  linked = ground (arith, h.linked, h.unused);
  counted = ground (arith, h.counted, h.spent, h.unused);
  asked = ground (arith, h.asked, h.unused);
  served = ground (arith, h.served, h.unused);
  cut = ground (arith, h.cut, h.asked, h.unused);
  told = ground (arith, h.told, h.spent, h.unused);
  unused = ground (arith, h.unused);
  spent = ground (arith, h.spent, h.unused);
}

dispose_effect :
    (answer before : Status) (c : Conn)
    → ((dispose answer before c).0.discarded ≡ c.discarded)
      × ((dispose answer before c).0.pinned ≡ c.pinned)
unfolding dispose conn_discard
dispose_effect answer before c = elim (Bool-cases c.discarded) [
  | inr keeps ↦ rw keeps (refl, refl)
  | inl broken ↦
      rw broken
        (elim (Bool-cases (
          is_err (
            tcp_discard answer
              (record c { discarded = true; state = ConnState.error; database_open = false })))) [
                | inl e ↦ rw e (refl, refl)
                | inr e ↦ rw e (refl, refl)
              ])
]

finish-IsSafe : (answer status : Status) (s : System) → IsSafe s → IsSafe (finish answer status s).0
unfolding finish
finish-IsSafe answer status s h = record {
  pinned = ground (arith, h.pinned);
  linked = ground (arith, h.linked);
  counted = ground (arith, h.counted);
  asked = ground (arith, h.asked);
  served = ground (arith, h.served);
  cut = ground (arith, h.cut);
  told = ground (arith, h.told, h.cut);
  unused = ground (arith, h.unused);
  spent = ground (arith, h.spent);
}

-- What happens to an operation and its connection: the calls of the operation, sqli_close, and the
-- diagnostics that the running statement leaves.
pub data Event : Type 0 where
  registers : Mutex → Bool → Bool → Event
  arms requests : Mutex → Status → Event
  finishes : Mutex → Status → Status → Event
  closes : Status → Event
  reports : Diagnostics → Event

unfoldable pub happen : Event → System → System
happen (registers mutex inet at_once) s = (locked mutex (register_operation inet at_once) s).0
happen (arms mutex answer) s = (locked mutex (arm answer) s).0
happen (requests mutex answer) s = (locked mutex (request answer) s).0
happen (finishes mutex answer status) s = (locked mutex (finish answer status) s).0
happen (closes answer) s = record s { conn = close answer s.conn }
happen (reports d) s = record s { conn = record (s.conn) { diag = d } }

unfoldable pub run : System → List Event → System
run s [] = s
run s (e ∷ es) = run (happen e s) es

locked-IsSafe :
    {A : Type 0} (mutex : Mutex) (body : Call A) (s : System)
    → IsSafe s
    → IsSafe (body s).0
    → IsSafe (locked mutex body s).0
locked-IsSafe mutex body s h k = elim (Bool-cases mutex.locks) [ inl e ↦ rw e k | inr e ↦ rw e h ]

-- A pinned connection is not closed; any other connection is not the one of an active operation.
close-IsSafe :
    (answer : Status) (s : System) → IsSafe s → IsSafe (record s { conn = close answer s.conn })
unfolding close
close-IsSafe answer s h = elim (Bool-cases s.conn.pinned) [
  | inl held ↦ record {
    pinned = λ e. rw held refl;
    linked = h.linked;
    counted = h.counted;
    asked = h.asked;
    served = h.served;
    cut = λ e f. rw held (h.cut e f);
    told = h.told;
    unused = h.unused;
    spent = h.spent;
  }
  | inr free ↦ record {
    pinned = λ e. true≢false (sym (h.pinned e) ∙ free);
    linked = h.linked;
    counted = h.counted;
    asked = h.asked;
    served = h.served;
    cut = λ e f. true≢false (sym (h.pinned e) ∙ free);
    told = h.told;
    unused = h.unused;
    spent = h.spent;
  }
]

happen-IsSafe : (e : Event) (s : System) → IsSafe s → IsSafe (happen e s)
unfolding happen
happen-IsSafe (registers mutex inet at_once) s h =
    locked-IsSafe mutex (register_operation inet at_once) s h (register-IsSafe inet at_once s h)
happen-IsSafe (arms mutex answer) s h = locked-IsSafe mutex (arm answer) s h (arm-IsSafe answer s h)
happen-IsSafe (requests mutex answer) s h =
    locked-IsSafe mutex (request answer) s h (request-IsSafe answer s h)
happen-IsSafe (finishes mutex answer status) s h =
    locked-IsSafe mutex (finish answer status) s h (finish-IsSafe answer status s h)
happen-IsSafe (closes answer) s h = close-IsSafe answer s h
happen-IsSafe (reports d) s h = record {
  pinned = h.pinned;
  linked = h.linked;
  counted = h.counted;
  asked = h.asked;
  served = h.served;
  cut = h.cut;
  told = h.told;
  unused = h.unused;
  spent = h.spent;
}

-- A new operation, whatever connection it will meet.
abbrev pub start : Conn → System
start c = record { op = operation_create; conn = c; sent = 0 }

start-IsSafe : (c : Conn) → IsSafe (start c)
unfolding operation_create
start-IsSafe c = record {
  pinned = ground arith;
  linked = refl;
  counted = refl;
  asked = ground arith;
  served = ground arith;
  cut = ground arith;
  told = ground arith;
  unused = λ e. refl;
  spent = ground arith;
}

run_from-IsSafe : (es : List Event) (s : System) → IsSafe s → IsSafe (run s es)
unfolding run
run_from-IsSafe [] s h = h
run_from-IsSafe (e ∷ es) s h = run_from-IsSafe es (happen e s) (happen-IsSafe e s h)

-- After any sequence of calls on a new operation, of closes of its connection and of reports of the
-- running statement: while the operation is active its connection is pinned; sqli_tcp_interrupt was
-- called at most once, and only where a cancellation was requested and the statement was armed; an
-- armed statement whose cancellation was requested has been interrupted; and a connection on which
-- an interrupt was tried is marked as discarded, in the final snapshot too.
pub run-IsSafe : (es : List Event) (c : Conn) → IsSafe (run (start c) es)
run-IsSafe es c = run_from-IsSafe es (start c) (start-IsSafe c)
