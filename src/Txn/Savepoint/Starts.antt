-- ===== src/Txn/Savepoint/Starts.antt =====
-- What a savepoint operation may do to the transaction state: nothing, or the BEGIN of manual mode.
use Prim.Native.String.{String}
use text.Mathlib.Text.{◌==◌ as str_eq}
use libsqli.Prelude.{
  sym, ap, ◌∙◌, inl, inr, Bool-cases, ℕ, ◌≡◌, refl, true, false, List, [], ◌∷◌, arith, ◌⊎◌,
  if◌then◌else◌,
}
use libsqli.Status.{Status, is_ok}
use libsqli.Conn.{TxnState, Conn, clear_error, set_error, set_error_context}
use libsqli.Txn.{sq_eot, Net, drain_txn_response}
use libsqli.Txn.Savepoint.{
  Request, sets, releases, rolls_back, savepoint, savepoint_send_core, exchange, send_name,
  send_flag, end_exchange, need_transaction,
}
use libsqli.Txn.Steps.{
  begin_outcome, drain_effect, verify_effect, begin_effect, Status-cases, true≢false,
}

abbrev pub MayStart : TxnState → TxnState → Type 0
MayStart v w =
    (w ≡ v)
    ⊎ ((v.in_transaction ≡ false)
        × (v.autocommit ≡ false)
        × (w ≡ record v { in_transaction = true }))

send_name_effect :
    (net : Net) (o : ℕ) (name : String) (c : Conn) → (send_name net o name c).0.txn ≡ c.txn
unfolding send_name set_error set_error_context
send_name_effect net o name c = ground arith

send_flag_effect :
    (net : Net) (o : ℕ) (flag : List ℕ) (c : Conn) → (send_flag net o flag c).0.txn ≡ c.txn
unfolding send_flag set_error set_error_context
send_flag_effect net o [] c = refl
send_flag_effect net o (b ∷ rest) c = ground arith

end_exchange_effect : (net : Net) (o : ℕ) (c : Conn) → (end_exchange net o c).0.txn ≡ c.txn
unfolding end_exchange clear_error set_error set_error_context
end_exchange_effect net o c =
    let sent = set_error_context "savepoint/recv" o c in
    let answer = drain_txn_response net "failed to receive savepoint response" sent in
    let drained = drain_effect net "failed to receive savepoint response" sent in
    elim (Bool-cases (net.send 5 (0 ∷ sq_eot ∷ []))) [
      | inr lost ↦ rw lost refl
      | inl good ↦ rw good (elim (Bool-cases (is_ok answer.1)) [
        | inl fine ↦ rw fine drained
        | inr bad ↦ rw bad drained
      ])
    ]

exchange_effect :
    (net : Net) (o : ℕ) (name : String) (flag : List ℕ) (c : Conn)
    → (exchange net o name flag c).0.txn ≡ c.txn
unfolding exchange set_error set_error_context
exchange_effect net o name flag c =
    let named = (send_name net o name c).0 in
    let flagged = (send_flag net o flag named).0 in
    let a = send_name_effect net o name c in
    let b = send_flag_effect net o flag named in
    elim (Bool-cases (net.send 0 (0 ∷ o ∷ []))) [
      | inr lost ↦ rw lost refl
      | inl good ↦ rw good (elim (Bool-cases (is_ok (send_name net o name c).1)) [
        | inr bad ↦ rw bad a
        | inl fine ↦ rw fine (elim (Bool-cases (is_ok (send_flag net o flag named).1)) [
          | inr bad ↦ rw bad (b ∙ a)
          | inl done ↦ rw done (end_exchange_effect net o flagged ∙ b ∙ a)
        ])
      ])
    ]

need_effect :
    (net : Net) (o : ℕ) (c : Conn)
    → MayStart c.txn (need_transaction net o c).0.txn
      × ((need_transaction net o c).1 ≡ Status.ok
          → (need_transaction net o c).0.in_transaction ≡ true)
unfolding need_transaction set_error set_error_context
need_effect net o c =
    let outcome = begin_outcome net c in
    let moved = (begin_effect net c).success in
    (ground (arith, outcome, moved), ground (arith, moved))

abbrev MayStartTo : Conn → Conn × Status → Type 0
MayStartTo c r = MayStart c.txn r.0.txn × (r.1 ≡ Status.ok → r.0.in_transaction ≡ true)

send_core_effect :
    (begin_net net : Net) (o : ℕ) (name : String) (flag : List ℕ) (c : Conn)
    → MayStartTo c (savepoint_send_core begin_net net o name flag c)
unfolding savepoint_send_core clear_error set_error set_error_context
send_core_effect begin_net net o name flag c =
    let c' = clear_error c in
    let (starts, active) = need_effect begin_net o c' in
    let begun = (need_transaction begin_net o c').0 in
    let kept = exchange_effect net o name flag begun in
    elim (verify_effect "savepoint" c') [
      | inr (bad, same) ↦ rw bad (inl same, λ e. true≢false (sym (ap is_ok e) ∙ bad))
      | inl (good, _) ↦ rw good (elim (Bool-cases (str_eq name "")) [
        | inl empty ↦ rw empty (inl refl, λ e. true≢false (sym (ap is_ok e)))
        | inr named ↦ rw named (elim (Status-cases (need_transaction begin_net o c').1) [
          | inr bad ↦ rw bad (starts, λ e. true≢false (sym (ap is_ok e) ∙ bad))
          | inl fine ↦ rw fine (rw kept (starts, λ _. active fine))
        ])
      ])
    ]

-- A savepoint operation leaves the transaction state alone, or opens a transaction where none was
-- active in manual mode; and where it succeeds, a transaction is active.
pub savepoint_effect :
    (begin_net net : Net) (r : Request) (c : Conn)
    → MayStart (c.txn) ((savepoint begin_net net r c).0.txn)
      × ((savepoint begin_net net r c).1 ≡ Status.ok
          → (savepoint begin_net net r c).0.in_transaction ≡ true)
unfolding savepoint
savepoint_effect begin_net net (sets name unique) c =
    send_core_effect begin_net net 137 name ((if unique then 1 else 0) ∷ []) c
savepoint_effect begin_net net (releases name) c = send_core_effect begin_net net 138 name [] c
savepoint_effect begin_net net (rolls_back name) c = send_core_effect begin_net net 139 name [] c
