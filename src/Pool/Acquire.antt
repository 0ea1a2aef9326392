-- ===== src/Pool/Acquire.antt =====
-- Acquisitions and uses of a connection (src/sqli_pool.c), and the soundness of the pool.
use libsqli.Prelude.{
  ℕ, suc, ◌<◌, ◌≡◌, refl, sym, ◌∙◌, Bool, true, false, Option, none, some, ltb, ==_iff, arith, pick,
  inl, inr, Bool-cases, Option-cases,
}
use libsqli.Status.{Status, is_ok, Result}
use libsqli.Conn.{Conn}
use libsqli.Txn.Steps.{true≢false}
use libsqli.Pool.{
  Held, Pool, store, is_fit, holds_fit, find_available, claim_slot, claim, fill_slot,
  ensure_slot_connected, settle, set_released,
}
use libsqli.Pool.Owners.{
  Owner, nobody, reconnecting, settling, client, System, IsSound, change-IsSound, give-IsSound,
  write-IsSound, up, find_available_lem,
}
use libsqli.Pool.Events.{own, settled, claims, ensure_by, settle_by, used_by, use_by, happen}
use libsqli.Pool.Leases.{
  heir, bare, self, IsLease-of_owner, fit-holds, without, lends, has-used, used-has,
}

fill-IsSound :
    (s : System) (i : ℕ) (answer : Conn × Status)
    → IsSound s
    → (s.pool.slots i).in_use ≡ true
    → let (p, status) = fill_slot answer i s.pool in
      IsSound (record { pool = p; owner = store i (settling status) s.owner })
unfolding fill_slot
fill-IsSound s i (c, status) h used = elim (Bool-cases (is_ok status)) [
  | inl fine ↦ rw fine (
      change-IsSound s i
        (record {
          held = some (record { address = s.pool.next; conn = c });
          in_use = (s.pool.slots i).in_use;
        })
        (settling status) (suc s.pool.next) h (used, λ _. refl) (h.inside i)
        (λ down. h.quiet down i) (λ a x. inr (sym ((==_iff s.pool.next a).0 x), omega arith))
        (omega arith))
  | inr bad ↦ rw bad (
      change-IsSound s i (record { held = none; in_use = (s.pool.slots i).in_use })
        (settling status) s.pool.next h (used, λ e. true≢false (sym e ∙ bad)) (h.inside i)
        (λ down. h.quiet down i) (bare (s.pool.slots i) (s.pool.slots i).in_use s.pool.next)
        (omega arith))
]

claim_slot-IsSound :
    (s : System) (alive : Bool) (i : ℕ) (o : Option Held)
    → IsSound s
    → s.pool.shutting_down ≡ false
    → i < s.pool.size
    → (s.pool.slots i).held ≡ o
    → let (p, outcome) = claim_slot alive i o s.pool in
      IsSound (record { pool = p; owner = own outcome s.owner })
unfolding claim_slot
claim_slot-IsSound s alive i none h up lt e =
    change-IsSound s i (record { held = none; in_use = true }) reconnecting s.pool.next h refl
      (λ _. lt) (λ down. true≢false (sym down ∙ up)) (bare (s.pool.slots i) true s.pool.next)
      (omega arith)
claim_slot-IsSound s alive i (some x) h up lt e = elim (Bool-cases (is_fit x.conn)) [
  | inr bad ↦ rw bad (
      change-IsSound s i (record { held = some x; in_use = true }) reconnecting s.pool.next h refl
        (λ _. lt) (λ down. true≢false (sym down ∙ up)) (heir (s.pool.slots i) x x.conn true _ e)
        (omega arith))
  | inl fit ↦ rw fit (elim (Bool-cases alive) [
    | inl live ↦ rw live (
        change-IsSound s i
          (record { held = some (record x { conn = set_released false x.conn }); in_use = true })
          (client x.address) s.pool.next h (refl, self x.address) (λ _. lt)
          (λ down. true≢false (sym down ∙ up))
          (heir (s.pool.slots i) x (set_released false x.conn) true _ e) (omega arith))
    | inr dead ↦ rw dead (
        change-IsSound s i (record { held = none; in_use = true }) reconnecting s.pool.next h refl
          (λ _. lt) (λ down. true≢false (sym down ∙ up)) (bare (s.pool.slots i) true s.pool.next)
          (omega arith))
  ])
]

pub claim-IsSound : (s : System) (alive : Bool) → IsSound s → IsSound (happen (claims alive) s)
unfolding happen claim
claim-IsSound s alive h = elim (Bool-cases s.pool.shutting_down) [
  | inl down ↦ simp down h
  | inr fine ↦ elim (Option-cases (find_available s.pool.slots 0 s.pool.size)) [
    | inl e ↦ simp (fine, e) h
    | inr (i, e) ↦
        let (lt, _) = find_available_lem s.pool.slots 0 s.pool.size i e in
        simp (fine, e)
          (claim_slot-IsSound s alive i (s.pool.slots i).held h fine (omega (arith, lt)) refl)
  ]
]

pub ensure-IsSound :
    (s : System) (i : ℕ) (answer : Conn × Status) (o : Owner)
    → IsSound s
    → s.owner i ≡ o
    → IsSound (ensure_by answer i o s)
unfolding ensure_by ensure_slot_connected fill_slot
ensure-IsSound s i answer nobody h e = h
ensure-IsSound s i answer (settling status) h e = h
ensure-IsSound s i answer (client a) h e = h
ensure-IsSound s i answer reconnecting h e =
    let used : (s.pool.slots i).in_use ≡ true = IsLease-of_owner s i reconnecting h e in
    elim (Bool-cases (ltb i s.pool.size)) [
      | inr out ↦
          rw out
            (give-IsSound s i (settling Status.invalid_state) h (used, λ f. true≢false (sym f)))
      | inl lt ↦ rw lt (elim (Bool-cases (holds_fit (s.pool.slots i))) [
        | inl fit ↦
            rw fit
              (give-IsSound s i (settling Status.ok) h (used, λ _. fit-holds (s.pool.slots i) fit))
        | inr gone ↦ rw gone (fill-IsSound s i answer h used)
      ])
    ]

pub settle-IsSound :
    (s : System) (i : ℕ) (o : Owner) → IsSound s → s.owner i ≡ o → IsSound (settle_by i o s)
unfolding settle_by settle
settle-IsSound s i nobody h e = h
settle-IsSound s i reconnecting h e = h
settle-IsSound s i (client a) h e = h
settle-IsSound s i (settling status) h e =
    let (used, filled) = IsLease-of_owner s i (settling status) h e in
    let P = λ (r : Pool × Result (Option ℕ)).
      IsSound (record { pool = r.0; owner = store i (settled r.1) s.owner }) in
    pick P _ _ _ (λ down. true≢false (sym down ∙ up s i h used))
      (λ _.
        pick P _ _ _
          (λ fine. elim (Option-cases (s.pool.slots i).held) [
            | inl gone ↦ true≢false (sym (filled fine) ∙ without (s.pool.slots i) gone)
            | inr (x, held) ↦
                simp held
                  (give-IsSound s i (client x.address) h (used, lends (s.pool.slots i) x held))
          ])
          (λ bad.
            change-IsSound s i (record { held = (s.pool.slots i).held; in_use = false }) nobody
              s.pool.next h refl (λ x. true≢false (sym x)) (λ _. refl) (λ a x. inl x)
              (omega arith)))

pub use-IsSound :
    (s : System) (i : ℕ) (c : Conn) (o : Owner)
    → IsSound s
    → s.owner i ≡ o
    → IsSound (use_by i c o s)
unfolding use_by
use-IsSound s i c nobody h e = h
use-IsSound s i c reconnecting h e = h
use-IsSound s i c (settling status) h e = h
use-IsSound s i c (client a) h e =
    let (used, has) = IsLease-of_owner s i (client a) h e in
    write-IsSound s i (used_by c (s.pool.slots i)) h
      (rw e (used, has-used c (s.pool.slots i) a has)) (h.inside i used) (λ down. h.quiet down i)
      (λ b x. inl (used-has c (s.pool.slots i) b x))
