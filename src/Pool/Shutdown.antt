-- ===== src/Pool/Shutdown.antt =====
-- sqli_pool_destroy (src/sqli_pool.c), and the soundness of the pool.
use libsqli.Prelude.{
  ℕ, zero, suc, ◌≡◌, refl, sym, ◌∙◌, true, false, Option, none, some, arith, pick, inl, inr,
  Bool-cases,
}
use libsqli.Status.{Status, is_ok}
use libsqli.Conn.{conn_discard}
use libsqli.Txn.Steps.{true≢false}
use libsqli.Pool.{
  Held, Slot, Pool, put, has_address, any_in_use, discard_slot, discard_slots, destroy,
}
use libsqli.Pool.Owners.{
  Owner, nobody, reconnecting, settling, client, System, IsLease, IsSound, Inherits, store_all,
  any_in_use_lem,
}
use libsqli.Pool.Leases.{heir, bare}

-- What the second loop of sqli_pool_destroy keeps where no slot is in use.
record Drains (p q : Pool) : Type 0 where
  size : q.size ≡ p.size
  next : q.next ≡ p.next
  down : q.shutting_down ≡ p.shutting_down
  idle : (j : ℕ) → (q.slots j).in_use ≡ false
  left : (j a : ℕ) → has_address a (q.slots j) ≡ true → has_address a (p.slots j) ≡ true

all_idle :
    (s : System)
    → IsSound s
    → any_in_use s.pool.slots 0 s.pool.size ≡ false
    → (j : ℕ) → (s.pool.slots j).in_use ≡ false
all_idle s h free j = elim (Bool-cases (s.pool.slots j).in_use) [
  | inr e ↦ e
  | inl e ↦
      any_in_use_lem s.pool.slots 0 s.pool.size j free (omega arith) (omega (arith, h.inside j e))
]

drain_here :
    (p q : Pool) (i : ℕ) (v : Slot)
    → v.in_use ≡ false
    → Inherits (p.slots i) v p.next p.next
    → Drains (put i v p) q
    → Drains p q
drain_here p q i v idle inherits d = record {
  size = d.size;
  next = d.next;
  down = d.down;
  idle = d.idle;
  left = λ j a x.
      store_all (λ k w. has_address a w ≡ true → has_address a (p.slots k) ≡ true) i v p.slots
        (λ y. elim (inherits a y) [ inl old ↦ old | inr (_, lt) ↦ absurd (omega (arith, lt)) ])
        (λ k y. y) j (d.left j a x);
}

drain_stay : (p : Pool) → ((j : ℕ) → (p.slots j).in_use ≡ false) → Drains p p
drain_stay p idle = record { size = refl; next = refl; down = refl; idle = idle; left = λ j a x. x }

idle_put :
    (p : Pool) (i : ℕ) (v : Slot)
    → ((j : ℕ) → (p.slots j).in_use ≡ false)
    → v.in_use ≡ false
    → (j : ℕ) → ((put i v p).slots j).in_use ≡ false
idle_put p i v idle e = store_all (λ j w. w.in_use ≡ false) i v p.slots e idle

-- One slot of the loop, with what the rest of the loop does behind it.
drain_slot :
    (answer : Status) (i : ℕ) (p : Pool) (o : Option Held) (rest : Pool × Status)
    → ((j : ℕ) → (p.slots j).in_use ≡ false)
    → (p.slots i).held ≡ o
    → Drains p rest.0
    → Drains p (discard_slot answer i o p rest).0
unfolding discard_slot
drain_slot answer i p none rest idle e d = d
drain_slot answer i p (some x) rest idle e d =
    let (c, status) = conn_discard answer x.conn in
    let v : Slot = record { held = some (record x { conn = c }); in_use = (p.slots i).in_use } in
    pick (λ (r : Pool × Status). Drains p r.0) (is_ok status) rest (put i v p, status) (λ ok. d)
      (λ bad.
        drain_here p (put i v p) i v (idle i) (heir (p.slots i) x c (p.slots i).in_use p.next e)
          (drain_stay (put i v p) (idle_put p i v idle (idle i))))

discard_slots-Drains :
    (answers : ℕ → Status) (i n : ℕ) (p : Pool)
    → ((j : ℕ) → (p.slots j).in_use ≡ false)
    → Drains p (discard_slots answers i n p).0
unfolding discard_slots
discard_slots-Drains answers i zero p idle = drain_stay p idle
discard_slots-Drains answers i (suc n) p idle =
    let empty : Slot = record { held = none; in_use = false } in
    let rest = discard_slots answers (suc i) n (put i empty p) in
    drain_slot (answers i) i p (p.slots i).held rest idle refl (
      drain_here p rest.0 i empty refl (bare (p.slots i) false p.next)
        (discard_slots-Drains answers (suc i) n (put i empty p) (idle_put p i empty idle refl)))

idle-IsLease :
    (v w : Slot) (o : Owner) → IsLease v o → v.in_use ≡ false → w.in_use ≡ false → IsLease w o
idle-IsLease v w nobody h e f = f
idle-IsLease v w reconnecting h e f = true≢false (sym h ∙ e)
idle-IsLease v w (settling status) (h, _) e f = true≢false (sym h ∙ e)
idle-IsLease v w (client a) (h, _) e f = true≢false (sym h ∙ e)

pub destroy-IsSound :
    (answers : ℕ → Status) (s : System)
    → IsSound s
    → IsSound (record s { pool = (destroy answers s.pool).0 })
unfolding destroy
destroy-IsSound answers s h =
    let shut : Pool = record (s.pool) { shutting_down = true } in
    let q = discard_slots answers 0 s.pool.size shut in
    pick (λ (r : Pool × Status). IsSound (record s { pool = r.0 }))
      (any_in_use s.pool.slots 0 s.pool.size) (s.pool, Status.invalid_state) q (λ busy. h)
      (λ free.
        let idle = all_idle s h free in
        let d = discard_slots-Drains answers 0 s.pool.size shut idle in
        record {
          fits = λ i.
              idle-IsLease (s.pool.slots i) (q.0.slots i) (s.owner i) (h.fits i) (idle i)
                (d.idle i);
          inside = λ i x. true≢false (sym x ∙ d.idle i);
          unique = λ i j a x y. h.unique i j a (d.left i a x) (d.left j a y);
          bounded = λ i a x. omega (arith, h.bounded i a (d.left i a x), d.next);
          quiet = λ _. d.idle;
        })

none_in_use :
    (slots : ℕ → Slot) (i n : ℕ)
    → ((j : ℕ) → (slots j).in_use ≡ false)
    → any_in_use slots i n ≡ false
unfolding any_in_use
none_in_use slots i zero idle = refl
none_in_use slots i (suc n) idle = rw (idle i) (none_in_use slots (suc i) n idle)

-- A pool with no slot in use is shutting down once it was destroyed, whatever the teardowns say.
pub destroy-shutting_down :
    (answers : ℕ → Status) (p : Pool)
    → ((j : ℕ) → (p.slots j).in_use ≡ false)
    → (destroy answers p).0.shutting_down ≡ true
unfolding destroy
destroy-shutting_down answers p idle =
    rw (none_in_use p.slots 0 p.size idle)
      (discard_slots-Drains answers 0 p.size (record p { shutting_down = true }) idle).down
