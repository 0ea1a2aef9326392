-- ===== src/Pool/Progress.antt =====
-- An acquisition from the pool (src/sqli_pool.c), up to its lease.
use libsqli.Prelude.{
  ℕ, zero, suc, ◌+◌, ◌≤◌, ◌<◌, ◌≡◌, refl, sym, ◌∙◌, ap, Bool, true, false, not, [], ◌∷◌, Option,
  none, some, ◌==◌, ==_iff, arith, pick, ◌⊎◌, inl, inr, Bool-cases, Option-cases, lt→ltb,
}
use libsqli.Status.{Status}
use libsqli.Conn.{Conn}
use libsqli.Txn.Steps.{true≢false}
use libsqli.Pool.{
  Held, Slot, Pool, store, is_fit, holds_fit, find_available, Claim, claim_slot, claim, fill_slot,
  ensure_slot_connected, settle,
}
use libsqli.Pool.Owners.{Owner, reconnecting, settling, client, System, IsSound, up}
use libsqli.Pool.Events.{own, claims, ensures, settles, ensure_by, settle_by, happen}
use libsqli.Pool.Leases.{without, IsLease-of_owner}
use libsqli.Pool.Safety.{run, run-IsSound}

self_store : {A : Type 0} (i : ℕ) (v : A) (f : ℕ → A) → store i v f i ≡ v
self_store i v f = ground arith

past :
    (i j : ℕ) (slots : ℕ → Slot)
    → (slots i).in_use ≡ true
    → (slots j).in_use ≡ false
    → i ≤ j
    → suc i ≤ j
past i j slots used free le = elim (Bool-cases (i == j)) [
  | inl e ↦ true≢false (sym (rw (← (==_iff i j).0 e) used) ∙ free)
  | inr e ↦ ground (arith, e)
]

-- Where a slot is free, one is found, and it is free.
find_free :
    (slots : ℕ → Slot) (i n j : ℕ)
    → i ≤ j
    → j < i + n
    → (slots j).in_use ≡ false
    → (k : ℕ) × (find_available slots i n ≡ some k) × (k < i + n) × ((slots k).in_use ≡ false)
unfolding find_available
find_free slots i zero j h k e = absurd (omega arith)
find_free slots i (suc n) j h k e = elim (Bool-cases (slots i).in_use) [
  | inr free ↦ (i, rw free refl, omega arith, free)
  | inl used ↦
      let (l, f, inside, free) =
        find_free slots (suc i) n j (past i j slots used e h) (omega arith) e in
      (l, rw used f, omega arith, free)
]

-- Behind a turn of the acquisition, slot i is leased or waits for its reconnection.
IsUnderway : System → ℕ → Type 0
IsUnderway s i = ((a : ℕ) × (s.owner i ≡ client a)) ⊎ (s.owner i ≡ reconnecting)

claim_slot_owner :
    (alive : Bool) (i : ℕ) (o : Option Held) (s : System)
    → IsUnderway
        (record {
          pool = (claim_slot alive i o s.pool).0;
          owner = own (claim_slot alive i o s.pool).1 s.owner;
        })
        i
unfolding claim_slot IsUnderway
claim_slot_owner alive i none s = inr (self_store i reconnecting s.owner)
claim_slot_owner alive i (some x) s =
    let P = λ (r : Pool × Claim). IsUnderway (record { pool = r.0; owner = own r.1 s.owner }) i in
    let renewed = inr (self_store i reconnecting s.owner) in
    pick P (not (is_fit x.conn)) _ _ (λ _. renewed)
      (λ _.
        pick P alive _ _ (λ _. inl (x.address, self_store i (client x.address) s.owner))
          (λ _. renewed))

settle_owner :
    (i : ℕ) (s : System)
    → IsSound s
    → s.owner i ≡ settling Status.ok
    → (a : ℕ) × ((settle_by i (settling Status.ok) s).owner i ≡ client a)
unfolding settle_by settle
settle_owner i s h e =
    let (used, filled) = IsLease-of_owner s i (settling Status.ok) h e in
    let live = up s i h used in
    elim (Option-cases (s.pool.slots i).held) [
      | inl gone ↦ true≢false (sym (filled refl) ∙ without (s.pool.slots i) gone)
      | inr (x, held) ↦ (x.address, simp (live, held) (self_store i (client x.address) s.owner))
    ]

claim_owner :
    (alive : Bool) (i : ℕ) (s : System)
    → s.pool.shutting_down ≡ false
    → find_available s.pool.slots 0 s.pool.size ≡ some i
    → IsUnderway (happen (claims alive) s) i
unfolding claim happen IsUnderway
claim_owner alive i s live found =
    simp (live, found) (claim_slot_owner alive i (s.pool.slots i).held s)

ensure_ok :
    (i : ℕ) (c : Conn) (p : Pool)
    → i < p.size
    → (ensure_slot_connected (c, Status.ok) i p).1 ≡ Status.ok
unfolding ensure_slot_connected fill_slot
ensure_ok i c p lt = simp (lt→ltb i p.size lt) (
    pick (λ (r : Pool × Status). r.1 ≡ Status.ok) (holds_fit (p.slots i)) (p, Status.ok)
      (fill_slot (c, Status.ok) i p) (λ _. refl) (λ _. refl))

-- The two steps behind a turn that came to slot i.
acquired :
    (c : Conn) (i : ℕ) (t : System)
    → IsSound t
    → IsUnderway t i
    → (a : ℕ) × ((run t (ensures i (c, Status.ok) ∷ settles i ∷ [])).owner i ≡ client a)
unfolding run happen IsUnderway ensure_by settle_by
acquired c i t h (inl (a, e)) = (a, simp e refl)
acquired c i t h (inr e) =
    let u = happen (ensures i (c, Status.ok)) t in
    let lt = h.inside i (IsLease-of_owner t i reconnecting h e) in
    let sound = run-IsSound (ensures i (c, Status.ok) ∷ []) t h in
    let waiting : u.owner i ≡ settling Status.ok =
      ap (λ (o : Owner). (ensure_by (c, Status.ok) i o t).owner i) e
      ∙ self_store i (settling (ensure_slot_connected (c, Status.ok) i t.pool).1) t.owner
      ∙ ap settling (ensure_ok i c t.pool lt) in
    let (a, f) = settle_owner i u sound waiting in
    (a, ap (λ (o : Owner). (settle_by i o u).owner i) waiting ∙ f)

-- Where the pool is not shutting down, some slot is free and the server connects, a turn of the
-- acquisition followed by the reconnection and the end of it leases a slot of the pool that was free
-- before: some client has it afterwards.
pub run-acquires :
    (alive : Bool) (c : Conn) (j : ℕ) (s : System)
    → IsSound s
    → s.pool.shutting_down ≡ false
    → j < s.pool.size
    → (s.pool.slots j).in_use ≡ false
    → (i : ℕ) × (a : ℕ) × (i < s.pool.size)
      × ((s.pool.slots i).in_use ≡ false)
      × ((run s (claims alive ∷ ensures i (c, Status.ok) ∷ settles i ∷ [])).owner i ≡ client a)
unfolding run
run-acquires alive c j s h live lt free =
    let (i, found, inside, unused) =
      find_free s.pool.slots 0 s.pool.size j (omega arith) (omega (arith, lt)) free in
    let sound = run-IsSound (claims alive ∷ []) s h in
    let (a, e) = acquired c i (happen (claims alive) s) sound (claim_owner alive i s live found) in
    (i, a, omega (arith, inside), unused, e)
