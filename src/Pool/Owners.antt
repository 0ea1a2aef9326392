-- ===== src/Pool/Owners.antt =====
-- Who owns each slot of the pool of src/sqli_pool.c, and what a change of one slot keeps.
use libsqli.Prelude.{
  ℕ, zero, suc, ◌+◌, ◌≤◌, ◌<◌, ◌≡◌, refl, sym, ◌∙◌, Bool, true, false, ◌||◌, Option, none, some,
  ◌==◌, ==_iff, arith, ◌⊎◌, inl, inr, Bool-cases, if◌then◌else◌,
}
use libsqli.Status.{Status, is_ok}
use libsqli.Txn.Steps.{true≢false}
use libsqli.Pool.{Slot, Pool, store, put, has_address, find_available, find_address, any_in_use}

-- Nobody, a thread between the two halves of an acquisition (before and behind the reconnection),
-- or the client that was given the address.
pub data Owner : Type 0 where
  nobody reconnecting : Owner
  settling : Status → Owner
  client : ℕ → Owner

pub record System : Type 0 where
  pub pool : Pool
  pub owner : ℕ → Owner

abbrev pub holds : Slot → Bool
holds v = elim v.held [ none ↦ false | some h ↦ true ]

-- What a slot looks like to its owner.
abbrev pub IsLease : Slot → Owner → Type 0
IsLease v nobody = v.in_use ≡ false
IsLease v reconnecting = v.in_use ≡ true
IsLease v (settling status) = (v.in_use ≡ true) × (is_ok status ≡ true → holds v ≡ true)
IsLease v (client a) = (v.in_use ≡ true) × (has_address a v ≡ true)

pub record IsSound (s : System) : Type 0 where
  pub fits : (i : ℕ) → IsLease (s.pool.slots i) (s.owner i)
  pub inside : (i : ℕ) → (s.pool.slots i).in_use ≡ true → i < s.pool.size
  pub unique :
      (i j a : ℕ)
      → has_address a (s.pool.slots i) ≡ true
      → has_address a (s.pool.slots j) ≡ true
      → i ≡ j
  pub bounded : (i a : ℕ) → has_address a (s.pool.slots i) ≡ true → a < s.pool.next
  pub quiet : s.pool.shutting_down ≡ true → (i : ℕ) → (s.pool.slots i).in_use ≡ false

-- A slot that holds no address but that of the slot before, or a new one.
abbrev pub Inherits : Slot → Slot → ℕ → ℕ → Type 0
Inherits v w next after =
    (a : ℕ) → has_address a w ≡ true → (has_address a v ≡ true) ⊎ ((a ≡ next) × (next < after))

-- What holds of the new value at its place, and of the old ones everywhere, holds after a store.
pub store_all :
    {A : Type 0} (P : ℕ → A → Type 0) (i : ℕ) (v : A) (f : ℕ → A)
    → P i v
    → ((j : ℕ) → P j (f j))
    → (j : ℕ) → P j (store i v f j)
store_all P i v f here there j = elim (Bool-cases (i == j)) [
  | inl e ↦ rw e (rw⁻¹ ((==_iff i j).0 e) here)
  | inr e ↦ rw e (there j)
]

store_both :
    {A B : Type 0} (P : A → B → Type 0) (i : ℕ) (v : A) (w : B) (f : ℕ → A) (g : ℕ → B)
    → P v w
    → ((j : ℕ) → P (f j) (g j))
    → (j : ℕ) → P (store i v f j) (store i w g j)
store_both P i v w f g here there j = elim (Bool-cases (i == j)) [
  | inl e ↦ rw e here
  | inr e ↦ rw e (there j)
]

abbrev pub change : ℕ → Slot → Owner → ℕ → System → System
change i v o after s = record {
  pool = record (put i v s.pool) { next = after };
  owner = store i o s.owner;
}

-- An address found after the change was at its place before, or is the new one of slot i.
origin :
    (s : System) (i : ℕ) (v : Slot) (after : ℕ)
    → Inherits (s.pool.slots i) v s.pool.next after
    → (j a : ℕ) → has_address a (store i v s.pool.slots j) ≡ true
    → (has_address a (s.pool.slots j) ≡ true) ⊎ ((a ≡ s.pool.next) × (j ≡ i))
origin s i v after inherits =
    store_all
      (λ j w.
        (a : ℕ)
        → has_address a w ≡ true
        → (has_address a (s.pool.slots j) ≡ true) ⊎ ((a ≡ s.pool.next) × (j ≡ i)))
      i v s.pool.slots
      (λ a x. elim (inherits a x) [ inl old ↦ inl old | inr (new, _) ↦ inr (new, refl) ])
      (λ j a x. inl x)

origin_unique :
    (s : System) (i : ℕ) (v : Slot) (after : ℕ)
    → IsSound s
    → Inherits (s.pool.slots i) v s.pool.next after
    → (j k a : ℕ) → has_address a (store i v s.pool.slots j) ≡ true
    → has_address a (store i v s.pool.slots k) ≡ true
    → j ≡ k
origin_unique s i v after h inherits j k a x y = elim (origin s i v after inherits j a x) [
  | inl p ↦ elim (origin s i v after inherits k a y) [
    | inl q ↦ h.unique j k a p q
    | inr (new, _) ↦ absurd (omega (arith, h.bounded j a p, new))
  ]
  | inr (new, at) ↦ elim (origin s i v after inherits k a y) [
    | inl q ↦ absurd (omega (arith, h.bounded k a q, new))
    | inr (_, at') ↦ at ∙ sym at'
  ]
]

-- A change of one slot and of its owner keeps the pool sound, where the slot suits the owner and
-- holds no address of another slot.
pub change-IsSound :
    (s : System) (i : ℕ) (v : Slot) (o : Owner) (after : ℕ)
    → IsSound s
    → IsLease v o
    → (v.in_use ≡ true → i < s.pool.size)
    → (s.pool.shutting_down ≡ true → v.in_use ≡ false)
    → Inherits (s.pool.slots i) v s.pool.next after
    → s.pool.next ≤ after
    → IsSound (change i v o after s)
change-IsSound s i v o after h lease inside quiet inherits le = record {
  fits = store_both IsLease i v o s.pool.slots s.owner lease h.fits;
  inside = store_all (λ j w. w.in_use ≡ true → j < s.pool.size) i v s.pool.slots inside h.inside;
  unique = λ j k a x y. origin_unique s i v after h inherits j k a x y;
  bounded =
      store_all (λ j w. (a : ℕ) → has_address a w ≡ true → a < after) i v s.pool.slots
        (λ a x. elim (inherits a x) [
          | inl old ↦ omega (arith, h.bounded i a old)
          | inr (new, room) ↦ omega (arith, new)
        ])
        (λ j a x. omega (arith, h.bounded j a x));
  quiet = λ down. store_all (λ j w. w.in_use ≡ false) i v s.pool.slots (quiet down) (h.quiet down);
}

-- The same for a new owner alone, and for a new slot alone.
pub give-IsSound :
    (s : System) (i : ℕ) (o : Owner)
    → IsSound s
    → IsLease (s.pool.slots i) o
    → IsSound (record s { owner = store i o s.owner })
give-IsSound s i o h lease = record {
  fits = store_all (λ j p. IsLease (s.pool.slots j) p) i o s.owner lease h.fits;
  inside = h.inside;
  unique = h.unique;
  bounded = h.bounded;
  quiet = h.quiet;
}

pub write-IsSound :
    (s : System) (i : ℕ) (v : Slot)
    → IsSound s
    → IsLease v (s.owner i)
    → i < s.pool.size
    → (s.pool.shutting_down ≡ true → v.in_use ≡ false)
    → Inherits (s.pool.slots i) v s.pool.next s.pool.next
    → IsSound (record s { pool = put i v s.pool })
write-IsSound s i v h lease lt quiet inherits =
    let k =
      change-IsSound s i v (s.owner i) s.pool.next h lease (λ _. lt) quiet inherits (omega arith) in
    record {
      fits = store_all (λ j w. IsLease w (s.owner j)) i v s.pool.slots lease h.fits;
      inside = k.inside;
      unique = k.unique;
      bounded = k.bounded;
      quiet = k.quiet;
    }

-- A slot in use belongs to a pool that is not shut down.
pub up :
    (s : System) (i : ℕ) → IsSound s → (s.pool.slots i).in_use ≡ true → s.pool.shutting_down ≡ false
up s i h used = elim (Bool-cases s.pool.shutting_down) [
  | inl down ↦ true≢false (sym used ∙ h.quiet down i)
  | inr e ↦ e
]

-- find_available_slot_locked finds a slot of the array that is not in use.
pub find_available_lem :
    (slots : ℕ → Slot) (i n j : ℕ)
    → find_available slots i n ≡ some j
    → (j < i + n) × ((slots j).in_use ≡ false)
unfolding find_available
find_available_lem slots i zero j h = cc
find_available_lem slots i (suc n) j h = ground (arith, find_available_lem slots (suc i) n j)

some_if :
    (b : Bool) (i j : ℕ) (rest : Option ℕ)
    → b ≡ true
    → (if b then some i else rest) ≡ some j
    → i ≡ j
some_if b i j rest e h = ground (arith, e, h)

rest_if :
    (b : Bool) (i j : ℕ) (rest : Option ℕ)
    → b ≡ false
    → (if b then some i else rest) ≡ some j
    → rest ≡ some j
rest_if b i j rest e h = ground (arith, e, h)

or_false : {a b : Bool} → (a || b) ≡ false → (a ≡ false) × (b ≡ false)
or_false h = (ground (arith, h), ground (arith, h))

-- The search of sqli_pool_release finds a slot that holds the address.
pub find_address_lem :
    (a : ℕ) (slots : ℕ → Slot) (i n j : ℕ)
    → find_address a slots i n ≡ some j
    → has_address a (slots j) ≡ true
unfolding find_address
find_address_lem a slots i zero j h = cc
find_address_lem a slots i (suc n) j h = elim (Bool-cases (has_address a (slots i))) [
  | inl e ↦ rw⁻¹ (some_if _ i j (find_address a slots (suc i) n) e h) e
  | inr e ↦
      find_address_lem a slots (suc i) n j (rest_if _ i j (find_address a slots (suc i) n) e h)
]

-- The first loop of sqli_pool_destroy looks at every slot of the array.
pub any_in_use_lem :
    (slots : ℕ → Slot) (i n j : ℕ)
    → any_in_use slots i n ≡ false
    → i ≤ j
    → j < i + n
    → (slots j).in_use ≡ false
unfolding any_in_use
any_in_use_lem slots i zero j h k l = absurd (omega arith)
any_in_use_lem slots i (suc n) j h k l = elim (Bool-cases (i == j)) [
  | inl e ↦ rw⁻¹ ((==_iff i j).0 e) (or_false h).0
  | inr e ↦ any_in_use_lem slots (suc i) n j (or_false h).1 (ground arith) (omega arith)
]
