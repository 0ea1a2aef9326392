-- ===== src/Pool/Creation.antt =====
-- The pool that sqli_pool_create (src/sqli_pool.c) hands out.
use mathlib.Core.Path.{subst}
use libsqli.Prelude.{
  ℕ, zero, suc, ◌+◌, ◌<◌, ◌≡◌, refl, sym, ◌∙◌, true, false, not, Option, none, some, ◌==◌, ==_iff,
  arith, pick, ◌⊎◌, inl, inr, if◌then◌else◌, Bool-cases,
}
use libsqli.Status.{Status, is_ok}
use libsqli.Conn.{Conn}
use libsqli.Txn.Steps.{true≢false}
use libsqli.Pool.{
  Held, Slot, Pool, store, put, set_released, destroy, create_slots, failed_pool_creation,
  empty_pool, pool_create,
}
use libsqli.Pool.Owners.{nobody, holds, System, IsLease, IsSound, change-IsSound}
use libsqli.Pool.Shutdown.{destroy-IsSound, destroy-shutting_down}

store_same : {A : Type 0} (i j : ℕ) (v : A) → store i v (λ k. v) j ≡ v
store_same i j v = ground arith

-- Nobody owns any slot.
abbrev pub unowned : Pool → System
unowned p = record { pool = p; owner = λ i. nobody }

forget_owner :
    (p : Pool) (i : ℕ)
    → IsSound (record { pool = p; owner = store i nobody (λ k. nobody) })
    → IsSound (unowned p)
forget_owner p i h = record {
  fits = λ j. subst (IsLease (p.slots j)) (store_same i j nobody) (h.fits j);
  inside = h.inside;
  unique = h.unique;
  bounded = h.bounded;
  quiet = h.quiet;
}

create_slots-IsSound :
    (answers : ℕ → Conn × Status) (i n : ℕ) (p : Pool)
    → IsSound (unowned p)
    → IsSound (unowned (create_slots answers i n p).0)
unfolding create_slots
create_slots-IsSound answers i zero p h = h
create_slots-IsSound answers i (suc n) p h =
    let (c, status) = answers i in
    let v : Slot = record {
      held = some (record { address = p.next; conn = set_released true c });
      in_use = false;
    } in
    let p' : Pool = record (put i v p) { next = suc p.next } in
    let rest = create_slots answers (suc i) n p' in
    pick (λ (r : Pool × Status). IsSound (unowned r.0)) (is_ok status) rest (p, status)
      (λ fine. create_slots-IsSound answers (suc i) n p' (
        forget_owner p' i (
          change-IsSound (unowned p) i v nobody (suc p.next) h refl (λ x. true≢false (sym x))
            (λ _. refl) (λ a x. inr (sym ((==_iff p.next a).0 x), omega arith)) (omega arith))))
      (λ bad. h)

pub empty_pool-IsSound : (size : ℕ) → IsSound (unowned (empty_pool size))
empty_pool-IsSound size = record {
  fits = λ i. refl;
  inside = λ i x. true≢false (sym x);
  unique = λ i j a x y. true≢false (sym x);
  bounded = λ i a x. true≢false (sym x);
  quiet = λ _ i. refl;
}

-- A pool of `size` slots that is open, with a connection in each of the first `n`.
pub record IsFilled (size n : ℕ) (p : Pool) : Type 0 where
  pub live : p.shutting_down ≡ false
  pub sized : p.size ≡ size
  pub filled : (j : ℕ) → j < n → holds (p.slots j) ≡ true

fill_next :
    (size i after : ℕ) (x : Held) (p : Pool)
    → IsFilled size i p
    → IsFilled size
        (suc i)
        (record (put i (record { held = some x; in_use = false }) p) { next = after })
fill_next size i after x p h = record {
  live = h.live;
  sized = h.sized;
  filled = λ j lt. elim (Bool-cases (i == j)) [
    | inl e ↦ rw e refl
    | inr e ↦ rw e (h.filled j (ground (arith, e, lt)))
  ];
}

-- Where the loop of sqli_pool_create says SQLI_OK, it filled its slots.
create_slots-IsFilled :
    (answers : ℕ → Conn × Status) (size i n : ℕ) (p : Pool)
    → IsFilled size i p
    → is_ok (create_slots answers i n p).1 ≡ true
    → IsFilled size (i + n) (create_slots answers i n p).0
unfolding create_slots
create_slots-IsFilled answers size i zero p h =
    λ good. subst (λ k. IsFilled size k p) (omega arith) h
create_slots-IsFilled answers size i (suc n) p h =
    let (c, status) = answers i in
    let x : Held = record { address = p.next; conn = set_released true c } in
    let p' : Pool = record (put i (record { held = some x; in_use = false }) p) {
      next = suc p.next;
    } in
    let further : suc i + n ≡ i + suc n = omega arith in
    pick (λ (r : Pool × Status). is_ok r.1 ≡ true → IsFilled size (i + suc n) r.0) (is_ok status)
      (create_slots answers (suc i) n p') (p, status)
      (λ fine good.
        subst (λ k. IsFilled size k (create_slots answers (suc i) n p').0) further
          (create_slots-IsFilled answers size (suc i) n p' (fill_next size i (suc p.next) x p h)
            good))
      (λ bad good. true≢false (sym good ∙ bad))

-- What sqli_pool_create hands out for `size` slots. With SQLI_OK it is an open pool of that many
-- slots, each with a connection; with another status it is no pool, or the one that is kept for
-- another try at its destruction, which is shutting down. Either pool is sound, and nobody owns a
-- slot of it.
abbrev pub IsHandedOut : ℕ → Option Pool × Status → Type 0
IsHandedOut size (none, status) = is_ok status ≡ false
IsHandedOut size (some p, status) =
    IsSound (unowned p)
    × (((status ≡ Status.ok) × IsFilled size size p)
        ⊎ ((is_ok status ≡ false) × (p.shutting_down ≡ true)))

failed-IsHandedOut :
    (teardowns : ℕ → Status) (size : ℕ) (status : Status) (p : Pool)
    → is_ok status ≡ false
    → IsSound (unowned p)
    → IsHandedOut size (failed_pool_creation teardowns status p)
unfolding failed_pool_creation
failed-IsHandedOut teardowns size status p bad h =
    let (p', cleanup) = destroy teardowns p in
    pick (IsHandedOut size) (is_ok cleanup) (none, status) (some p', cleanup) (λ _. bad)
      (λ failed. (
        destroy-IsSound teardowns (unowned p) h,
        inr (failed, destroy-shutting_down teardowns p h.fits),
      ))

-- sqli_pool_create hands out a sound pool of which nobody owns a slot: with SQLI_OK an open one of
-- the size asked for, with a connection in every slot, and with another status, where the creation
-- and its cleanup failed, one that is shutting down. Else it fails, with another status than
-- SQLI_OK, without a pool.
pub pool_create-IsHandedOut :
    (prepared : Status) (answers : ℕ → Conn × Status) (teardowns : ℕ → Status) (size : ℕ)
    → IsHandedOut size (pool_create prepared answers teardowns size)
unfolding pool_create
pool_create-IsHandedOut prepared answers teardowns size =
    let made = create_slots answers 0 size (empty_pool size) in
    let sound = create_slots-IsSound answers 0 size (empty_pool size) (empty_pool-IsSound size) in
    let full =
      create_slots-IsFilled answers size 0 size (empty_pool size)
        (record { live = refl; sized = refl; filled = λ j lt. absurd (omega (arith, lt)) }) in
    let all : 0 + size ≡ size = omega arith in
    let last : Option Pool × Status =
      if is_ok made.1
      then (some made.0, Status.ok)
      else failed_pool_creation teardowns made.1 made.0 in
    let next : Option Pool × Status = if not (is_ok prepared) then (none, prepared) else last in
    pick (IsHandedOut size) (size == 0) (none, Status.invalid_state) next (λ _. refl)
      (λ _.
        pick (IsHandedOut size) (not (is_ok prepared)) (none, prepared) last
          (λ bad. ground (arith, bad))
          (λ _.
            pick (IsHandedOut size) (is_ok made.1) (some made.0, Status.ok)
              (failed_pool_creation teardowns made.1 made.0)
              (λ good. (sound, inl (refl, subst (λ k. IsFilled size k made.0) all (full good))))
              (λ bad. failed-IsHandedOut teardowns size made.1 made.0 bad sound)))
