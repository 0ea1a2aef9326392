-- ===== src/Pool/Leases.antt =====
-- Facts on one slot of the pool of src/sqli_pool.c and its owner.
use libsqli.Prelude.{ℕ, ◌≡◌, refl, sym, Bool, true, false, none, some, ◌==◌, arith, inl}
use libsqli.Conn.{Conn}
use libsqli.Txn.Steps.{true≢false}
use libsqli.Pool.{Held, Slot, holds_fit, has_address}
use libsqli.Pool.Owners.{Owner, System, holds, IsLease, IsSound, Inherits}
use libsqli.Pool.Events.{used_by}

-- An address of the slot that is kept, whatever became of its connection.
pub heir :
    (v : Slot) (x : Held) (c : Conn) (b : Bool) (n : ℕ)
    → v.held ≡ some x
    → Inherits v (record { held = some (record x { conn = c }); in_use = b }) n n
heir v x c b n e a h = inl (rw e h)

pub bare : (v : Slot) (b : Bool) (n : ℕ) → Inherits v (record { held = none; in_use = b }) n n
bare v b n a x = true≢false (sym x)

pub self : (a : ℕ) → (a == a) ≡ true
self a = ground arith

pub IsLease-of_owner :
    (s : System) (i : ℕ) (o : Owner) → IsSound s → s.owner i ≡ o → IsLease (s.pool.slots i) o
IsLease-of_owner s i o h e = rw⁻¹ e (h.fits i)

pub fit-holds : (v : Slot) → holds_fit v ≡ true → holds v ≡ true
fit-holds v h = ground (arith, h)

pub without : (v : Slot) → v.held ≡ none → holds v ≡ false
without v e = rw e refl

pub lends : (v : Slot) (x : Held) → v.held ≡ some x → has_address x.address v ≡ true
lends v x e = rw e (self x.address)

pub has-used :
    (c : Conn) (v : Slot) (a : ℕ) → has_address a v ≡ true → has_address a (used_by c v) ≡ true
has-used c v a h = ground (arith, h)

pub used-has :
    (c : Conn) (v : Slot) (a : ℕ) → has_address a (used_by c v) ≡ true → has_address a v ≡ true
used-has c v a h = ground (arith, h)

pub kept_address :
    (v : Slot) (x : Held) (a : ℕ)
    → v.held ≡ some x
    → has_address a v ≡ true
    → (x.address == a) ≡ true
kept_address v x a e h = ground (arith, e, h)
