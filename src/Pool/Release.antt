-- ===== src/Pool/Release.antt =====
-- sqli_pool_release (src/sqli_pool.c), and the soundness of the pool.
use libsqli.Prelude.{
  ℕ, ◌≡◌, refl, sym, ◌∙◌, Bool, true, false, not, ◌||◌, Option, none, some, arith, pick,
  if◌then◌else◌,
}
use libsqli.Status.{Status, is_ok}
use libsqli.Conn.{Conn, conn_discard}
use libsqli.Txn.Steps.{true≢false}
use libsqli.Pool.{
  Held, Slot, Pool, store, put, find_address, release_slot, release_held, release_found, release,
  set_released,
}
use libsqli.Pool.Owners.{
  Owner, nobody, reconnecting, settling, client, System, IsSound, change-IsSound, write-IsSound,
  find_address_lem,
}
use libsqli.Pool.Events.{release_by}
use libsqli.Pool.Leases.{heir, IsLease-of_owner, kept_address}

retained :
    (p : Pool) (other owner : ℕ → Owner) (status : Status)
    → is_ok status ≡ false
    → IsSound (record { pool = p; owner = owner })
    → IsSound (record { pool = p; owner = if is_ok status then other else owner })
retained p other owner status bad h = rw bad h

-- A release by the owner of slot i that came to `r` leaves the pool sound.
record Leaves (s : System) (i : ℕ) (r : Pool × Status) : Type 0 where
  sound :
      IsSound (record { pool = r.0; owner = if is_ok r.1 then store i nobody s.owner else s.owner })

-- The slot of a release is kept by its client where the call fails, and nobody's where it succeeds.
release_slot-Leaves :
    (s : System) (races : Bool) (answer : Status) (i a : ℕ) (x : Held)
    → IsSound s
    → s.owner i ≡ client a
    → (s.pool.slots i).held ≡ some x
    → Leaves s i (release_slot races answer i x s.pool)
unfolding release_slot
release_slot-Leaves s races answer i a x h e held =
    let (used, has) = IsLease-of_owner s i (client a) h e in
    let freed = λ (c : Conn).
      change-IsSound s i (record { held = some (record x { conn = c }); in_use = false }) nobody
        s.pool.next h refl (λ y. true≢false (sym y)) (λ _. refl)
        (heir (s.pool.slots i) x c false s.pool.next held) (omega arith) in
    let (c', status) = conn_discard answer (set_released true x.conn) in
    let lost : Slot = record {
      held = some (record x { conn = set_released false c' });
      in_use = true;
    } in
    let kept =
      write-IsSound s i lost h (rw e (refl, kept_address (s.pool.slots i) x a held has))
        (h.inside i used) (λ down. true≢false (sym used ∙ h.quiet down i))
        (heir (s.pool.slots i) x (set_released false c') true s.pool.next held) in
    let freeing =
      λ (c : Conn). put i (record { held = some (record x { conn = c }); in_use = false }) s.pool in
    let torn : Pool × Status =
      if is_ok status then (freeing c', Status.ok) else (put i lost s.pool, status) in
    let open_or_torn : Pool × Status =
      if not x.conn.discarded then (freeing (set_released true x.conn), Status.ok) else torn in
    pick (Leaves s i) (not (s.pool.slots i).in_use || x.conn.pinned || races)
      (s.pool, Status.invalid_state) open_or_torn (λ refused. record { sound = h })
      (λ _.
        pick (Leaves s i) (not x.conn.discarded) (freeing (set_released true x.conn), Status.ok)
          torn (λ clean. record { sound = freed (set_released true x.conn) })
          (λ broken.
            pick (Leaves s i) (is_ok status) (freeing c', Status.ok) (put i lost s.pool, status)
              (λ ok. record { sound = freed c' })
              (λ bad. record {
                sound =
                    retained (put i lost s.pool) (store i nobody s.owner) s.owner status bad kept;
              })))

release_held-Leaves :
    (s : System) (races : Bool) (answer : Status) (i a : ℕ) (o : Option Held)
    → IsSound s
    → s.owner i ≡ client a
    → (s.pool.slots i).held ≡ o
    → Leaves s i (release_held races answer i o s.pool)
unfolding release_held
release_held-Leaves s races answer i a none h e held = record { sound = h }
release_held-Leaves s races answer i a (some x) h e held =
    release_slot-Leaves s races answer i a x h e held

release_found-Leaves :
    (s : System) (races : Bool) (answer : Status) (i a : ℕ) (o : Option ℕ)
    → IsSound s
    → s.owner i ≡ client a
    → find_address a s.pool.slots 0 s.pool.size ≡ o
    → Leaves s i (release_found races answer o s.pool)
unfolding release_found
release_found-Leaves s races answer i a none h e found = record { sound = h }
release_found-Leaves s races answer i a (some j) h e found =
    let (used, has) = IsLease-of_owner s i (client a) h e in
    let same = h.unique j i a (find_address_lem a s.pool.slots 0 s.pool.size j found) has in
    rw same (release_held-Leaves s races answer i a (s.pool.slots i).held h e refl)

pub release-IsSound :
    (s : System) (races : Bool) (answer : Status) (i : ℕ) (o : Owner)
    → IsSound s
    → s.owner i ≡ o
    → IsSound (release_by races answer i o s)
unfolding release_by release
release-IsSound s races answer i nobody h e = h
release-IsSound s races answer i reconnecting h e = h
release-IsSound s races answer i (settling status) h e = h
release-IsSound s races answer i (client a) h e =
    (release_found-Leaves s races answer i a _ h e refl).sound
