-- ===== src/Pool/Examples.antt =====
-- Runs of the pool, and the theorems at concrete inputs.
use libsqli.Prelude.{arith, ℕ, ◌<◌, ◌≡◌, refl, true, false, List, [], ◌∷◌}
use libsqli.Prelude.Int.{pos}
use libsqli.Status.{Status}
use libsqli.Conn.{Conn, ConnState, create}
use libsqli.Pool.{
  claim, claim_slot, find_available, ensure_slot_connected, fill_slot, settle, empty_pool,
  pool_create,
}
use libsqli.Pool.Owners.{client, System, IsSound}
use libsqli.Pool.Events.{Event, claims, ensures, settles, ensure_by, settle_by, happen}
use libsqli.Pool.Safety.{run, run-IsSound}
use libsqli.Pool.Progress.{run-acquires}
use libsqli.Pool.Creation.{unowned, IsHandedOut, pool_create-IsHandedOut, empty_pool-IsSound}

abbrev ready_conn : Conn
unfolding create
ready_conn = record create { socket_fd = pos 5; state = ConnState.ready }

abbrev connects : ℕ → Conn × Status
connects i = (ready_conn, Status.ok)

pool_create-IsHandedOut_example : IsHandedOut 3 (pool_create Status.ok connects (λ i. Status.ok) 3)
pool_create-IsHandedOut_example = pool_create-IsHandedOut Status.ok connects (λ i. Status.ok) 3

abbrev two_slots : System
two_slots = unowned (empty_pool 2)

-- Two acquisitions that reconnect, interleaved.
abbrev race : List Event
race =
    claims true
    ∷ claims true
    ∷ ensures 1 (ready_conn, Status.ok)
    ∷ ensures 0 (ready_conn, Status.ok)
    ∷ settles 0
    ∷ settles 1
    ∷ []

run-IsSound_example : IsSound (run two_slots race)
run-IsSound_example = run-IsSound race two_slots (empty_pool-IsSound 2)

first_owner : (run two_slots race).owner 0 ≡ client 1
unfolding run happen claim claim_slot find_available ensure_by ensure_slot_connected fill_slot
    settle_by settle create
first_owner = refl

run-acquires_example :
    (i : ℕ) × (a : ℕ) × (i < 2)
    × ((two_slots.pool.slots i).in_use ≡ false)
    × ((run two_slots (claims true ∷ ensures i (ready_conn, Status.ok) ∷ settles i ∷ [])).owner i
        ≡ client a)
run-acquires_example =
    run-acquires true ready_conn 1 two_slots (empty_pool-IsSound 2) refl (omega arith) refl
