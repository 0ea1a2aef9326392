-- ===== src/Pool/Safety.antt =====
-- Interleavings of the calls of src/sqli_pool.c, and the owners of slots and connections.
use libsqli.Prelude.{refl, List, [], ◌∷◌}
use libsqli.Pool.Owners.{System, IsSound}
use libsqli.Pool.Events.{Event, claims, ensures, settles, releases, uses, destroys, happen}
use libsqli.Pool.Acquire.{claim-IsSound, ensure-IsSound, settle-IsSound, use-IsSound}
use libsqli.Pool.Release.{release-IsSound}
use libsqli.Pool.Shutdown.{destroy-IsSound}

happen-IsSound : (e : Event) (s : System) → IsSound s → IsSound (happen e s)
unfolding happen
happen-IsSound (claims alive) s h = claim-IsSound s alive h
happen-IsSound (ensures i answer) s h = ensure-IsSound s i answer (s.owner i) h refl
happen-IsSound (settles i) s h = settle-IsSound s i (s.owner i) h refl
happen-IsSound (releases races answer i) s h = release-IsSound s races answer i (s.owner i) h refl
happen-IsSound (uses i c) s h = use-IsSound s i c (s.owner i) h refl
happen-IsSound (destroys answers) s h = destroy-IsSound answers s h

unfoldable pub run : System → List Event → System
run s [] = s
run s (e ∷ es) = run (happen e s) es

-- Whatever threads, clients, sockets and the server do, in any interleaving of the locked parts of
-- the calls: a slot is in use exactly while one thread or client owns it, a client's slot holds the
-- connection that it was given, no connection is in two slots, and a pool that is shutting down has
-- no slot in use. A client is asked to release and use only what it was given.
pub run-IsSound : (es : List Event) (s : System) → IsSound s → IsSound (run s es)
unfolding run
run-IsSound [] s h = h
run-IsSound (e ∷ es) s h = run-IsSound es (happen e s) (happen-IsSound e s h)
