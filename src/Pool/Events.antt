-- ===== src/Pool/Events.antt =====
-- The events of the pool of src/sqli_pool.c, and who owns each slot behind them.
use libsqli.Prelude.{ℕ, Bool, Option, none, some, if◌then◌else◌}
use libsqli.Status.{Status, is_ok, Result, done, fail}
use libsqli.Conn.{Conn}
use libsqli.Pool.{
  Slot, store, put, Claim, leased, reconnects, shut_down, full, claim, ensure_slot_connected,
  settle, release, destroy,
}
use libsqli.Pool.Owners.{Owner, nobody, reconnecting, settling, client, System}

-- The owners behind a turn of the acquisition.
abbrev pub own : Claim → (ℕ → Owner) → ℕ → Owner
own (leased i a) owner = store i (client a) owner
own (reconnects i) owner = store i reconnecting owner
own shut_down owner = owner
own full owner = owner

abbrev pub settled : Result (Option ℕ) → Owner
settled (done (some a)) = client a
settled (done none) = nobody
settled (fail status) = nobody

-- What the threads do. A thread reconnects and settles only the slot that it acquired, and a client
-- releases and uses only what it was given; `uses` is any effect of its calls on the connection.
pub data Event : Type 0 where
  claims : Bool → Event
  ensures : ℕ → Conn × Status → Event
  settles : ℕ → Event
  releases : Bool → Status → ℕ → Event
  uses : ℕ → Conn → Event
  destroys : (ℕ → Status) → Event

unfoldable pub ensure_by : Conn × Status → ℕ → Owner → System → System
ensure_by answer i reconnecting s =
    let (p, status) = ensure_slot_connected answer i s.pool in
    record { pool = p; owner = store i (settling status) s.owner }
ensure_by answer i _ s = s

unfoldable pub settle_by : ℕ → Owner → System → System
settle_by i (settling status) s =
    let (p, result) = settle i status s.pool in
    record { pool = p; owner = store i (settled result) s.owner }
settle_by i _ s = s

unfoldable pub release_by : Bool → Status → ℕ → Owner → System → System
release_by races answer i (client a) s =
    let (p, status) = release races answer a s.pool in
    record { pool = p; owner = if is_ok status then store i nobody s.owner else s.owner }
release_by races answer i _ s = s

abbrev pub used_by : Conn → Slot → Slot
used_by c v = record {
  held = elim v.held [ none ↦ none | some h ↦ some (record h { conn = c }) ];
  in_use = v.in_use;
}

unfoldable pub use_by : ℕ → Conn → Owner → System → System
use_by i c (client a) s = record s { pool = put i (used_by c (s.pool.slots i)) s.pool }
use_by i c _ s = s

unfoldable pub happen : Event → System → System
happen (claims alive) s =
    let (p, outcome) = claim alive s.pool in record { pool = p; owner = own outcome s.owner }
happen (ensures i answer) s = ensure_by answer i (s.owner i) s
happen (settles i) s = settle_by i (s.owner i) s
happen (releases races answer i) s = release_by races answer i (s.owner i) s
happen (uses i c) s = use_by i c (s.owner i) s
happen (destroys answers) s = record s { pool = (destroy answers s.pool).0 }
