-- ===== src/Pool.antt =====
-- src/sqli_pool.c: a fixed array of connections that clients lease.
-- The mutex splits an acquisition in three: a turn of its loop under the mutex (`claim`), the
-- reconnection without it (`ensure_slot_connected`), and the end under it again (`settle`). What
-- sqli_create and sqli_connect make of a new connection, and what the teardown of a socket says, is
-- given to each call. A connection has an address, and no address is used twice.
pub mod Owners
pub mod Events
pub mod Leases
pub mod Acquire
pub mod Release
pub mod Shutdown
pub mod Safety
pub mod Creation
pub mod Progress
mod Examples
use libsqli.Prelude.{
  ℕ, zero, suc, ◌+◌, Bool, true, false, ◌&&◌, ◌||◌, not, Option, none, some, ltb, ◌==◌,
  if◌then◌else◌,
}
use libsqli.Status.{Status, is_ok, Result, done, fail}
use libsqli.Conn.{Conn, is_ready, has_socket, conn_discard}

pub record Held : Type 0 where
  pub address : ℕ
  pub conn : Conn

pub record Slot : Type 0 where
  pub held : Option Held
  pub in_use : Bool

-- `next` is the next address that sqli_create answers.
pub record Pool : Type 0 where
  pub shutting_down : Bool
  pub size : ℕ
  pub slots : ℕ → Slot
  pub next : ℕ

abbrev pub store : {A : Type 0} → ℕ → A → (ℕ → A) → ℕ → A
store i v f j = if i == j then v else f j

abbrev pub put : ℕ → Slot → Pool → Pool
put i v p = record p { slots = store i v p.slots }

-- A connection that can be handed out: not discarded, ready, with a descriptor.
abbrev pub is_fit : Conn → Bool
is_fit c = not c.discarded && is_ready c.state && has_socket c

-- find_available_slot_locked among `n` slots from the i-th on.
unfoldable pub find_available : (ℕ → Slot) → ℕ → ℕ → Option ℕ
find_available slots i zero = none
find_available slots i (suc n) =
    let rest = find_available slots (suc i) n in if not (slots i).in_use then some i else rest

-- A slot with the address that is handed out, a slot to reconnect, or none.
pub data Claim : Type 0 where
  leased : ℕ → ℕ → Claim
  reconnects : ℕ → Claim
  shut_down full : Claim

-- The slot that was found, marked as used. `alive` is what is_socket_alive says; a dead connection
-- is closed and destroyed.
unfoldable pub claim_slot : Bool → ℕ → Option Held → Pool → Pool × Claim
claim_slot alive i none p = (put i (record { held = none; in_use = true }) p, reconnects i)
claim_slot alive i (some h) p =
    if not (is_fit h.conn)
    then (put i (record { held = some h; in_use = true }) p, reconnects i)
    else if alive
    then (
      put i
          (record {
            held = some (record h { conn = record (h.conn) { released = false } });
            in_use = true;
          })
          p,
      leased i h.address,
    )
    else (put i (record { held = none; in_use = true }) p, reconnects i)

-- One turn of the loop of sqli_pool_acquire_timeout.
unfoldable pub claim : Bool → Pool → Pool × Claim
claim alive p = if p.shutting_down then (p, shut_down) else elim (find_available p.slots 0 p.size) [
  | none ↦ (p, full)
  | some i ↦ claim_slot alive i (p.slots i).held p
]

-- The new connection of a slot: what sqli_create and sqli_connect made, and their status.
unfoldable pub fill_slot : Conn × Status → ℕ → Pool → Pool × Status
fill_slot (c, status) i p =
    if is_ok status
    then (
      record (put i
          (record {
            held = some (record { address = p.next; conn = c });
            in_use = (p.slots i).in_use;
          })
          p) { next = suc p.next },
      status,
    )
    else (put i (record { held = none; in_use = (p.slots i).in_use }) p, status)

abbrev pub holds_fit : Slot → Bool
holds_fit v = elim v.held [ none ↦ false | some h ↦ is_fit h.conn ]

unfoldable pub ensure_slot_connected : Conn × Status → ℕ → Pool → Pool × Status
ensure_slot_connected answer i p =
    if not (ltb i p.size)
    then (p, Status.invalid_state)
    else if holds_fit (p.slots i)
    then (p, Status.ok)
    else fill_slot answer i p

-- The end of an acquisition: the address that is leased, or the status.
unfoldable pub settle : ℕ → Status → Pool → Pool × Result (Option ℕ)
settle i status p =
    if p.shutting_down
    then (
      put i (record { held = if is_ok status then none else (p.slots i).held; in_use = false }) p,
      fail Status.invalid_state,
    )
    else if is_ok status
    then (p, done (elim (p.slots i).held [ none ↦ none | some h ↦ some h.address ]))
    else (put i (record { held = (p.slots i).held; in_use = false }) p, fail status)

abbrev pub has_address : ℕ → Slot → Bool
has_address a v = elim v.held [ none ↦ false | some h ↦ h.address == a ]

unfoldable pub find_address : ℕ → (ℕ → Slot) → ℕ → ℕ → Option ℕ
find_address a slots i zero = none
find_address a slots i (suc n) =
    let rest = find_address a slots (suc i) n in if has_address a (slots i) then some i else rest

abbrev pub set_released : Bool → Conn → Conn
set_released b c = record c { released = b }

-- The part of sqli_pool_release at the slot that holds the connection. `races` says that the
-- compare-and-exchange fails.
unfoldable pub release_slot : Bool → Status → ℕ → Held → Pool → Pool × Status
release_slot races answer i h p =
    if not (p.slots i).in_use || h.conn.pinned || races
    then (p, Status.invalid_state)
    else if not h.conn.discarded
    then (
      put i (record { held = some (record h { conn = set_released true h.conn }); in_use = false })
          p,
      Status.ok,
    )
    else (let (c, status) = conn_discard answer (set_released true h.conn) in
        if is_ok status
        then (put i (record { held = some (record h { conn = c }); in_use = false }) p, Status.ok)
        else (
          put i (record { held = some (record h { conn = set_released false c }); in_use = true })
              p,
          status,
        ))

-- The turn of the loop of sqli_pool_release that finds the connection, if one does.
unfoldable pub release_held : Bool → Status → ℕ → Option Held → Pool → Pool × Status
release_held races answer i none p = (p, Status.invalid_state)
release_held races answer i (some h) p = release_slot races answer i h p

unfoldable pub release_found : Bool → Status → Option ℕ → Pool → Pool × Status
release_found races answer none p = (p, Status.invalid_state)
release_found races answer (some i) p = release_held races answer i (p.slots i).held p

unfoldable pub release : Bool → Status → ℕ → Pool → Pool × Status
release races answer a p = release_found races answer (find_address a p.slots 0 p.size) p

-- The first loop of sqli_pool_destroy.
unfoldable pub any_in_use : (ℕ → Slot) → ℕ → ℕ → Bool
any_in_use slots i zero = false
any_in_use slots i (suc n) = (slots i).in_use || any_in_use slots (suc i) n

-- A slot of the second loop: its connection is torn down, and the loop goes on with `rest` unless
-- that fails.
unfoldable pub discard_slot : Status → ℕ → Option Held → Pool → Pool × Status → Pool × Status
discard_slot answer i none p rest = rest
discard_slot answer i (some h) p rest =
    let (c, status) = conn_discard answer h.conn in
    if is_ok status then rest else (
      put i (record { held = some (record h { conn = c }); in_use = (p.slots i).in_use }) p,
      status,
    )

-- The second loop, from the i-th of `n` slots on.
unfoldable pub discard_slots : (ℕ → Status) → ℕ → ℕ → Pool → Pool × Status
discard_slots answers i zero p = (p, Status.ok)
discard_slots answers i (suc n) p =
    let empty : Slot = record { held = none; in_use = false } in
    discard_slot (answers i) i (p.slots i).held p (discard_slots answers (suc i) n (put i empty p))

-- sqli_pool_destroy; with SQLI_OK the memory of the pool is given back.
unfoldable pub destroy : (ℕ → Status) → Pool → Pool × Status
destroy answers p =
    if any_in_use p.slots 0 p.size
    then (p, Status.invalid_state)
    else discard_slots answers 0 p.size (record p { shutting_down = true })

-- The loop of sqli_pool_create: `answers i` is what sqli_create and sqli_connect make for slot i.
unfoldable pub create_slots : (ℕ → Conn × Status) → ℕ → ℕ → Pool → Pool × Status
create_slots answers i zero p = (p, Status.ok)
create_slots answers i (suc n) p =
    let (c, status) = answers i in
    let rest =
      create_slots answers (suc i) n
        (record (put i
          (record {
            held = some (record { address = p.next; conn = set_released true c });
            in_use = false;
          })
          p) { next = suc p.next }) in
    if is_ok status then rest else (p, status)

-- failed_pool_creation: the pool stays reachable where its cleanup fails.
unfoldable pub failed_pool_creation : (ℕ → Status) → Status → Pool → Option Pool × Status
failed_pool_creation teardowns status p =
    let (p', cleanup) = destroy teardowns p in
    if is_ok cleanup then (none, status) else (some p', cleanup)

abbrev pub empty_pool : ℕ → Pool
empty_pool size = record {
  shutting_down = false;
  size = size;
  slots = λ i. record { held = none; in_use = false };
  next = 0;
}

-- `prepared` is the answer of the allocations, of the mutex and of the copy of the parameters.
unfoldable pub pool_create : Status → (ℕ → Conn × Status) → (ℕ → Status) → ℕ → Option Pool × Status
pool_create prepared answers teardowns size =
    if size == 0
    then (none, Status.invalid_state)
    else if not (is_ok prepared)
    then (none, prepared)
    else (let (p, status) = create_slots answers 0 size (empty_pool size) in
        if is_ok status then (some p, Status.ok) else failed_pool_creation teardowns status p)
