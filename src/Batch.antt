-- ===== src/Batch.antt =====
-- src/sqli_batch.c: a list of statements inside one batch frame, with an item per statement.
mod Examples
pub mod Totals
use Prim.Native.String.{String}
use text.Mathlib.Text.{◌==◌ as str_eq}
use libsqli.Prelude.{
  ℕ, suc, Bool, true, false, not, ◌||◌, ◌&&◌, List, [], ◌∷◌, Option, none, some, ltb, ◌==◌, length,
  if◌then◌else◌, get_elem?,
}
use libsqli.Prelude.Int.{ℤ, pos, negsuc}
use libsqli.Status.{Status, is_ok, Result, done, fail}
use libsqli.Conn.{Conn, is_ready, clear_error, set_error_context, set_error}
use libsqli.Txn.{Net}
use libsqli.Txn.Session.{batch_begin, batch_end}

pub record Item : Type 0 where
  pub status : Status
  pub rows_affected : ℤ
  pub sqlcode : ℤ
  pub isamcode : ℤ
  pub opcode : ℕ
  pub message : String

pub record BatchResult : Type 0 where
  pub count : ℕ
  pub success_count : ℕ
  pub error_count : ℕ
  pub items : List Item

-- sqli_query with the rows that sqli_result_rows_affected reads from its result; `done none` is
-- SQLI_OK without a result.
abbrev pub Query : Type 0
Query = String → Conn → Conn × Result (Option ℤ)

-- What calloc answers for the result and for its items.
pub record Memory : Type 0 where
  pub for_batch : Bool
  pub for_items : Bool

-- sqli_error: no text where none is stored.
unfoldable pub error_text : Conn → Option String
error_text c = if str_eq c.errmsg "" then none else some c.errmsg

-- The message: that of the diagnostic, or else the text of sqli_error.
unfoldable pub item_message : Conn → String
unfolding error_text
item_message c =
    if c.error_info.has_error && not (str_eq c.error_info.message "")
    then c.error_info.message
    else elim (error_text c) [ none ↦ "" | some text ↦ text ]

unfoldable pub fill_error_item : Conn → Status → Item
unfolding item_message
fill_error_item c status = record {
  status = status;
  rows_affected = pos 0;
  sqlcode = if c.error_info.has_error then c.error_info.sqlcode else pos 0;
  isamcode = if c.error_info.has_error then c.error_info.isamcode else pos 0;
  opcode = if c.error_info.has_error then c.error_info.opcode else 0;
  message = item_message c;
}

abbrev pub empty_item : Item
empty_item = record {
  status = Status.invalid_state;
  rows_affected = pos 0;
  sqlcode = pos 0;
  isamcode = pos 0;
  opcode = 0;
  message = "empty SQL statement";
}

abbrev pub rows_item : ℤ → Item
rows_item rows = record {
  status = Status.ok;
  rows_affected = rows;
  sqlcode = pos 0;
  isamcode = pos 0;
  opcode = 0;
  message = "";
}

-- A missing or empty statement.
abbrev pub is_empty : Option String → Bool
is_empty none = true
is_empty (some sql) = str_eq sql ""

-- One turn of the loop: the connection behind it, the item, and whether it counts as a success.
unfoldable pub run_query : Query → String → Conn → Conn × Item × Bool
unfolding fill_error_item
run_query query sql c =
    let (c', answer) = query sql c in
    elim answer [
      | done (some rows) ↦ (c', rows_item rows, true)
      | done none ↦ (c', fill_error_item c' Status.ok, false)
      | fail status ↦ (c', fill_error_item c' status, false)
    ]

unfoldable pub run_statement : Query → Option String → Conn → Conn × Item × Bool
unfolding run_query
run_statement query none c = (c, empty_item, false)
run_statement query (some sql) c =
    if str_eq sql "" then (c, empty_item, false) else run_query query sql c

-- The items and the two counters behind some statements.
pub record Tally : Type 0 where
  pub items : List Item
  pub successes : ℕ
  pub errors : ℕ

unfoldable pub add_item : Item → Bool → Tally → Tally
add_item item true t = record {
  items = item ∷ t.items;
  successes = suc t.successes;
  errors = t.errors;
}
add_item item false t = record {
  items = item ∷ t.items;
  successes = t.successes;
  errors = suc t.errors;
}

unfoldable pub run_statements : Query → List (Option String) → Conn → Conn × Tally
unfolding add_item
run_statements query [] c = (c, record { items = []; successes = 0; errors = 0 })
run_statements query (sql ∷ rest) c =
    let (c', item, good) = run_statement query sql c in
    let (c'', t) = run_statements query rest c' in (c'', add_item item good t)

-- The part of sqli_batch_execute behind the open frame.
unfoldable pub run_batch : Net → Query → List (Option String) → Conn → Conn × Result BatchResult
run_batch net query list c =
    let (c', t) = run_statements query list c in
    let (c'', status) = batch_end net c' in
    if is_ok status
    then (
      if t.errors == 0 then clear_error c'' else c'',
      done (record {
        count = length list;
        success_count = t.successes;
        error_count = t.errors;
        items = t.items;
      }),
    )
    else (c'', fail status)

-- The network answers the start of the frame by `begin_net` and its end by `net`.
unfoldable pub batch_execute :
    Memory → Net → Net → Query → List (Option String) → Conn → Conn × Result BatchResult
unfolding run_batch
batch_execute memory begin_net net query list c =
    let c = clear_error c in
    if not (is_ready c.state)
    then (
      set_error "connection not ready" (set_error_context "batch_execute/precheck" 0 c),
      fail Status.invalid_state,
    )
    else if not memory.for_batch || (ltb 0 (length list) && not memory.for_items)
    then (c, fail Status.alloc_fail)
    else (let (c', status) = batch_begin begin_net c in
        if is_ok status then run_batch net query list c' else (c', fail status))

-- sqli_batch_result_item
unfoldable pub batch_item : BatchResult → ℕ → Result Item
batch_item b index =
    if ltb index b.count
    then elim (get_elem? b.items index) [ none ↦ fail Status.invalid_state | some it ↦ done it ]
    else fail Status.invalid_state
