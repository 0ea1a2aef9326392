-- ===== src/Batch/Totals.antt =====
-- The items, the counters and the frame of a batch (src/sqli_batch.c).
use Prim.Native.String.{String}
use libsqli.Prelude.{
  ℕ, zero, suc, ◌+◌, ◌<◌, ◌≤◌, ◌≡◌, refl, sym, ◌∙◌, ap, Bool, true, false, not, ◌&&◌, ◌||◌, List,
  [], ◌∷◌, Option, none, some, ltb, ◌==◌, length, get_elem?, arith, inl, inr, Bool-cases,
  if◌then◌else◌, lt→ltb, get_elem?-lt,
}
use libsqli.Status.{Status, is_ok, Result, done, fail}
use libsqli.Conn.{Conn, is_ready, clear_error, set_error, set_error_context}
use libsqli.Txn.{Net}
use libsqli.Txn.Session.{batch_begin, batch_end, sq_batchend}
use libsqli.Txn.Steps.{true≢false, verify_effect}
use libsqli.Batch.{
  Item, BatchResult, Query, Memory, Tally, empty_item, is_empty, run_statement, add_item,
  run_statements, run_batch, batch_execute, batch_item,
}

length-add_item :
    (item : Item) (good : Bool) (t : Tally)
    → (length (add_item item good t).items ≡ suc (length t.items))
      × ((add_item item good t).successes + (add_item item good t).errors
          ≡ suc (t.successes + t.errors))
      × ((add_item item good t).items ≡ item ∷ t.items)
unfolding add_item
length-add_item item true t = (refl, omega arith, refl)
length-add_item item false t = (refl, omega arith, refl)

-- A statement more is an item more, and one more in one of the two counters.
run_statements-totals :
    (query : Query) (list : List (Option String)) (c : Conn)
    → let t = (run_statements query list c).1 in
      (length t.items ≡ length list) × (t.successes + t.errors ≡ length list)
unfolding run_statements
run_statements-totals query [] c = (refl, refl)
run_statements-totals query (sql ∷ rest) c =
    let (c', item, good) = run_statement query sql c in
    let t = (run_statements query rest c').1 in
    let (a, b, _) = length-add_item item good t in
    let (d, e) = run_statements-totals query rest c' in (a ∙ ap suc d, b ∙ ap suc e)

run_statement-empty :
    (query : Query) (sql : Option String) (c : Conn)
    → is_empty sql ≡ true
    → run_statement query sql c ≡ (c, empty_item, false)
unfolding run_statement
run_statement-empty query none c h = refl
run_statement-empty query (some sql) c h = rw h refl

run_statements-empty :
    (query : Query) (list : List (Option String)) (c : Conn) (i : ℕ) (sql : Option String)
    → get_elem? list i ≡ some sql
    → is_empty sql ≡ true
    → get_elem? (run_statements query list c).1.items i ≡ some empty_item
unfolding run_statements
run_statements-empty query [] c i sql h k = cc
run_statements-empty query (s ∷ rest) c zero sql h k =
    let (c', item, good) = run_statement query s c in
    let t = (run_statements query rest c').1 in
    let e : s ≡ sql = ground (arith, h) in
    let one = run_statement-empty query s c (ap is_empty e ∙ k) in
    ap (λ (l : List Item). get_elem? l 0) (length-add_item item good t).2
    ∙ ap (λ (r : Conn × Item × Bool). some r.1) one
run_statements-empty query (s ∷ rest) c (suc i) sql h k =
    let (c', item, good) = run_statement query s c in
    let t = (run_statements query rest c').1 in
    ap (λ (l : List Item). get_elem? l (suc i)) (length-add_item item good t).2
    ∙ run_statements-empty query rest c' i sql h k

leb→not_ltb : (i n : ℕ) → n ≤ i → ltb i n ≡ false
leb→not_ltb i n h = ground arith

is_ok→ok : (s : Status) → is_ok s ≡ true → s ≡ Status.ok
is_ok→ok s h = ground (arith, h)

-- sqli_batch_end with SQLI_OK closes the frame.
batch_end_closes :
    (net : Net) (c : Conn) → (batch_end net c).1 ≡ Status.ok → (batch_end net c).0.in_batch ≡ false
unfolding batch_end clear_error set_error set_error_context
batch_end_closes net c = elim (verify_effect "batch_end" (clear_error c)) [
  | inr (bad, same) ↦ rw bad (λ e. true≢false (sym (ap is_ok e) ∙ bad))
  | inl (good, _) ↦ rw good (elim (Bool-cases (not c.in_batch)) [
    | inl refused ↦ rw refused (λ e. true≢false (sym (ap is_ok e)))
    | inr fine ↦ rw fine (elim (Bool-cases (net.send 0 (0 ∷ sq_batchend ∷ []))) [
      | inr lost ↦ rw lost (λ e. true≢false (sym (ap is_ok e)))
      | inl sent ↦ rw sent (λ e. refl)
    ])
  ])
]

-- The result is complete: an item per statement, counters that add up, and for a missing or empty
-- statement the item that says so.
pub record IsComplete (list : List (Option String)) (b : BatchResult) : Type 0 where
  pub counted : b.count ≡ length list
  pub itemised : length b.items ≡ b.count
  pub totals : b.success_count + b.error_count ≡ b.count
  pub blanks :
      (i : ℕ) (sql : Option String)
      → get_elem? list i ≡ some sql
      → is_empty sql ≡ true
      → get_elem? b.items i ≡ some empty_item

-- A result is complete and its frame closed; a refusal has a status that is not SQLI_OK.
abbrev pub Delivers : List (Option String) → Conn × Result BatchResult → Type 0
Delivers list (c, done b) = IsComplete list b × (c.in_batch ≡ false)
Delivers list (c, fail s) = is_ok s ≡ false

clear_if-in_batch : (b : Bool) (c : Conn) → (if b then clear_error c else c).in_batch ≡ c.in_batch
unfolding clear_error
clear_if-in_batch true c = refl
clear_if-in_batch false c = refl

run_batch-Delivers :
    (net : Net) (query : Query) (list : List (Option String)) (c : Conn)
    → Delivers list (run_batch net query list c)
unfolding run_batch
run_batch-Delivers net query list c =
    let (c', t) = run_statements query list c in
    let (sizes, sums) = run_statements-totals query list c in
    elim (Bool-cases (is_ok (batch_end net c').1)) [
      | inr bad ↦ rw bad bad
      | inl good ↦ rw good (
        record {
          counted = refl;
          itemised = sizes;
          totals = sums;
          blanks = run_statements-empty query list c;
        },
        clear_if-in_batch (t.errors == 0) (batch_end net c').0
            ∙ batch_end_closes net c' (is_ok→ok _ good),
      )
    ]

-- Whatever the network and sqli_query answer, sqli_batch_execute either hands out a result with an
-- item per statement, counters that add up to the number of statements and the item of an empty
-- statement in its place, with the batch frame closed, or fails with a status other than SQLI_OK.
pub batch_execute-Delivers :
    (memory : Memory) (begin_net net : Net) (query : Query) (list : List (Option String)) (c : Conn)
    → Delivers list (batch_execute memory begin_net net query list c)
unfolding batch_execute
batch_execute-Delivers memory begin_net net query list c =
    let c' = clear_error c in
    elim (Bool-cases (not (is_ready c'.state))) [
      | inl down ↦ rw down refl
      | inr up ↦
          rw up
            (elim (Bool-cases
              (not memory.for_batch || (ltb 0 (length list) && not memory.for_items))) [
                | inl full ↦ rw full refl
                | inr room ↦ rw room (elim (Bool-cases (is_ok (batch_begin begin_net c').1)) [
                  | inr bad ↦ rw bad bad
                  | inl good ↦
                      rw good (run_batch-Delivers net query list (batch_begin begin_net c').0)
                ])
              ])
    ]

-- An item can be read for each statement of a complete result, and behind the last one the index is
-- refused.
batch_item_lem :
    (list : List (Option String)) (b : BatchResult) (i : ℕ)
    → IsComplete list b
    → (i < length list → (it : Item) × (batch_item b i ≡ done it))
      × (length list ≤ i → batch_item b i ≡ fail Status.invalid_state)
unfolding batch_item
batch_item_lem list b i h =
    let sizes = h.itemised ∙ h.counted in
    (
      λ lt.
          let (it, e) = get_elem?-lt b.items i (omega (arith, lt, sizes)) in
          (it, rw (lt→ltb i b.count (omega (arith, lt, h.counted)), e) refl),
      λ ge. rw (leb→not_ltb i b.count (omega (arith, ge, h.counted))) refl,
    )
