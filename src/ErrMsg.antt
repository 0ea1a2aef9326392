-- ===== src/ErrMsg.antt =====
-- The error messages of src/ifx_errmsg.c: the search for a code and the expansion of its text. The
-- generated tables of src/ifx_errmsg_data.c are the parameter `Tables`. A character is its byte.
mod Search
mod Meaning
mod Expansion
mod Examples
use libsqli.Prelude.{
  ℕ, zero, suc, ◌+◌, ◌-◌, ◌/◌, Bool, true, false, ◌&&◌, not, List, [], ◌∷◌, ◌++◌, Option, none,
  some, ltb, leb, ◌==◌, if◌then◌else◌, length, get_or, drop,
}
use libsqli.Prelude.Int.{ℤ, pos, negsuc, ◌-ℤ◌, ltb_ℤ, same_ℤ}

-- ifx_code_entry_t
pub record CodeEntry : Type 0 where
  pub code : ℤ
  pub offset : ℕ

abbrev pub no_entry : CodeEntry
no_entry = record { code = pos 0; offset = 0 }

pub record Tables : Type 0 where
  pub dict_blob : List ℕ
  pub dict_offsets : List ℕ
  pub msg_blob : List ℕ
  pub code_table : List CodeEntry

-- The entry in the middle of `low` and `high`.
abbrev pub middle : ℕ → ℕ → ℕ
middle low high = low + (high - low) / 2

-- find_code between `low` and `high`: each turn leaves fewer entries, so that as many turns as there
-- are entries, and one, are enough.
unfoldable pub search_code : List CodeEntry → ℤ → ℕ → ℕ → ℕ → Option CodeEntry
search_code table code zero low high = none
search_code table code (suc n) low high =
    let mid = middle low high in
    let entry = get_or table mid no_entry in
    let above = search_code table code n (mid + 1) high in
    let below = search_code table code n low mid in
    if not (ltb low high)
    then none
    else if same_ℤ entry.code code
    then some entry
    else if ltb_ℤ entry.code code
    then above
    else below

unfoldable pub find_code : List CodeEntry → ℤ → Option CodeEntry
find_code table code = search_code table code (suc (length table)) 0 (length table)

-- The bytes in front of the end mark.
abbrev pub c_bytes : List ℕ → List ℕ
c_bytes [] = []
c_bytes (c ∷ cs) = let rest = c_bytes cs in if c == 0 then [] else c ∷ rest

unfoldable pub dict_entry : Tables → ℕ → List ℕ
dict_entry t index = c_bytes (drop (get_or t.dict_offsets index 0) t.dict_blob)

-- What stands for one token of one byte: an entry of the dictionary, or the byte itself.
unfoldable pub literal : Tables → ℕ → List ℕ
literal t token = if leb 129 token then dict_entry t (token - 129) else token ∷ []

-- What ifx_errmsg_get leaves in the buffer: nothing, the part that was copied before the room ran
-- out, or the text, which is followed by its end mark. What the language leaves undefined is a case of
-- its own.
pub data Lookup : Type 0 where
  missing : Lookup
  too_small : List ℕ → Lookup
  found : List ℕ → Lookup
  undefined : Lookup

-- The loop of ifx_errmsg_get behind the bytes that were copied. A message ends with the byte 0; the
-- end of the table counts as one, also behind the byte 128.
unfoldable pub expand : Tables → ℕ → List ℕ → List ℕ → Lookup
expand t size copied [] = if leb size (length copied) then too_small copied else found copied
expand t size copied (token ∷ []) =
    let text = if token == 128 then dict_entry t 127 else literal t token in
    let behind_one = expand t size (copied ++ text) [] in
    if token == 0
    then if leb size (length copied) then too_small copied else found copied
    else if leb size (length copied + length text)
    then too_small copied
    else behind_one
expand t size copied (token ∷ next ∷ tokens) =
    let pair = dict_entry t (127 + next) in
    let text = literal t token in
    let behind_pair = expand t size (copied ++ pair) tokens in
    let behind_one = expand t size (copied ++ text) (next ∷ tokens) in
    if token == 0
    then if leb size (length copied) then too_small copied else found copied
    else if token == 128
    then if leb size (length copied + length pair) then too_small copied else behind_pair
    else if leb size (length copied + length text)
    then too_small copied
    else behind_one

unfoldable pub errmsg_get : Tables → ℕ → ℤ → Lookup
errmsg_get t size code = elim (find_code t.code_table code) [
  | none ↦ missing
  | some entry ↦ expand t size [] (drop entry.offset t.msg_blob)
]

abbrev pub is_missing : Lookup → Bool
is_missing l = elim l [ missing ↦ true | _ ↦ false ]

-- The least code of type int32_t.
abbrev pub int32_min : ℤ
int32_min = negsuc 0x7fff_ffff

-- sqli_error_message_lookup: the code with the other sign is the second choice. The negation of
-- INT32_MIN overflows, which the language leaves undefined.
unfoldable pub error_message_lookup : Tables → ℕ → ℤ → Lookup
error_message_lookup t size code =
    if is_missing (errmsg_get t size code) && not (same_ℤ code (pos 0))
    then if same_ℤ code int32_min then undefined else errmsg_get t size (pos 0 -ℤ code)
    else errmsg_get t size code
