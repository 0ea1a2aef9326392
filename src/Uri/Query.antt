-- ===== src/Uri/Query.antt =====
-- The query string of a connection URI (src/sqli_uri.c).
use libsqli.Prelude.{
  ℕ, Bool, true, false, ◌&&◌, List, [], ◌∷◌, Option, none, some, map, ◌==◌, if◌then◌else◌, take,
}
use libsqli.Uri.{url_decode, split_at}

-- uri_query_entry, its buffers read as C strings.
pub record Entry : Type 0 where
  pub key : List ℕ
  pub value : List ℕ

abbrev pub keep : List ℕ → List (List ℕ) → List (List ℕ)
keep [] tokens = tokens
keep (c ∷ cs) tokens = (c ∷ cs) ∷ tokens

-- The text in front of the first separator, and the tokens behind it: strtok_r passes over empty ones.
unfoldable pub first_token : List ℕ → List ℕ × List (List ℕ)
first_token [] = ([], [])
first_token (c ∷ cs) =
    let (token, tokens) = first_token cs in
    if c == b'&' then ([], keep token tokens) else (c ∷ token, tokens)

unfoldable pub tokens_of : List ℕ → List (List ℕ)
tokens_of query = let (token, tokens) = first_token query in keep token tokens

abbrev pub entry_from : List ℕ → Option (List ℕ × List ℕ) → Entry
entry_from token none = record { key = url_decode token 128; value = [] }
entry_from token (some (key, value)) = record {
  key = url_decode key 128;
  value = url_decode value 256;
}

unfoldable pub entry_of : List ℕ → Entry
entry_of token = entry_from token (split_at b'=' token)

-- `memory` says whether malloc gives memory for the copy of the text.
unfoldable pub parse_query_string : Bool → List ℕ → ℕ → Option (List Entry)
parse_query_string memory [] max_entries = some []
parse_query_string memory (c ∷ cs) max_entries =
    if memory then some (map entry_of (take max_entries (tokens_of (c ∷ cs)))) else none

-- strcmp gives 0.
abbrev pub is_same : List ℕ → List ℕ → Bool
is_same [] [] = true
is_same [] (b ∷ bs) = false
is_same (a ∷ rest) [] = false
is_same (a ∷ rest) (b ∷ bs) = a == b && is_same rest bs

abbrev pub is_present : List ℕ → Bool
is_present [] = false
is_present (c ∷ cs) = true

unfoldable pub find_query_value : List Entry → List ℕ → Option (List ℕ)
find_query_value [] key = none
find_query_value (e ∷ es) key =
    let later = find_query_value es key in
    if is_same e.key key && is_present e.value then some e.value else later
