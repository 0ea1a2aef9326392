-- ===== src/Uri/Entries.antt =====
-- parse_query_string of a query that was put together from keys and values (src/sqli_uri.c).
use libsqli.Prelude.{
  ℕ, zero, suc, ◌≡◌, refl, ap, ◌∙◌, Bool, true, List, [], ◌∷◌, ◌++◌, some, map, ◌==◌, take,
}
use mathlib.Core.List.{append-nil}
use libsqli.Prelude.Bytes.{All}
use libsqli.Uri.{url_decode}
use libsqli.Uri.Query.{
  Entry, keep, first_token, tokens_of, entry_from, entry_of, parse_query_string,
}
use libsqli.Uri.Printing.{IsWithout, IsWithout-append, split_at-append}

-- The encoded key and the encoded value of an entry.
abbrev pub Pair : Type 0
Pair = List ℕ × List ℕ

abbrev pub pair_text : Pair → List ℕ
pair_text p = p.0 ++ (b'=' ∷ p.1)

abbrev pub later_text : List Pair → List ℕ
later_text [] = []
later_text (p ∷ ps) = b'&' ∷ (pair_text p ++ later_text ps)

-- key=value&key=value
abbrev pub pairs_text : List Pair → List ℕ
pairs_text [] = []
pairs_text (p ∷ ps) = pair_text p ++ later_text ps

abbrev pub pair_entry : Pair → Entry
pair_entry p = record { key = url_decode p.0 128; value = url_decode p.1 256 }

-- No key or value has a separator in it, and no key an equals sign.
abbrev pub IsPair : Pair → Type 0
IsPair p =
    IsWithout (λ c. c == b'&') p.0 × IsWithout (λ c. c == b'=') p.0 × IsWithout (λ c. c == b'&') p.1

pair_text-IsWithout : (p : Pair) → IsPair p → IsWithout (λ c. c == b'&') (pair_text p)
pair_text-IsWithout p (a, b, c) = IsWithout-append (λ x. x == b'&') p.0 (b'=' ∷ p.1) a (refl, c)

first_token-append :
    (text rest : List ℕ)
    → IsWithout (λ c. c == b'&') text
    → first_token (text ++ rest) ≡ (text ++ (first_token rest).0, (first_token rest).1)
unfolding first_token
first_token-append [] rest h = refl
first_token-append (c ∷ text) rest (h, hs) = rw (first_token-append text rest hs) (rw h refl)

keep_pair : (p : Pair) (ts : List (List ℕ)) → keep (pair_text p) ts ≡ (pair_text p ∷ ts)
keep_pair ([], v) ts = refl
keep_pair ((c ∷ k), v) ts = refl

-- The token of a pair in front of others.
first_token-pair :
    (p : Pair) (ps : List Pair)
    → IsPair p
    → first_token (later_text ps) ≡ ([], map pair_text ps)
    → first_token (pair_text p ++ later_text ps) ≡ (pair_text p, map pair_text ps)
first_token-pair p ps h e =
    first_token-append (pair_text p) (later_text ps) (pair_text-IsWithout p h)
    ∙ ap (λ (r : List ℕ × List (List ℕ)). (pair_text p ++ r.0, r.1)) e
    ∙ ap (λ (t : List ℕ). (t, map pair_text ps)) (append-nil (pair_text p))

first_token-later :
    (ps : List Pair) → All IsPair ps → first_token (later_text ps) ≡ ([], map pair_text ps)
unfolding first_token
first_token-later [] h = refl
first_token-later (p ∷ ps) (h, hs) =
    rw (first_token-pair p ps h (first_token-later ps hs))
      (ap (λ (ts : List (List ℕ)). ([], ts)) (keep_pair p (map pair_text ps)))

tokens_of-pairs_text :
    (ps : List Pair) → All IsPair ps → tokens_of (pairs_text ps) ≡ map pair_text ps
unfolding tokens_of first_token
tokens_of-pairs_text [] h = refl
tokens_of-pairs_text (p ∷ ps) (h, hs) =
    rw (first_token-pair p ps h (first_token-later ps hs)) (keep_pair p (map pair_text ps))

entry_of-pair_text : (p : Pair) → IsPair p → entry_of (pair_text p) ≡ pair_entry p
unfolding entry_of
entry_of-pair_text p (a, b, c) = ap (entry_from (pair_text p)) (split_at-append b'=' p.0 p.1 b)

map-entry_of :
    (n : ℕ) (ps : List Pair)
    → All IsPair ps
    → map entry_of (take n (map pair_text ps)) ≡ map pair_entry (take n ps)
map-entry_of zero ps h = refl
map-entry_of (suc n) [] h = refl
map-entry_of (suc n) (p ∷ ps) (h, hs) = rw (entry_of-pair_text p h, map-entry_of n ps hs) refl

not_empty :
    (memory : Bool) (text : List ℕ) (n : ℕ) (ts : List (List ℕ))
    → memory ≡ true
    → tokens_of text ≡ ts
    → parse_query_string memory text n ≡ some (map entry_of (take n ts))
unfolding parse_query_string tokens_of first_token
not_empty memory [] zero ts e h = refl
not_empty memory [] (suc n) ts e h = rw⁻¹ h refl
not_empty memory (c ∷ cs) n ts e h = rw (e, h) refl

-- Where memory is given, a query put together from encoded keys and values, no key or value with a
-- separator in it and no key with an equals sign, gives the decoded entries in their order, the
-- first `max_entries` of them.
pub parse_query_string-pairs_text :
    (ps : List Pair) (max_entries : ℕ)
    → All IsPair ps
    → parse_query_string true (pairs_text ps) max_entries
      ≡ some (map pair_entry (take max_entries ps))
parse_query_string-pairs_text ps max_entries h =
    not_empty true (pairs_text ps) max_entries (map pair_text ps) refl (tokens_of-pairs_text ps h)
    ∙ ap some (map-entry_of max_entries ps h)
