-- ===== src/Uri/Sizes.antt =====
-- The sizes of the texts that src/sqli_uri.c takes out of a URI.
use mathlib.Core.Path.{subst}
use libsqli.Prelude.{
  ℕ, zero, suc, ◌-◌, ◌≤◌, ◌≡◌, refl, sym, ap, Bool, true, false, ◌&&◌, List, [], ◌∷◌, ◌++◌, Option,
  none, some, map, ◌==◌, if◌then◌else◌, take, length, length-take, ◌⊎◌, inl, inr, arith, Bool-cases,
  Option-cases,
}
use libsqli.Prelude.Bytes.{All}
use libsqli.Uri.{decode_bytes, next_byte, c_string, url_decode, copy_range, split_at}
use libsqli.Uri.Query.{
  Entry, entry_from, entry_of, tokens_of, parse_query_string, is_same, is_present, find_query_value,
}
use libsqli.Uri.Words.{socket_path_key, str_suffix, default_database}
use libsqli.Uri.Settings.{System, present, present_of, or_else, text_or, socket_directory}

length-c_string : (text : List ℕ) → length (c_string text) ≤ length text
unfolding c_string
length-c_string [] = omega arith
length-c_string (c ∷ cs) = elim (Bool-cases (c == 0)) [
  | inl e ↦ rw e (omega arith)
  | inr e ↦ rw e (omega (arith, length-c_string cs))
]

length-decode_bytes : (n : ℕ) (text : List ℕ) → length (decode_bytes n text) ≤ n
unfolding decode_bytes
length-decode_bytes zero text = omega arith
length-decode_bytes (suc n) [] = omega arith
length-decode_bytes (suc n) (c ∷ cs) = omega (arith, length-decode_bytes n (next_byte c cs).1)

pub length-url_decode : (text : List ℕ) (dst_sz : ℕ) → length (url_decode text dst_sz) ≤ dst_sz - 1
unfolding url_decode
length-url_decode text dst_sz =
    omega (
      arith,
      length-c_string (decode_bytes (dst_sz - 1) text),
      length-decode_bytes (dst_sz - 1) text,
    )

pub length-copy_range : (text : List ℕ) (dst_sz : ℕ) → length (copy_range text dst_sz) ≤ dst_sz - 1
unfolding copy_range
length-copy_range text dst_sz = omega (arith, length-take (dst_sz - 1) text)

-- A value fits the buffer of an entry.
abbrev pub IsSmall : Entry → Type 0
IsSmall e = length e.value ≤ 255

entry_from-IsSmall :
    (token : List ℕ) (parts : Option (List ℕ × List ℕ)) → IsSmall (entry_from token parts)
entry_from-IsSmall token none = omega arith
entry_from-IsSmall token (some (k, v)) = length-url_decode v 256

entries-IsSmall : (n : ℕ) (ts : List (List ℕ)) → All IsSmall (map entry_of (take n ts))
unfolding entry_of
entries-IsSmall zero ts = tt
entries-IsSmall (suc n) [] = tt
entries-IsSmall (suc n) (t ∷ ts) = (entry_from-IsSmall t (split_at b'=' t), entries-IsSmall n ts)

pub parsed-IsSmall :
    (memory : Bool) (query : List ℕ) (n : ℕ) (es : List Entry)
    → parse_query_string memory query n ≡ some es
    → All IsSmall es
unfolding parse_query_string
parsed-IsSmall memory [] n es h = let same : [] ≡ es = cc in subst (All IsSmall) same tt
parsed-IsSmall true (c ∷ cs) n es h =
    let same : map entry_of (take n (tokens_of (c ∷ cs))) ≡ es = cc in
    subst (All IsSmall) same (entries-IsSmall n (tokens_of (c ∷ cs)))
parsed-IsSmall false (c ∷ cs) n es h = cc

chosen :
    (a b : Bool) (x v : List ℕ) (later : Option (List ℕ))
    → (if a && b then some x else later) ≡ some v
    → ((b ≡ true) × (x ≡ v)) ⊎ (later ≡ some v)
chosen true true x v later h = inl (refl, cc)
chosen true false x v later h = inr h
chosen false b x v later h = inr h

abbrev pub IsFitting : List ℕ → Type 0
IsFitting v = (is_present v ≡ true) × (length v ≤ 255)

pub find_query_value-IsFitting :
    (es : List Entry) (key v : List ℕ)
    → All IsSmall es
    → find_query_value es key ≡ some v
    → IsFitting v
unfolding find_query_value
find_query_value-IsFitting [] key v s h = cc
find_query_value-IsFitting (e ∷ es) key v (s, ss) h =
    elim (chosen (is_same e.key key) (is_present e.value) e.value v (find_query_value es key) h) [
      | inl (b, same) ↦ subst IsFitting same (b, s)
      | inr later ↦ find_query_value-IsFitting es key v ss later
    ]

present_lem : (t x : List ℕ) → present t ≡ some x → (t ≡ x) × (is_present x ≡ true)
present_lem [] x h = cc
present_lem (c ∷ cs) x h = let same : c ∷ cs ≡ x = cc in (same, ap is_present (sym same))

pub present_copy :
    (t x : List ℕ) (n : ℕ)
    → present (copy_range t n) ≡ some x
    → (is_present x ≡ true) × (length x ≤ n - 1)
present_copy t x n h =
    let (same, b) = present_lem (copy_range t n) x h in
    (b, subst (λ (y : List ℕ). length y ≤ n - 1) same (length-copy_range t n))

pub database-IsFitting :
    (t : List ℕ) → IsFitting (text_or (present (copy_range t 256)) default_database)
database-IsFitting t = elim (Option-cases (present (copy_range t 256))) [
  | inl e ↦ rw e (refl, omega arith)
  | inr (x, e) ↦ rw e (present_copy t x 256 e)
]

pub or_else-first : (a b : Option (List ℕ)) (x : List ℕ) → a ≡ some x → or_else a b ≡ some x
or_else-first none b x h = cc
or_else-first (some a) b x h = h

append-present : (a : List ℕ) (c : ℕ) (b : List ℕ) → is_present (a ++ (c ∷ b)) ≡ true
append-present [] c b = refl
append-present (x ∷ a) c b = refl

take-present : (n : ℕ) (t : List ℕ) → is_present t ≡ true → is_present (take (suc n) t) ≡ true
take-present n [] h = cc
take-present n (c ∷ cs) h = refl

socket-present :
    (directory : Option (List ℕ)) (has_directory : Bool) (server : List ℕ)
    → is_present (socket_directory directory has_directory server) ≡ true
socket-present none true server = refl
socket-present none false server = refl
socket-present (some d) has_directory server = append-present d b'/' (server ++ str_suffix)

pub service-present :
    (sys : System) (es : List Entry) (server : List ℕ)
    → All IsSmall es
    → is_present (
        text_or
          (find_query_value es socket_path_key)
          (take 511 (socket_directory (present_of sys.informixtmp) sys.has_directory server)))
      ≡ true
service-present sys es server s = elim (Option-cases (find_query_value es socket_path_key)) [
  | inl e ↦
      rw e
        (take-present 510 _ (socket-present (present_of sys.informixtmp) sys.has_directory server))
  | inr (x, e) ↦ rw e (find_query_value-IsFitting es socket_path_key x s e).0
]

pub length-service :
    (sys : System) (es : List Entry) (server : List ℕ)
    → All IsSmall es
    → length (
        text_or
          (find_query_value es socket_path_key)
          (take 511 (socket_directory (present_of sys.informixtmp) sys.has_directory server)))
      ≤ 511
length-service sys es server s =
    let path = socket_directory (present_of sys.informixtmp) sys.has_directory server in
    elim (Option-cases (find_query_value es socket_path_key)) [
      | inl e ↦ rw e (omega (arith, length-take 511 path))
      | inr (x, e) ↦ rw e (omega (arith, (find_query_value-IsFitting es socket_path_key x s e).1))
    ]
