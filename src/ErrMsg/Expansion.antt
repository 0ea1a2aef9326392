-- ===== src/ErrMsg/Expansion.antt =====
-- The expansion of a message in its buffer (ifx_errmsg_get of src/ifx_errmsg.c).
use mathlib.Core.Path.{subst}
use mathlib.Core.List.{append_assoc, append-nil}
use libsqli.Prelude.{
  ℕ, ◌+◌, ◌≤◌, ◌<◌, ◌≡◌, ◌≢◌, refl, sym, ap, true, false, List, [], ◌∷◌, ◌++◌, Option, none, some,
  leb, ◌==◌, if◌then◌else◌, length, length-append, drop, arith, inl, inr, ◌⊎◌, Bool-cases,
}
use libsqli.Prelude.Int.{ℤ, pos, negsuc, ◌-ℤ◌, same_ℤ, eq_of_parts}
use libsqli.ErrMsg.{
  CodeEntry, Tables, Lookup, missing, too_small, found, dict_entry, literal, expand, find_code,
  errmsg_get, error_message_lookup, is_missing, int32_min, undefined,
}
use libsqli.ErrMsg.Meaning.{Means, message, message-Means}
use libsqli.ErrMsg.Search.{IsAnswer, IsAscending, find_code-IsAnswer}

-- The text with its end mark, where there is room for both, or else a part that fits the buffer.
abbrev pub IsExpanded : ℕ → List ℕ → Lookup → Type 0
IsExpanded size text (found out) = (out ≡ text) × (length text < size)
IsExpanded size text (too_small out) = (length out ≤ size) × (size ≤ length text)
IsExpanded size text missing = ⊥
IsExpanded size text undefined = ⊥

expand-end :
    (size : ℕ) (copied : List ℕ)
    → length copied ≤ size
    → IsExpanded size
        (copied ++ [])
        (if leb size (length copied) then too_small copied else found copied)
expand-end size copied h = elim (Bool-cases (leb size (length copied))) [
  | inl e ↦ rw e (h, ground (arith, e, length-append copied []))
  | inr e ↦ rw e (sym (append-nil copied), ground (arith, e, length-append copied []))
]

expand-step :
    (size : ℕ) (copied text rest : List ℕ) (behind : Lookup)
    → length copied ≤ size
    → (length (copied ++ text) ≤ size → IsExpanded size ((copied ++ text) ++ rest) behind)
    → IsExpanded size
        (copied ++ (text ++ rest))
        (if leb size (length copied + length text) then too_small copied else behind)
expand-step size copied text rest behind h k =
    let one = length-append copied text in
    let all = length-append copied (text ++ rest) in
    let two = length-append text rest in
    elim (Bool-cases (leb size (length copied + length text))) [
      | inl e ↦ rw e (h, ground (arith, e, all, two))
      | inr e ↦ rw e (
          subst (λ t. IsExpanded size t behind) (append_assoc copied text rest)
            (k (ground (arith, e, one))))
    ]

expand-IsExpanded :
    (t : Tables) (size : ℕ) (copied tokens : List ℕ)
    → length copied ≤ size
    → IsExpanded size (copied ++ message t tokens) (expand t size copied tokens)
unfolding expand message
expand-IsExpanded t size copied [] h = expand-end size copied h
expand-IsExpanded t size copied (token ∷ []) h = elim (Bool-cases (token == 0)) [
  | inl e ↦ rw e (expand-end size copied h)
  | inr e ↦ rw e (
      expand-step size copied (if token == 128 then dict_entry t 127 else literal t token) [] _ h
        (λ room. expand-end size _ room))
]
expand-IsExpanded t size copied (token ∷ next ∷ tokens) h = elim (Bool-cases (token == 0)) [
  | inl e ↦ rw e (expand-end size copied h)
  | inr e ↦ elim (Bool-cases (token == 128)) [
    | inl p ↦
        rw (e, p)
          (expand-step size copied (dict_entry t (127 + next)) (message t tokens) _ h
            (λ room. expand-IsExpanded t size (copied ++ dict_entry t (127 + next)) tokens room))
    | inr p ↦
        rw (e, p)
          (expand-step size copied (literal t token) (message t (next ∷ tokens)) _ h
            (λ room. expand-IsExpanded t size (copied ++ literal t token) (next ∷ tokens) room))
  ]
]

-- No entry has the code.
abbrev pub HasNone : Tables → ℤ → Type 0
HasNone t code = IsAnswer t.code_table code 0 (length t.code_table) none

-- What ifx_errmsg_get gives for a code.
abbrev IsGiven : Tables → ℕ → ℤ → Lookup → Type 0
IsGiven t size code l =
    (HasNone t code × (l ≡ missing))
    ⊎ ((entry : CodeEntry) × (text : List ℕ) × (entry.code ≡ code)
        × Means t (drop entry.offset t.msg_blob) text
        × IsExpanded size text l)

IsGiven-by :
    (t : Tables) (size : ℕ) (code : ℤ) (answer : Option CodeEntry)
    → IsAnswer t.code_table code 0 (length t.code_table) answer
    → IsGiven t size code (elim answer [
      | none ↦ missing
      | some entry ↦ expand t size [] (drop entry.offset t.msg_blob)
    ])
IsGiven-by t size code none h = inl (h, refl)
IsGiven-by t size code (some entry) (i, low, high, there, same) =
    let tokens = drop entry.offset t.msg_blob in
    inr (
      entry,
      message t tokens,
      same,
      message-Means t tokens,
      expand-IsExpanded t size [] tokens (omega arith),
    )

errmsg_get-IsGiven :
    (t : Tables) (size : ℕ) (code : ℤ)
    → IsAscending t.code_table
    → IsGiven t size code (errmsg_get t size code)
unfolding errmsg_get
errmsg_get-IsGiven t size code h =
    IsGiven-by t size code (find_code t.code_table code) (find_code-IsAnswer t.code_table code h)

-- What sqli_error_message_lookup gives: the text of the code, or else that of the code with the
-- other sign.
abbrev pub IsLookedUp : Tables → ℕ → ℤ → Lookup → Type 0
IsLookedUp t size code l =
    (HasNone t code × HasNone t (pos 0 -ℤ code) × (l ≡ missing))
    ⊎ ((entry : CodeEntry) × (text : List ℕ) × ((entry.code ≡ code)
          ⊎ (HasNone t code × (entry.code ≡ pos 0 -ℤ code)))
        × Means t (drop entry.offset t.msg_blob) text
        × IsExpanded size text l)

zero_negated : (code : ℤ) → same_ℤ code (pos 0) ≡ true → code ≡ pos 0 -ℤ code
unfolding ◌-ℤ◌
zero_negated (pos n) h = ground (arith, h)
zero_negated (negsuc n) h = absurd (ground (arith, h))

never_missing :
    (size : ℕ) (text : List ℕ) (l : Lookup) → IsExpanded size text l → is_missing l ≡ false
never_missing size text missing h = elim h [ ]
never_missing size text undefined h = elim h [ ]
never_missing size text (too_small out) h = refl
never_missing size text (found out) h = refl

second_choice :
    (t : Tables) (size : ℕ) (code : ℤ) (l : Lookup)
    → HasNone t code
    → IsGiven t size (pos 0 -ℤ code) l
    → IsLookedUp t size code l
second_choice t size code l h (inl (none_left, e)) = inl (h, none_left, e)
second_choice t size code l h (inr (entry, text, e, means, given)) =
    inr (entry, text, inr (h, e), means, given)

other_than : (a b : ℤ) → a ≢ b → same_ℤ a b ≡ false
other_than a b other = elim (Bool-cases (same_ℤ a b)) [
  | inl e ↦ absurd (other (eq_of_parts a b (ground (arith, e))))
  | inr e ↦ e
]

-- With codes that ascend, and for a code other than INT32_MIN, sqli_error_message_lookup says that
-- there is no message only where no entry has the code, nor the code with the other sign. Else it
-- takes an entry of the code, or, where there is none, of the code with the other sign, and gives the
-- whole text that the tokens of the entry mean where that fits the buffer with its end mark, and a
-- refusal where it does not. It never writes behind the buffer.
pub error_message_lookup-IsLookedUp :
    (t : Tables) (size : ℕ) (code : ℤ)
    → IsAscending t.code_table
    → code ≢ int32_min
    → IsLookedUp t size code (error_message_lookup t size code)
unfolding error_message_lookup
error_message_lookup-IsLookedUp t size code h k = elim (errmsg_get-IsGiven t size code h) [
  | inr (entry, text, e, means, given) ↦
      let there = never_missing size text (errmsg_get t size code) given in
      rw there (inr (entry, text, inl e, means, given))
  | inl (none_left, e) ↦
      let absent : is_missing (errmsg_get t size code) ≡ true = ap is_missing e in
      elim (Bool-cases (same_ℤ code (pos 0))) [
        | inl z ↦
            rw (absent, z) (inl (none_left, subst (HasNone t) (zero_negated code z) none_left, e))
        | inr z ↦
            rw (absent, z, other_than code int32_min k)
              (second_choice t size code _ none_left (errmsg_get-IsGiven t size (pos 0 -ℤ code) h))
      ]
]
