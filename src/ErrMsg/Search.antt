-- ===== src/ErrMsg/Search.antt =====
-- The binary search for a code (find_code of src/ifx_errmsg.c).
use libsqli.Prelude.{
  ℕ, zero, suc, ◌+◌, ◌≤◌, ◌<◌, ◌≡◌, refl, ap, ◌∙◌, true, false, List, Option, none, some, ltb, ◌==◌,
  length, get_or, arith, inl, inr, Bool-cases,
}
use libsqli.Prelude.Int.{ℤ, ltb_ℤ, same_ℤ, eq_of_parts}
use libsqli.ErrMsg.{CodeEntry, no_entry, middle, search_code, find_code}

abbrev pub code_at : List CodeEntry → ℕ → ℤ
code_at table i = (get_or table i no_entry).code

-- The codes ascend.
abbrev pub IsAscending : List CodeEntry → Type 0
IsAscending table =
    (i j : ℕ) → i < j → j < length table → ltb_ℤ (code_at table i) (code_at table j) ≡ true

-- The answer of a search between two places.
abbrev pub IsAnswer : List CodeEntry → ℤ → ℕ → ℕ → Option CodeEntry → Type 0
IsAnswer table code low high none =
    (i : ℕ) → low ≤ i → i < high → same_ℤ (code_at table i) code ≡ false
IsAnswer table code low high (some entry) =
    (i : ℕ) × (low ≤ i) × (i < high) × (get_or table i no_entry ≡ entry) × (entry.code ≡ code)

less_other : (a b c : ℤ) → ltb_ℤ a b ≡ true → ltb_ℤ b c ≡ true → same_ℤ a c ≡ false
less_other a b c h k = ground (arith, h, k)

below_other :
    (a b c : ℤ) → same_ℤ b c ≡ false → ltb_ℤ b c ≡ false → ltb_ℤ b a ≡ true → same_ℤ a c ≡ false
below_other a b c h k l = ground (arith, h, k, l)

not_below : (a c : ℤ) → same_ℤ a c ≡ false → ltb_ℤ a c ≡ false → ltb_ℤ c a ≡ true
not_below a c h k = ground (arith, h, k)

-- An answer among later, or earlier, entries where the others have another code.
widen_above :
    (table : List CodeEntry) (code : ℤ) (low mid high : ℕ) (r : Option CodeEntry)
    → low ≤ mid
    → ((i : ℕ) → low ≤ i → i ≤ mid → same_ℤ (code_at table i) code ≡ false)
    → IsAnswer table code (mid + 1) high r
    → IsAnswer table code low high r
widen_above table code low mid high none le others h = λ i a b. elim (Bool-cases (ltb mid i)) [
  | inl e ↦ h i (ground (arith, e)) b
  | inr e ↦ others i a (ground (arith, e))
]
widen_above table code low mid high (some entry) le others (i, a, b, there, same) =
    (i, omega (arith, a, le), b, there, same)

widen_below :
    (table : List CodeEntry) (code : ℤ) (low mid high : ℕ) (r : Option CodeEntry)
    → mid < high
    → ((i : ℕ) → mid ≤ i → i < high → same_ℤ (code_at table i) code ≡ false)
    → IsAnswer table code low mid r
    → IsAnswer table code low high r
widen_below table code low mid high none lt others h = λ i a b. elim (Bool-cases (ltb i mid)) [
  | inl e ↦ h i a (ground (arith, e))
  | inr e ↦ others i (ground (arith, e)) b
]
widen_below table code low mid high (some entry) lt others (i, a, b, there, same) =
    (i, a, omega (arith, b, lt), there, same)

others_below :
    (table : List CodeEntry) (code : ℤ) (mid i : ℕ)
    → IsAscending table
    → mid < length table
    → same_ℤ (code_at table mid) code ≡ false
    → ltb_ℤ (code_at table mid) code ≡ true
    → i ≤ mid
    → same_ℤ (code_at table i) code ≡ false
others_below table code mid i asc inside other less le = elim (Bool-cases (i == mid)) [
  | inl e ↦ ap (λ (j : ℕ). same_ℤ (code_at table j) code) (ground (arith, e)) ∙ other
  | inr e ↦
      less_other (code_at table i) (code_at table mid) code
        (asc i mid (ground (arith, e, le)) inside) less
]

others_above :
    (table : List CodeEntry) (code : ℤ) (mid i : ℕ)
    → IsAscending table
    → i < length table
    → same_ℤ (code_at table mid) code ≡ false
    → ltb_ℤ (code_at table mid) code ≡ false
    → mid ≤ i
    → same_ℤ (code_at table i) code ≡ false
others_above table code mid i asc inside other more le = elim (Bool-cases (i == mid)) [
  | inl e ↦ ap (λ (j : ℕ). same_ℤ (code_at table j) code) (ground (arith, e)) ∙ other
  | inr e ↦
      below_other (code_at table i) (code_at table mid) code other more
        (asc mid i (ground (arith, e, le)) inside)
]

search_code-IsAnswer :
    (table : List CodeEntry) (code : ℤ) (n low high : ℕ)
    → IsAscending table
    → high ≤ length table
    → high < low + n
    → IsAnswer table code low high (search_code table code n low high)
unfolding search_code
search_code-IsAnswer table code zero low high h k l = λ i a b. absurd (omega (arith, a, b, l))
search_code-IsAnswer table code (suc n) low high h k l =
    let mid = middle low high in
    let entry = get_or table mid no_entry in
    elim (Bool-cases (ltb low high)) [
      | inr empty ↦ rw empty (λ i a b. absurd (ground (arith, empty, a, b)))
      | inl some_left ↦
          let inside : mid < high = ground (arith, some_left) in
          let after : low ≤ mid = omega arith in
          elim (Bool-cases (same_ℤ entry.code code)) [
            | inl same ↦
                rw (some_left, same)
                  (mid, after, inside, refl, eq_of_parts entry.code code (ground (arith, same)))
            | inr other ↦ elim (Bool-cases (ltb_ℤ entry.code code)) [
              | inl less ↦
                  rw (some_left, other, less)
                    (widen_above table code low mid high _ after
                      (λ i a b.
                        others_below table code mid i h (omega (arith, inside, k)) other less b)
                      (search_code-IsAnswer table code n (mid + 1) high h k
                        (omega (arith, l, after))))
              | inr more ↦
                  rw (some_left, other, more)
                    (widen_below table code low mid high _ inside
                      (λ i a b. others_above table code mid i h (omega (arith, b, k)) other more a)
                      (search_code-IsAnswer table code n low mid h (omega (arith, inside, k))
                        (omega (arith, l, inside))))
            ]
          ]
    ]

-- In a table whose codes ascend, find_code ends with the entry of a code where the table has one,
-- and with none only where no entry has the code.
pub find_code-IsAnswer :
    (table : List CodeEntry) (code : ℤ)
    → IsAscending table
    → IsAnswer table code 0 (length table) (find_code table code)
unfolding find_code
find_code-IsAnswer table code h =
    search_code-IsAnswer table code (suc (length table)) 0 (length table) h (omega arith)
      (omega arith)
