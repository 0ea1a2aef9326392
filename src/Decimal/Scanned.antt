-- ===== src/Decimal/Scanned.antt =====
-- What sqli_decimal_parse counts in a mantissa, and the size of the number there
-- (src/sqli_decimal.c).
use libsqli.Prelude.{
  ℕ, zero, suc, ◌+◌, ◌-◌, ◌*◌, ◌/◌, ◌≤◌, ◌<◌, ◌≡◌, refl, ap, ◌∙◌, Bool, true, false, ◌||◌, ◌&&◌,
  not, List, [], ◌∷◌, ◌==◌, if◌then◌else◌, inl, inr, arith, Bool-cases,
}
use libsqli.Prelude.Bytes.{All}
use libsqli.Status.{Status, done, fail}
use libsqli.Decimal.Values.{tail_of}
use libsqli.Decimal.Text.{Counts, no_counts, count_digit, ascii_digit, scan_mantissa}
use libsqli.Decimal.Mantissa.{IsMark, mark_digit, shift_up, shift_up-zero}
use libsqli.Decimal.Spelling.{count, mantissa_value, significant_of, significant_of-le}

-- Digits, and at most one point.
abbrev pub is_mantissa : Bool → List ℕ → Bool
is_mantissa point [] = true
is_mantissa point (c ∷ cs) =
    let behind = is_mantissa true cs in
    let rest = is_mantissa point cs in
    if c == b'.' && not point then behind else ascii_digit c && rest

abbrev pub counts_after : Counts → List ℕ → Counts
counts_after n [] = n
counts_after n (c ∷ cs) =
    let at_point = counts_after (record n { point = true }) cs in
    let at_digit = counts_after (count_digit n c) cs in
    if c == b'.' && not n.point then at_point else at_digit

both_true : (b c : Bool) → (b && c) ≡ true → (b ≡ true) × (c ≡ true)
both_true true c h = (refl, h)
both_true false c h = cc

pub scan_mantissa_lem :
    (n : Counts) (cs : List ℕ)
    → scan_mantissa n cs
      ≡ (if is_mantissa n.point cs then done (counts_after n cs) else fail Status.invalid_argument)
unfolding scan_mantissa
scan_mantissa_lem n [] = refl
scan_mantissa_lem n (c ∷ cs) = elim (Bool-cases (c == b'.' && not n.point)) [
  | inl e ↦ rw e (scan_mantissa_lem (record n { point = true }) cs)
  | inr e ↦ elim (Bool-cases (ascii_digit c)) [
    | inl d ↦ rw (e, d) (scan_mantissa_lem (count_digit n c) cs)
    | inr d ↦ rw (e, d) refl
  ]
]

pub is_mantissa-All : (point : Bool) (cs : List ℕ) → is_mantissa point cs ≡ true → All IsMark cs
is_mantissa-All point [] h = tt
is_mantissa-All point (c ∷ cs) h = elim (Bool-cases (c == b'.' && not point)) [
  | inl e ↦ (ground (arith, e), is_mantissa-All true cs (rw e at h))
  | inr e ↦
      let (digit, rest) = both_true (ascii_digit c) (is_mantissa point cs) (rw e at h) in
      (ground (arith, digit), is_mantissa-All point cs rest)
]

-- The digits behind the point.
abbrev pub fraction_of : Bool → List ℕ → ℕ
fraction_of point [] = 0
fraction_of point (c ∷ cs) =
    let behind = fraction_of true cs in
    let rest = fraction_of point cs in
    if c == b'.' then behind else if point then suc rest else rest

-- What is counted of a mantissa behind `n`.
abbrev IsCounted : Counts → List ℕ → Counts → Type 0
IsCounted n cs r =
    (r.digits ≡ n.digits + count cs)
    × (r.fractional ≡ n.fractional + fraction_of n.point cs)
    × (r.significant ≡ (if n.significant == 0 then significant_of cs else n.significant + count cs))

count_fraction :
    (point : Bool) (n k : ℕ) → (if point then suc n else n) + k ≡ n + (if point then suc k else k)
count_fraction true n k = omega arith
count_fraction false n k = refl

count_significant :
    (n : ℕ) (is_zero : Bool) (k m : ℕ)
    → (if (if not is_zero || not (n == 0) then suc n else n) == 0
        then k
        else (if not is_zero || not (n == 0) then suc n else n) + m)
      ≡ (if n == 0 then (if is_zero then k else suc m) else n + suc m)
count_significant n true k m = ground arith
count_significant n false k m = ground arith

counts_after-IsCounted :
    (n : Counts) (cs : List ℕ) → is_mantissa n.point cs ≡ true → IsCounted n cs (counts_after n cs)
counts_after-IsCounted n [] h = (omega arith, omega arith, ground arith)
counts_after-IsCounted n (c ∷ cs) h = elim (Bool-cases (c == b'.' && not n.point)) [
  | inl e ↦
      let (a, b, d) = counts_after-IsCounted (record n { point = true }) cs (rw e at h) in
      let point : (c == b'.') ≡ true = ground (arith, e) in rw (e, point) (a, b, d)
  | inr e ↦
      let (digit, rest) = both_true (ascii_digit c) (is_mantissa n.point cs) (rw e at h) in
      let other : (c == b'.') ≡ false = ground (arith, digit) in
      let (a, b, d) = counts_after-IsCounted (count_digit n c) cs rest in
      rw (e, other)
        (
          omega (arith, a),
          b ∙ count_fraction n.point n.fractional (fraction_of n.point cs),
          d ∙ count_significant n.significant (c == b'0') (significant_of cs) (count cs),
        )
]

-- The counts of a mantissa, when it is read from its first character on.
pub no_counts-IsCounted :
    (cs : List ℕ)
    → is_mantissa false cs ≡ true
    → ((counts_after no_counts cs).digits ≡ count cs)
      × ((counts_after no_counts cs).fractional ≡ fraction_of false cs)
      × ((counts_after no_counts cs).significant ≡ significant_of cs)
no_counts-IsCounted cs h =
    let (a, b, c) = counts_after-IsCounted no_counts cs h in (omega (arith, a), omega (arith, b), c)

digit_below : (d k : ℕ) → d ≤ 9 → shift_up d k ≤ 9 * shift_up 1 k
digit_below d zero h = omega (arith, h)
digit_below d (suc k) h = omega (arith, digit_below d k h)

power_grows : (a b : ℕ) → a ≤ b → shift_up 1 a ≤ shift_up 1 b
power_grows zero zero h = omega arith
power_grows zero (suc b) h = omega (arith, power_grows zero b (omega arith))
power_grows (suc a) zero h = absurd (omega (arith, h))
power_grows (suc a) (suc b) h = omega (arith, power_grows a b (omega (arith, h)))

-- A mantissa is below the power of ten of its digits behind the zeros in front.
pub mantissa_value-below :
    (cs : List ℕ) → All IsMark cs → mantissa_value cs < shift_up 1 (significant_of cs)
mantissa_value-below [] h = omega arith
mantissa_value-below (c ∷ cs) (h, hs) =
    let ih = mantissa_value-below cs hs in
    elim (Bool-cases (c == b'.')) [
      | inl e ↦ rw e ih
      | inr e ↦ elim (Bool-cases (c == b'0')) [
        | inl z ↦
            let none : c - b'0' ≡ 0 = ground (arith, z) in
            let nothing = ap (λ (d : ℕ). shift_up d (count cs)) none in
            rw (e, z) (omega (arith, ih, nothing, shift_up-zero (count cs)))
        | inr z ↦
            let grows = power_grows (significant_of cs) (count cs) (significant_of-le cs) in
            let digit = digit_below (c - b'0') (count cs) (mark_digit c h e) in
            rw (e, z) (omega (arith, ih, grows, digit))
      ]
    ]

-- A number below 10 ^ k has no digits from place `k` on.
pub tail_of-below : (v k : ℕ) → v < shift_up 1 k → tail_of v k ≡ 0
tail_of-below v zero h = omega (arith, h)
tail_of-below v (suc k) h = tail_of-below (v / 10) k (omega (arith, h))
