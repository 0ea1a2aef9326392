-- ===== src/Temporal/Written.antt =====
-- What format_fields writes (src/sqli_temporal.c), as one text, and how long it is.
use libsqli.Prelude.{
  ℕ, zero, suc, ◌+◌, ◌-◌, ◌/◌, ◌≤◌, ◌<◌, ◌≡◌, refl, sym, ap, ◌∙◌, Bool, true, false, ◌&&◌, ◌||◌,
  not, List, [], ◌∷◌, ◌++◌, ltb, leb, ◌==◌, ==_iff, if◌then◌else◌, length, length-append, ◌⊎◌, inl,
  inr, arith, Bool-cases,
}
use mathlib.Core.Path.{subst}
use mathlib.Core.List.{append_assoc, append-nil}
use libsqli.Status.{done}
use libsqli.Temporal.{Range, Integral, Fields, get_field, fraction_factor, check_fraction, maximum}
use libsqli.Temporal.Parse.{max_text, max_u64, field_separator, least_width, greatest_width}
use libsqli.Temporal.Format.{
  reversed_digits, digits_of, write_character, write_number, complete_timestamp, field_value,
  write_field, write_fields,
}
use libsqli.Temporal.Digits.{power10, length-reversed_digits, length-digits_of}
use libsqli.Temporal.Valid.{IsValid, checked-bounds}

-- The separator in front of a field.
abbrev pub separator : Fields → Bool → ℕ → ℕ
separator v interval f = field_separator f (not interval && complete_timestamp v.range)

abbrev pub separated : Fields → ℕ → Bool
separated v f = not (f == v.range.first) || f == 7

abbrev pub mark_text : Fields → Bool → ℕ → List ℕ
mark_text v interval f = if separated v f then separator v interval f ∷ [] else []

abbrev pub number_text : Fields → Bool → ℕ → List ℕ
number_text v interval f = digits_of (field_value v f) (least_width v.range interval f)

unfoldable pub field_text : Fields → Bool → ℕ → List ℕ
field_text v interval f = mark_text v interval f ++ number_text v interval f

unfoldable pub fields_text : Fields → Bool → ℕ → ℕ → List ℕ
fields_text v interval zero f = []
fields_text v interval (suc n) f = field_text v interval f ++ fields_text v interval n (suc f)

-- The fraction in units of its last digit.
pub fraction_below :
    (d ns : ℕ)
    → d ≤ 9
    → ns < 1_000_000_000
    → (ns / fraction_factor d < power10 d) × (ns / fraction_factor d < 1_000_000_000)
unfolding fraction_factor
fraction_below zero ns h k = (omega (arith, k), omega (arith, k))
fraction_below (suc zero) ns h k = (omega (arith, k), omega (arith, k))
fraction_below (suc (suc zero)) ns h k = (omega (arith, k), omega (arith, k))
fraction_below (suc (suc (suc zero))) ns h k = (omega (arith, k), omega (arith, k))
fraction_below (suc (suc (suc (suc zero)))) ns h k = (omega (arith, k), omega (arith, k))
fraction_below (suc (suc (suc (suc (suc zero))))) ns h k = (omega (arith, k), omega (arith, k))
fraction_below (suc (suc (suc (suc (suc (suc zero)))))) ns h k =
    (omega (arith, k), omega (arith, k))
fraction_below (suc (suc (suc (suc (suc (suc (suc zero))))))) ns h k =
    (omega (arith, k), omega (arith, k))
fraction_below (suc (suc (suc (suc (suc (suc (suc (suc zero)))))))) ns h k =
    (omega (arith, k), omega (arith, k))
fraction_below (suc (suc (suc (suc (suc (suc (suc (suc (suc zero))))))))) ns h k =
    (omega (arith, k), omega (arith, k))
fraction_below (suc (suc (suc (suc (suc (suc (suc (suc (suc (suc d)))))))))) ns h k =
    absurd (omega arith)

check_fraction_below :
    (r : Range) (ns : ℕ) → r.last ≡ 7 → check_fraction r ns ≡ done tt → ns < 1_000_000_000
unfolding check_fraction
check_fraction_below r ns e h = ground (arith, e, h)

-- Every integral field is a uint64_t.
abbrev pub IsU64 : Integral → Type 0
IsU64 v = (f : ℕ) → get_field f v ≤ max_u64

-- A number below 10 ^ d fits in the widths from d on.
length_fits :
    (value width greatest d : ℕ)
    → 1 ≤ d
    → value < power10 d
    → d ≤ greatest
    → width ≤ greatest
    → length (digits_of value width) ≤ greatest
length_fits value width greatest zero one h a b = absurd (omega (arith, one))
length_fits value width greatest (suc k) one h a b =
    ground (arith, length-digits_of value width, length-reversed_digits 20 k value h)

-- The number of a field is a uint64_t, of as many digits as the reader takes.
abbrev pub IsFitting : Fields → Bool → ℕ → Type 0
IsFitting v interval f =
    (field_value v f ≤ max_u64)
    × (length (number_text v interval f) ≤ greatest_width v.range interval f)

fraction-IsFitting :
    (v : Fields) (interval : Bool) → IsValid v interval → v.range.last ≡ 7 → IsFitting v interval 7
unfolding field_value least_width greatest_width
fraction-IsFitting v interval h e =
    let d = v.range.fractional_digits in
    let (low, high) = h.in_range.digits e in
    let (below, small) =
      fraction_below d v.nanosecond high (check_fraction_below v.range v.nanosecond e h.fraction) in
    (
      omega (arith, small),
      length_fits (v.nanosecond / fraction_factor d) d d d low below (omega arith) (omega arith),
    )

leading-IsFitting :
    (v : Fields) (f : ℕ) → f ≤ 6 → f ≡ v.range.first → IsU64 v.integral → IsFitting v true f
unfolding field_value least_width greatest_width
leading-IsFitting v f h e u =
    let lower : (f == 7) ≡ false = ground (arith, h) in
    let first : (f == v.range.first) ≡ true = ground (arith, e) in
    let n = get_field f v.integral in
    simp (lower, first)
      (u f, length_fits n 1 20 20 (omega arith) (omega (arith, u f)) (omega arith) (omega arith))

small :
    (interval : Bool) (f first n : ℕ)
    → 1 ≤ first
    → first ≤ f
    → (interval && f == first) ≡ false
    → (f == 1 && not interval) ≡ false
    → n ≤ maximum interval f
    → n < 100
unfolding maximum
small true f first n one a later other b = ground (arith, one, a, later, b)
small false f first n one a later other b = ground (arith, other, b)

bounded-IsFitting :
    (v : Fields) (interval : Bool) (f : ℕ)
    → f ≤ 6
    → 1 ≤ v.range.first
    → v.range.first ≤ f
    → get_field f v.integral ≤ maximum interval f
    → IsFitting v interval f
unfolding field_value least_width greatest_width maximum
bounded-IsFitting v interval f h one a b =
    let lower : (f == 7) ≡ false = ground (arith, h) in
    let n = get_field f v.integral in
    elim (Bool-cases (interval && f == v.range.first)) [
      | inl first ↦
          simp (lower, first)
            (
              ground (arith, b),
              length_fits n 1 20 4 (omega arith) (ground (arith, b)) (omega arith) (omega arith),
            )
      | inr later ↦ elim (Bool-cases (f == 1 && not interval)) [
        | inl year ↦
            simp (lower, later, year)
              (
                ground (arith, b),
                length_fits n 4 4 4 (omega arith) (ground (arith, b)) (omega arith) (omega arith),
              )
        | inr other ↦
            simp (lower, later, other)
              (
                ground (arith, b),
                length_fits n 2 2 2 (omega arith)
                    (small interval f v.range.first (get_field f v.integral) one a later other b)
                    (omega arith) (omega arith),
              )
      ]
    ]

pub field-IsFitting :
    (v : Fields) (interval : Bool) (f : ℕ)
    → IsValid v interval
    → IsU64 v.integral
    → v.range.first ≤ f
    → f ≤ v.range.last
    → IsFitting v interval f
field-IsFitting v interval f h u a b = elim (Bool-cases (f == 7)) [
  | inl e ↦
      let seven = (==_iff f 7).0 e in
      subst (IsFitting v interval) (sym seven)
        (fraction-IsFitting v interval h (omega (arith, h.in_range.ends, b, seven)))
  | inr e ↦
      let low : f ≤ 6 = ground (arith, e, h.in_range.ends, b) in
      elim (checked-bounds v interval f h (omega (arith, h.in_range.begins, a)) low a b) [
        | inl (is_interval, first) ↦ rw is_interval (leading-IsFitting v f low first u)
        | inr bounded ↦ bounded-IsFitting v interval f low h.in_range.begins a bounded
      ]
]

length-mark_text :
    (v : Fields) (interval : Bool) (f : ℕ)
    → length (mark_text v interval f) ≡ (if not (f == v.range.first) || f == 7 then 1 else 0)
length-mark_text v interval f = elim (Bool-cases (separated v f)) [
  | inl e ↦ rw e refl
  | inr e ↦ rw e refl
]

width_cases :
    (f first last digits mark number total : ℕ) (interval : Bool)
    → 1 ≤ first
    → last ≤ 7
    → first ≤ f
    → f ≤ last
    → (last ≡ 7 → digits ≤ 9)
    → mark ≡ (if not (f == first) || f == 7 then 1 else 0)
    → number ≤ (
        if f == 7
        then digits
        else if interval && f == first
        then 20
        else if f == 1 && not interval
        then 4
        else 2)
    → total ≡ mark + number
    → ((f ≡ first) × (f ≤ 6) × (total ≤ 20)) ⊎ ((f ≡ 7) × (total ≤ 10)) ⊎ ((f ≤ 6) × (total ≤ 3))
width_cases f first last digits mark number total interval a b c d e g h k =
    elim (Bool-cases (f == 7)) [
      | inl seven ↦
          let is_seven = (==_iff f 7).0 seven in
          let few = e (omega (arith, is_seven, b, d)) in
          inr (inl (is_seven, ground (arith, seven, few, g, h, k)))
      | inr lower ↦ elim (Bool-cases (f == first)) [
        | inl lead ↦ inl (
          (==_iff f first).0 lead,
          ground (arith, lower, b, d),
          ground (arith, lower, lead, g, h, k),
        )
        | inr later ↦
            inr (inr (ground (arith, lower, b, d), ground (arith, lower, later, a, c, g, h, k)))
      ]
    ]

-- How many characters a field adds: a separator and two digits, or as many as a fraction or the
-- leading field of an interval has.
pub field_width :
    (v : Fields) (interval : Bool) (f : ℕ)
    → IsValid v interval
    → IsU64 v.integral
    → v.range.first ≤ f
    → f ≤ v.range.last
    → ((f ≡ v.range.first) × (f ≤ 6) × (length (field_text v interval f) ≤ 20))
      ⊎ ((f ≡ 7) × (length (field_text v interval f) ≤ 10))
      ⊎ ((f ≤ 6) × (length (field_text v interval f) ≤ 3))
unfolding field_text greatest_width
field_width v interval f h u a b =
    let (_, fits) = field-IsFitting v interval f h u a b in
    let size = length-append (mark_text v interval f) (number_text v interval f) in
    width_cases f v.range.first v.range.last v.range.fractional_digits
      (length (mark_text v interval f)) (length (number_text v interval f)) _ interval
      h.in_range.begins h.in_range.ends a b (λ e. (h.in_range.digits e).1)
      (length-mark_text v interval f) fits size

write_number_fits :
    (value width : ℕ) (w : List ℕ)
    → length w + length (digits_of value width) ≤ max_text
    → write_number value width w ≡ done (w ++ digits_of value width)
unfolding write_number
write_number_fits value width w h =
    let fits : ltb (max_text - length w) (
          if ltb width (length (reversed_digits 20 value))
          then length (reversed_digits 20 value)
          else width)
        ≡ false =
      ground (arith, h, length-digits_of value width) in
    rw fits refl

marked_size :
    (v : Fields) (interval : Bool) (f : ℕ) (w : List ℕ)
    → separated v f ≡ true
    → length w + length (field_text v interval f) ≤ max_text
    → length w + suc (length (number_text v interval f)) ≤ max_text
unfolding field_text
marked_size v interval f w e h =
    let size = length-append (mark_text v interval f) (number_text v interval f) in
    let one : length (mark_text v interval f) ≡ 1 = length-mark_text v interval f ∙ rw e refl in
    omega (arith, h, size, one)

marked_room :
    (v : Fields) (interval : Bool) (f : ℕ) (w : List ℕ)
    → separated v f ≡ true
    → length w + length (field_text v interval f) ≤ max_text
    → leb max_text (length w) ≡ false
marked_room v interval f w e h = ground (arith, marked_size v interval f w e h)

marked_fits :
    (v : Fields) (interval : Bool) (f : ℕ) (w : List ℕ)
    → separated v f ≡ true
    → length w + length (field_text v interval f) ≤ max_text
    → length (w ++ (separator v interval f ∷ [])) + length (number_text v interval f) ≤ max_text
marked_fits v interval f w e h =
    omega (arith, marked_size v interval f w e h, length-append w (separator v interval f ∷ []))

plain_fits :
    (v : Fields) (interval : Bool) (f : ℕ) (w : List ℕ)
    → separated v f ≡ false
    → length w + length (field_text v interval f) ≤ max_text
    → length w + length (number_text v interval f) ≤ max_text
unfolding field_text
plain_fits v interval f w e h =
    let size = length-append (mark_text v interval f) (number_text v interval f) in
    omega (arith, h, size)

write_field_fits :
    (v : Fields) (interval : Bool) (f : ℕ) (w : List ℕ)
    → length w + length (field_text v interval f) ≤ max_text
    → write_field v interval f w ≡ done (w ++ field_text v interval f)
unfolding write_field write_character field_text
write_field_fits v interval f w h = elim (Bool-cases (separated v f)) [
  | inl e ↦
      let room : leb max_text (length w) ≡ false = marked_room v interval f w e h in
      let size = length-append w (separator v interval f ∷ []) in
      rw e (
        rw room (
          write_number_fits (field_value v f) (least_width v.range interval f)
            (w ++ (separator v interval f ∷ [])) (marked_fits v interval f w e h)
          ∙ ap (λ (t : List ℕ). done t) (append_assoc w _ _)))
  | inr e ↦ rw e (
      write_number_fits (field_value v f) (least_width v.range interval f) w
        (plain_fits v interval f w e h))
]

-- Where the text fits, the loop writes all of it.
pub write_fields_fits :
    (v : Fields) (interval : Bool) (n f : ℕ) (w : List ℕ)
    → length w + length (fields_text v interval n f) ≤ max_text
    → write_fields v interval n f w ≡ done (w ++ fields_text v interval n f)
unfolding write_fields fields_text
write_fields_fits v interval zero f w h = rw (append-nil w) refl
write_fields_fits v interval (suc n) f w h =
    let ft = field_text v interval f in
    let rest = fields_text v interval n (suc f) in
    let size = length-append ft rest in
    let size' = length-append w ft in
    rw (write_field_fits v interval f w (omega (arith, h, size))) (
      write_fields_fits v interval n (suc f) (w ++ ft) (omega (arith, h, size, size'))
      ∙ ap (λ (t : List ℕ). done t) (append_assoc w ft rest))
