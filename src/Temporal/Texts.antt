-- ===== src/Temporal/Texts.antt =====
-- The text that a formatter of src/sqli_temporal.c gives to its caller.
use libsqli.Prelude.{
  ℕ, suc, ◌<◌, ◌≡◌, refl, ◌∙◌, Bool, true, false, ◌&&◌, not, List, [], ◌∷◌, ◌++◌, Option, none,
  some, ltb, length, arith,
}
use libsqli.Status.{Status, done}
use libsqli.Temporal.{Fields, validate_fields}
use libsqli.Temporal.Format.{
  Answer, complete_timestamp, copy_text, text_of, answer_text, format_value,
}
use libsqli.Temporal.Valid.{validate_fields-IsValid}
use libsqli.Temporal.Written.{IsU64}
use libsqli.Temporal.Length.{value_text, format_fields-text}

whole_text : (iso c : Bool) → (iso ≡ true → c ≡ true) → (iso && not c) ≡ false
whole_text false c h = refl
whole_text true c h = rw (h refl) refl

pub format_value-text :
    (v : Fields) (interval iso : Bool) (buffer : Option ℕ)
    → v.is_null ≡ false
    → validate_fields v interval ≡ done tt
    → (iso ≡ true → complete_timestamp v.range ≡ true)
    → IsU64 v.integral
    → format_value v interval iso buffer ≡ copy_text buffer (value_text v interval)
unfolding format_value text_of answer_text
format_value-text v interval iso buffer present h complete u =
    let valid = validate_fields-IsValid v interval present h in
    let whole : (iso && not (complete_timestamp v.range)) ≡ false =
      whole_text iso (complete_timestamp v.range) complete in
    simp (h, present, whole, format_fields-text v interval valid u) refl

-- A buffer that is large enough takes the text and its end mark, and no buffer asks for their size.
abbrev pub IsWritten : (Option ℕ → Answer) → List ℕ → Type 0
IsWritten format text =
    (format none
      ≡ (Status.ok, some (record { is_null = false; required = suc (length text); copied = [] })))
    × ((capacity : ℕ)
        → length text < capacity
        → format (some capacity) ≡ (
          Status.ok,
          some
              (record { is_null = false; required = suc (length text); copied = text ++ (0 ∷ []) }),
        ))

pub copy_text-IsWritten :
    (format : Option ℕ → Answer) (text : List ℕ)
    → ((buffer : Option ℕ) → format buffer ≡ copy_text buffer text)
    → IsWritten format text
unfolding copy_text
copy_text-IsWritten format text e = (
  e none,
  λ capacity h.
      let fits : ltb capacity (suc (length text)) ≡ false = ground (arith, h) in
      e (some capacity) ∙ rw fits refl,
)
