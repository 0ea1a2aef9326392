-- ===== src/Temporal/Format.antt =====
-- The formatters of temporal text in src/sqli_temporal.c. A character is its byte, and a writer is
-- the text that was written; the end mark of the text is a byte 0 behind it.
use libsqli.Prelude.{
  ℕ, zero, suc, ◌+◌, ◌-◌, ◌/◌, ◌%◌, Bool, true, false, ◌&&◌, ◌||◌, not, List, [], ◌∷◌, ◌++◌, Option,
  none, some, ltb, leb, ◌==◌, if◌then◌else◌, length, replicate,
}
use libsqli.Status.{Status, Result, done, fail, ◌>>=◌, ◌>>◌}
use libsqli.Date.{Date, date_validate}
use libsqli.Temporal.{
  Range, Fields, DatetimeParts, IntervalParts, no_fields, get_field, fraction_factor,
  validate_fields, datetime_fields, interval_fields, magnitude_of,
}
use libsqli.Temporal.Parse.{max_text, field_separator, least_width, field_count, date_range}

unfoldable pub write_character : ℕ → List ℕ → Result (List ℕ)
write_character ch w =
    if leb max_text (length w) then fail Status.limit_exceeded else done (w ++ (ch ∷ []))

-- The digits of a number, the last one first: 20 of them hold any uint64_t.
unfoldable pub reversed_digits : ℕ → ℕ → List ℕ
reversed_digits zero value = []
reversed_digits (suc n) value =
    let rest = reversed_digits n (value / 10) in
    (b'0' + value % 10) ∷ (if value / 10 == 0 then [] else rest)

abbrev pub reverse : List ℕ → List ℕ
reverse [] = []
reverse (c ∷ cs) = reverse cs ++ (c ∷ [])

abbrev pub digits_of : ℕ → ℕ → List ℕ
digits_of value width =
    let reversed = reversed_digits 20 value in
    replicate (width - length reversed) b'0' ++ reverse reversed

unfoldable pub write_number : ℕ → ℕ → List ℕ → Result (List ℕ)
write_number value width w =
    let count = length (reversed_digits 20 value) in
    if ltb (max_text - length w) (if ltb width count then count else width)
    then fail Status.limit_exceeded
    else done (w ++ digits_of value width)

abbrev pub complete_timestamp : Range → Bool
complete_timestamp r = r.first == 1 && leb 6 r.last

unfoldable pub field_value : Fields → ℕ → ℕ
field_value v f =
    if f == 7
    then v.nanosecond / fraction_factor v.range.fractional_digits
    else get_field f v.integral

-- One turn of the loop of format_fields.
unfoldable pub write_field : Fields → Bool → ℕ → List ℕ → Result (List ℕ)
write_field v interval f w =
    (if not (f == v.range.first) || f == 7
      then write_character (field_separator f (not interval && complete_timestamp v.range)) w
      else done w)
    >>= write_number (field_value v f) (least_width v.range interval f)

unfoldable pub write_fields : Fields → Bool → ℕ → ℕ → List ℕ → Result (List ℕ)
write_fields v interval zero f w = done w
write_fields v interval (suc n) f w =
    write_field v interval f w >>= write_fields v interval n (suc f)

unfoldable pub format_fields : Fields → Bool → Result (List ℕ)
format_fields v interval =
    (if v.negative then write_character b'-' [] else done [])
    >>= write_fields v interval (field_count v.range) v.range.first

-- What a formatter writes to its outputs: the mark of NULL, the bytes that are required, and what
-- it copies to the buffer.
pub record Formatted : Type 0 where
  pub is_null : Bool
  pub required : ℕ
  pub copied : List ℕ

-- The status, and the outputs where they are written.
abbrev pub Answer : Type 0
Answer = Status × Option Formatted

-- A buffer of `capacity` bytes, or none where only the number of bytes is asked for. The outputs
-- are written before the capacity is looked at.
unfoldable pub copy_text : Option ℕ → List ℕ → Answer
copy_text none text =
    (Status.ok, some (record { is_null = false; required = suc (length text); copied = [] }))
copy_text (some capacity) text =
    if ltb capacity (suc (length text))
    then (
      Status.buffer_too_small,
      some (record { is_null = false; required = suc (length text); copied = [] }),
    )
    else (
      Status.ok,
      some (record { is_null = false; required = suc (length text); copied = text ++ (0 ∷ []) }),
    )

-- The text of a value, or nothing for NULL.
unfoldable pub text_of : Fields → Bool → Bool → Result (Option (List ℕ))
text_of v interval iso = do
  validate_fields v interval
  if v.is_null
      then done none
      else if iso && not (complete_timestamp v.range)
      then fail Status.invalid_state
      else (format_fields v interval >>= λ text. done (some text))

unfoldable pub answer_text : Option ℕ → Result (Option (List ℕ)) → Answer
answer_text buffer (fail status) = (status, none)
answer_text buffer (done none) =
    (Status.ok, some (record { is_null = true; required = 0; copied = [] }))
answer_text buffer (done (some text)) = copy_text buffer text

unfoldable pub format_value : Fields → Bool → Bool → Option ℕ → Answer
format_value v interval iso buffer = answer_text buffer (text_of v interval iso)

unfoldable pub date_fields : Date → Fields
date_fields d = record {
  range = date_range;
  integral = record no_fields {
    year = if d.is_null then 0 else magnitude_of d.year;
    month = if d.is_null then 0 else d.month;
    day = if d.is_null then 0 else d.day;
  };
  nanosecond = 0;
  negative = false;
  is_null = d.is_null;
}

unfoldable pub date_format : Date → Option ℕ → Answer
date_format d buffer = elim (date_validate d) [
  | fail status ↦ (status, none)
  | done u ↦ format_value (date_fields d) false false buffer
]

unfoldable pub datetime_format : DatetimeParts → Option ℕ → Answer
datetime_format p buffer = format_value (datetime_fields p) false false buffer

unfoldable pub datetime_format_iso : DatetimeParts → Option ℕ → Answer
datetime_format_iso p buffer = format_value (datetime_fields p) false true buffer

unfoldable pub interval_format : IntervalParts → Option ℕ → Answer
interval_format p buffer = format_value (interval_fields p) true false buffer
