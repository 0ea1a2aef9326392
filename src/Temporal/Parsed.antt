-- ===== src/Temporal/Parsed.antt =====
-- What the parsers of src/sqli_temporal.c accept can be stored.
use libsqli.Prelude.{
  ℕ, zero, suc, ◌%◌, ◌^◌, ◌≡◌, refl, sym, ap, ◌∙◌, Bool, true, false, ◌&&◌, not, List, ltb, ◌==◌,
  if◌then◌else◌, length, arith,
}
use mathlib.Core.Path.{subst}
use libsqli.Status.Chains.{>>-done, >>=-done}
use libsqli.Status.{Status, Result, done, fail, ◌>>=◌, ◌>>◌, reject_if}
use libsqli.Temporal.{
  Range, Fields, DatetimeParts, get_field, maximum, validate_range, validate_fields,
  datetime_fields, datetime_set_parts, is_negative, null_datetime,
}
use libsqli.Temporal.Parse.{
  max_text, take_field, end_field, read_mark, read_value, read_field_of, read_field, read_fields,
  end_fields, is_empty, parse_fields, blank_fields, field_count, read_sign, datetime_parts,
  datetime_parse, skip_zero, read_number, least_width, greatest_width,
}
use libsqli.Temporal.Valid.{IsValid, validate_fields-IsValid}
use libsqli.Temporal.Datetimes.{datetime-bounds, datetime-small}

-- The range, the sign and the mark of NULL are kept.
abbrev IsFrame : Fields → Fields → Type 0
IsFrame v w = (w.range ≡ v.range) × (w.negative ≡ v.negative) × (w.is_null ≡ v.is_null)

IsFrame-cases :
    (a b : Bool) (s : Status) (x y v w : Fields)
    → IsFrame v x
    → IsFrame v y
    → (if a then if b then fail s else done x else done y) ≡ done w
    → IsFrame v w
IsFrame-cases true true s x y v w h k e = cc
IsFrame-cases true false s x y v w h k e = let same : x ≡ w = cc in subst (IsFrame v) same h
IsFrame-cases false b s x y v w h k e = let same : y ≡ w = cc in subst (IsFrame v) same k

IsFrame-take_field : (f n : ℕ) (v w : Fields) → take_field f n v ≡ done w → IsFrame v w
unfolding take_field
IsFrame-take_field f n v w h =
    IsFrame-cases (f == 7) _ _ _ _ v w (refl, refl, refl) (refl, refl, refl) h

read_field-IsFrame :
    (f : ℕ) (interval : Bool) (v w : Fields) (text rest : List ℕ)
    → read_field f interval v text ≡ done (w, rest)
    → IsFrame v w
unfolding read_field read_field_of read_value
read_field-IsFrame f interval v w text rest h =
    let marked = read_mark v.range f interval (skip_zero (f == 7 && f == v.range.first) text) in
    let (t, _, valued) = >>=-done marked (read_value v.range f interval v) (w, rest) h in
    let number =
      read_number (least_width v.range interval f) (greatest_width v.range interval f) t in
    let (n, _, taken) = >>=-done number (end_field f v) (w, rest) valued in
    let (w', took, same) = >>=-done (take_field f n.0 v) (λ x. done (x, n.1)) (w, rest) taken in
    IsFrame-take_field f n.0 v w (took ∙ cc)

read_fields-IsFrame :
    (n f : ℕ) (interval : Bool) (v w : Fields) (text rest : List ℕ)
    → read_fields n f interval v text ≡ done (w, rest)
    → IsFrame v w
unfolding read_fields
read_fields-IsFrame zero f interval v w text rest h =
    let same : v ≡ w = cc in subst (IsFrame v) same (refl, refl, refl)
read_fields-IsFrame (suc n) f interval v w text rest h =
    let ((w', t), one, more) = >>=-done (read_field f interval v text) _ (w, rest) h in
    let (a, b, c) = read_field-IsFrame f interval v w' text t one in
    let (a', b', c') = read_fields-IsFrame n (suc f) interval w' w t rest more in
    (a' ∙ a, b' ∙ b, c' ∙ c)

not_failed :
    (b : Bool) (s : Status) (m : Result Fields) (w : Fields)
    → (if b then fail s else m) ≡ done w
    → (b ≡ false) × (m ≡ done w)
not_failed true s m w h = cc
not_failed false s m w h = (refl, h)

accepted_range :
    (m : Result (Unit {0})) (x : Result Fields) (w : Fields)
    → elim m [ fail status ↦ fail Status.invalid_argument | done u ↦ x ] ≡ done w
    → x ≡ done w
accepted_range (done tt) x w h = h
accepted_range (fail s) x w h = cc

end_fields_done :
    (interval : Bool) (r : Fields × List ℕ) (w : Fields)
    → end_fields interval r ≡ done w
    → (validate_fields w interval ≡ done tt) × (r.0 ≡ w)
unfolding end_fields
end_fields_done interval (v, rest) w h =
    let (_, ended) =
      not_failed (not (is_empty rest)) Status.invalid_argument
        (validate_fields v interval >> done v) w h in
    let (valid, same) = >>-done (validate_fields v interval) (done v) w ended in
    let e : v ≡ w = cc in (subst (λ (x : Fields). validate_fields x interval ≡ done tt) e valid, e)

-- What parse_fields gives has passed the checks, for the range that it was given.
pub parse_fields_lem :
    (v w : Fields) (text : List ℕ) (interval : Bool)
    → parse_fields v text interval ≡ done w
    → (validate_fields w interval ≡ done tt)
      × (w.range ≡ v.range)
      × (interval ≡ false → w.negative ≡ v.negative)
      × (w.is_null ≡ v.is_null)
unfolding parse_fields
parse_fields_lem v w text interval h =
    let text_end = read_sign interval text in
    let signed : Fields = record v { negative = if interval then text_end.0 else v.negative } in
    let read = read_fields (field_count v.range) v.range.first interval signed text_end.1 in
    let body = accepted_range (validate_range v.range interval false) _ w h in
    let (_, more) = not_failed (is_empty text) Status.invalid_argument _ w body in
    let (_, last) =
      not_failed (ltb max_text (length text)) Status.limit_exceeded (read >>= end_fields interval) w
        more in
    let ((x, rest), reading, ended) = >>=-done read (end_fields interval) w last in
    let (a, b, c) =
      read_fields-IsFrame (field_count v.range) v.range.first interval signed x text_end.1 rest
        reading in
    let (valid, same) = end_fields_done interval (x, rest) w ended in
    (
      valid,
      ap (λ (y : Fields). y.range) (sym same) ∙ a,
      (λ e. ap (λ (y : Fields). y.negative) (sym same) ∙ b ∙ rw e refl),
      ap (λ (y : Fields). y.is_null) (sym same) ∙ c,
    )

fields-datetime_parts :
    (w : Fields) → IsValid w false → w.negative ≡ false → datetime_fields (datetime_parts w) ≡ w
unfolding datetime_parts datetime_fields get_field maximum
fields-datetime_parts w h sign =
    let a : w.integral.year % 2 ^ 32 ≡ w.integral.year = omega (arith, datetime-small w 1 h) in
    let b : w.integral.month % 2 ^ 8 ≡ w.integral.month =
      omega (arith, datetime-bounds w 2 h (omega arith) (omega arith)) in
    let c : w.integral.day % 2 ^ 8 ≡ w.integral.day =
      omega (arith, datetime-bounds w 3 h (omega arith) (omega arith)) in
    let d : w.integral.hour % 2 ^ 8 ≡ w.integral.hour =
      omega (arith, datetime-bounds w 4 h (omega arith) (omega arith)) in
    let e : w.integral.minute % 2 ^ 8 ≡ w.integral.minute =
      omega (arith, datetime-bounds w 5 h (omega arith) (omega arith)) in
    let f : w.integral.second % 2 ^ 8 ≡ w.integral.second =
      omega (arith, datetime-bounds w 6 h (omega arith) (omega arith)) in
    λ i. record w {
      integral = record {
        year = a i;
        month = b i;
        day = c i;
        hour = d i;
        minute = e i;
        second = f i;
      };
      negative = sym sign i;
    }

unsigned_null :
    (b : Bool) (k : Result DatetimeParts)
    → (reject_if (not b && false) Status.out_of_range >> k) ≡ k
unsigned_null true k = refl
unsigned_null false k = refl

datetime_set_parts-same :
    (q : DatetimeParts)
    → q.is_null ≡ false
    → is_negative q.year ≡ false
    → validate_fields (datetime_fields q) false ≡ done tt
    → datetime_set_parts q ≡ done q
unfolding datetime_set_parts
datetime_set_parts-same q present sign h =
    ap
      (λ (b : Bool).
        reject_if (not q.is_null && b) Status.out_of_range
        >> (validate_fields (datetime_fields q) false
            >> done (if q.is_null then null_datetime q.range else q)))
      sign
    ∙ unsigned_null q.is_null _
    ∙ ap (λ (m : Result (Unit {0})). m >> done (if q.is_null then null_datetime q.range else q)) h
    ∙ ap (λ (b : Bool). done (if b then null_datetime q.range else q)) present

parsed_parts :
    (w : Fields)
    → validate_fields w false ≡ done tt
    → w.negative ≡ false
    → w.is_null ≡ false
    → datetime_set_parts (datetime_parts w) ≡ done (datetime_parts w)
unfolding datetime_set_parts datetime_parts
parsed_parts w h sign present = datetime_set_parts-same (datetime_parts w) present refl (
    ap (λ (x : Fields). validate_fields x false)
      (fields-datetime_parts w (validate_fields-IsValid w false present h) sign)
    ∙ h)

-- What sqli_datetime_parse takes from a text has the range that was asked for, is not NULL, and is
-- a value that sqli_datetime_set_parts accepts and stores as it is: the low bits that the casts of
-- datetime_parts keep are the whole fields.
pub datetime_parse-stored :
    (r : Range) (text : List ℕ) (p : DatetimeParts)
    → datetime_parse r text false ≡ done p
    → (datetime_set_parts p ≡ done p) × (p.range ≡ r) × (p.is_null ≡ false)
unfolding datetime_parse datetime_parts
datetime_parse-stored r text p h =
    let (_, parsed) =
      >>-done (validate_range r false false)
        (parse_fields (blank_fields r) text false >>= λ v. done (datetime_parts v)) p h in
    let (w, parsing, taken) =
      >>=-done (parse_fields (blank_fields r) text false) (λ v. done (datetime_parts v)) p parsed in
    let (valid, range, sign, present) = parse_fields_lem (blank_fields r) w text false parsing in
    let same : datetime_parts w ≡ p = cc in
    subst
      (λ (q : DatetimeParts). (datetime_set_parts q ≡ done q) × (q.range ≡ r) × (q.is_null ≡ false))
      same (parsed_parts w valid (sign refl) present, range, present)
