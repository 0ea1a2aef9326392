-- ===== src/Temporal/Intervals.antt =====
-- sqli_interval_t and its text (src/sqli_temporal.c).
use libsqli.Prelude.{ℕ, ◌≡◌, refl, sym, ap, ◌∙◌, Bool, true, false, List, if◌then◌else◌}
use mathlib.Core.Path.{subst}
use libsqli.Status.Chains.{>>-done}
use libsqli.Status.{Result, done, ◌>>=◌, ◌>>◌}
use libsqli.Temporal.{
  Fields, IntervalParts, validate_range, validate_fields, interval_fields, interval_set_parts,
  is_zero_interval, unsign, null_interval,
}
use libsqli.Temporal.Parse.{parse_fields, blank_fields, interval_parts, interval_parse}
use libsqli.Temporal.Format.{interval_format}
use libsqli.Temporal.Written.{IsU64}
use libsqli.Temporal.Length.{value_text}
use libsqli.Temporal.RoundTrip.{parse_fields-value_text}
use libsqli.Temporal.Texts.{IsWritten, format_value-text, copy_text-IsWritten}

unless_null_unsign :
    (z b : Bool) (null parts p : IntervalParts)
    → null.is_null ≡ true
    → done (unsign z (if b then null else parts)) ≡ done p
    → p.is_null ≡ false
    → (p ≡ unsign z parts) × (parts.is_null ≡ false)
unless_null_unsign z true null parts p n h present = cc
unless_null_unsign z false null parts p n h present = (cc, cc)

-- What sqli_interval_set_parts accepts and is not NULL it stores with the sign of a zero cleared.
pub interval_set_parts-stored :
    (parts p : IntervalParts)
    → interval_set_parts parts ≡ done p
    → p.is_null ≡ false
    → ((p ≡ unsign (is_zero_interval (interval_fields parts)) parts) × (parts.is_null ≡ false))
      × (validate_fields (interval_fields parts) true ≡ done tt)
unfolding interval_set_parts
interval_set_parts-stored parts p h present =
    let z = is_zero_interval (interval_fields parts) in
    let (valid, stored) =
      >>-done (validate_fields (interval_fields parts) true)
        (done (unsign z (if parts.is_null then null_interval parts.range else parts))) p h in
    (
      unless_null_unsign z parts.is_null (null_interval parts.range) parts p refl stored present,
      valid,
    )

-- The checks do not look at the sign.
validate_fields-unsign :
    (z : Bool) (parts : IntervalParts)
    → validate_fields (interval_fields (unsign z parts)) true
      ≡ validate_fields (interval_fields parts) true
unfolding validate_fields interval_fields
validate_fields-unsign z parts = refl

unsign_twice : (z : Bool) (parts : IntervalParts) → unsign z (unsign z parts) ≡ unsign z parts
unsign_twice true parts = refl
unsign_twice false parts = refl

interval_set_parts-unsign :
    (parts : IntervalParts)
    → parts.is_null ≡ false
    → validate_fields (interval_fields parts) true ≡ done tt
    → let q = unsign (is_zero_interval (interval_fields parts)) parts in
      interval_set_parts q ≡ done q
unfolding interval_set_parts is_zero_interval interval_fields
interval_set_parts-unsign parts present valid =
    let z = is_zero_interval (interval_fields parts) in
    let null = null_interval parts.range in
    ap
      (λ (m : Result (Unit {0})).
        m >> done (unsign z (if parts.is_null then null else unsign z parts)))
      (validate_fields-unsign z parts ∙ valid)
    ∙ ap (λ (b : Bool). done (unsign z (if b then null else unsign z parts))) present
    ∙ ap done (unsign_twice z parts)

-- Storing what was stored stores the same.
pub interval_set_parts_again :
    (parts p : IntervalParts)
    → interval_set_parts parts ≡ done p
    → p.is_null ≡ false
    → (interval_set_parts p ≡ done p) × (validate_fields (interval_fields p) true ≡ done tt)
interval_set_parts_again parts p h present =
    let ((same, given), valid) = interval_set_parts-stored parts p h present in
    let z = is_zero_interval (interval_fields parts) in
    (
      subst (λ (q : IntervalParts). interval_set_parts q ≡ done q) (sym same)
          (interval_set_parts-unsign parts given valid),
      subst (λ (q : IntervalParts). validate_fields (interval_fields q) true ≡ done tt) (sym same)
          (validate_fields-unsign z parts ∙ valid),
    )

interval_parse-text :
    (p : IntervalParts)
    → p.is_null ≡ false
    → interval_set_parts p ≡ done p
    → validate_fields (interval_fields p) true ≡ done tt
    → IsU64 (interval_fields p).integral
    → interval_parse p.range (value_text (interval_fields p) true) false ≡ done p
unfolding interval_parse interval_parts validate_fields interval_fields
interval_parse-text p present again h u =
    let v = interval_fields p in
    let ranged : validate_range p.range true false ≡ done tt =
      ap (λ (b : Bool). validate_range p.range true b) (sym present) ∙ (>>-done _ _ tt h).0 in
    let back = parse_fields-value_text v true present (λ e. cc) h u in
    let text = value_text v true in
    ap
      (λ (m : Result (Unit {0})).
        m
        >> (parse_fields (blank_fields p.range) text true >>= λ w.
            interval_set_parts (interval_parts w)))
      ranged
    ∙ ap (λ (m : Result Fields). m >>= λ w. interval_set_parts (interval_parts w)) back
    ∙ ap (λ (b : Bool). interval_set_parts (record p { is_null = b })) (sym present)
    ∙ again

-- An INTERVAL whose fields are uint64_t, that sqli_interval_set_parts accepted and that is not NULL
-- has a text: sqli_interval_format writes it with its end mark to a buffer that is large enough, and
-- gives the number of bytes without a buffer; sqli_interval_parse of the text gives the value back,
-- sign included.
pub interval_parse-format :
    (parts p : IntervalParts)
    → interval_set_parts parts ≡ done p
    → p.is_null ≡ false
    → IsU64 (interval_fields p).integral
    → (text : List ℕ) × IsWritten (interval_format p) text
      × (interval_parse p.range text false ≡ done p)
unfolding interval_format interval_fields
interval_parse-format parts p h present u =
    let (again, checked) = interval_set_parts_again parts p h present in
    let v = interval_fields p in
    (
      value_text v true,
      copy_text-IsWritten (interval_format p) (value_text v true)
          (λ buffer. format_value-text v true false buffer present checked (λ e. cc) u),
      interval_parse-text p present again checked u,
    )
