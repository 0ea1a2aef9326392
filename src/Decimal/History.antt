-- ===== src/Decimal/History.antt =====
-- A decimal object through any history of calls (src/sqli_decimal.c, src/sqli_decimal_codec.c).
use mathlib.Core.Path.{subst}
use libsqli.Prelude.{ℕ, ◌≡◌, refl, Bool, List, [], ◌∷◌, inl, inr, Bool-cases, ◌&&◌, ◌==◌}
use libsqli.Prelude.Int.{ℤ}
use libsqli.Status.{Status, Result, done, fail}
use libsqli.Status.Chains.{>>-done, >>=-done, done_same}
use libsqli.Decimal.{WireType, decode_type}
use libsqli.Decimal.Number.{Number, null_number, decimal_set_parts, decimal_copy, decimal_set_i64}
use libsqli.Decimal.Stored.{IsNormal, null_number-IsNormal, decimal_set_parts-IsNormal}
use libsqli.Decimal.Scaling.{decimal_rescale_exact}
use libsqli.Decimal.Rescale.{decimal_rescale_exact-same}
use libsqli.Decimal.Text.{decimal_parse}
use libsqli.Decimal.Parsed.{decimal_parse-IsNormal}
use libsqli.Decimal.Codec.{
  decode_trimmed, all_zero_bytes, group_scale, decode_groups, decode_coefficient, decode_number,
  decimal_decode_wire,
}

-- A call that stores a number in an object, with its arguments.
pub data Call : Type 0 where
  set_null : Call
  set_parts : Number → Call
  copy : Number → Call
  set_i64 : ℤ → ℤ → Call
  parse : List ℕ → Bool → Call
  rescale_exact : ℤ → Call
  decode_wire : List ℕ → ℕ → Call

unfoldable pub call_on : (ℕ → Bool) → Call → Number → Result Number
call_on memory set_null v = done null_number
call_on memory (set_parts parts) v = decimal_set_parts memory parts
call_on memory (copy source) v = decimal_copy memory source
call_on memory (set_i64 coefficient scale) v = decimal_set_i64 memory coefficient scale
call_on memory (parse text is_null) v = decimal_parse memory text is_null
call_on memory (rescale_exact scale) v = decimal_rescale_exact memory v scale
call_on memory (decode_wire bytes descriptor) v = decimal_decode_wire memory bytes descriptor

-- The object afterwards: a failed call leaves it alone.
unfoldable pub after_call : (ℕ → Bool) → Call → Number → Number
after_call memory call v = elim (call_on memory call v) [ done w ↦ w | fail s ↦ v ]

-- A new object holds NULL. Each call has its own memory.
unfoldable pub run : List ((ℕ → Bool) × Call) → Number → Number
run [] v = v
run ((memory, call) ∷ calls) v = run calls (after_call memory call v)

decode_groups-IsNormal :
    (memory : ℕ → Bool) (t : WireType) (negative : Bool) (biased : ℕ) (groups : List ℕ) (v : Number)
    → decode_groups memory t negative biased groups ≡ done v
    → IsNormal v
unfolding decode_groups
decode_groups-IsNormal memory t negative biased groups v h =
    let (scale, found, stored) = >>=-done (group_scale t biased groups) _ v h in
    decimal_set_parts-IsNormal memory _ v stored

set_i64-IsNormal :
    (memory : ℕ → Bool) (c scale : ℤ) (v : Number)
    → decimal_set_i64 memory c scale ≡ done v
    → IsNormal v
unfolding decimal_set_i64
set_i64-IsNormal memory c scale v h = decimal_set_parts-IsNormal memory _ v h

decode_trimmed-IsNormal :
    (memory : ℕ → Bool) (t : WireType) (first : ℕ) (groups : List ℕ) (v : Number)
    → decode_trimmed memory t first groups ≡ done v
    → IsNormal v
unfolding decode_trimmed
decode_trimmed-IsNormal memory t first [] v h =
    let (zero_first, stored) = >>-done _ _ v h in set_i64-IsNormal memory _ _ v stored
decode_trimmed-IsNormal memory t first (g ∷ gs) v h =
    decode_groups-IsNormal memory t _ _ (g ∷ gs) v h

decode_coefficient-IsNormal :
    (memory : ℕ → Bool) (t : WireType) (first : ℕ) (groups : List ℕ) (v : Number)
    → decode_coefficient memory t first groups ≡ done v
    → IsNormal v
unfolding decode_coefficient
decode_coefficient-IsNormal memory t first groups v h =
    let (checks, rest) = >>-done _ _ v h in decode_trimmed-IsNormal memory t first _ v rest

decode_number-IsNormal :
    (memory : ℕ → Bool) (t : WireType) (bytes : List ℕ) (v : Number)
    → decode_number memory t bytes ≡ done v
    → IsNormal v
unfolding decode_number
decode_number-IsNormal memory t [] v h =
    subst IsNormal (done_same null_number v h) null_number-IsNormal
decode_number-IsNormal memory t (first ∷ groups) v h =
    elim (Bool-cases (first == 0 && all_zero_bytes groups)) [
      | inl e ↦ subst IsNormal (done_same null_number v (rw e at h)) null_number-IsNormal
      | inr e ↦ decode_coefficient-IsNormal memory t first groups v (rw e at h)
    ]

decimal_decode_wire-IsNormal :
    (memory : ℕ → Bool) (bytes : List ℕ) (descriptor : ℕ) (v : Number)
    → decimal_decode_wire memory bytes descriptor ≡ done v
    → IsNormal v
unfolding decimal_decode_wire
decimal_decode_wire-IsNormal memory bytes descriptor v h =
    let (t, found, rest) = >>=-done (decode_type descriptor) _ v h in
    let (sized, decoded) = >>-done _ _ v rest in decode_number-IsNormal memory t bytes v decoded

refused_null : {w : Number} → fail Status.null_value ≡ done w → IsNormal w
refused_null h = cc

rescale-IsNormal :
    (memory : ℕ → Bool) (v w : Number) (scale : ℤ)
    → IsNormal v
    → decimal_rescale_exact memory v scale ≡ done w
    → IsNormal w
unfolding decimal_rescale_exact
rescale-IsNormal memory v w scale h done_w = elim (Bool-cases v.is_null) [
  | inl e ↦ refused_null (simp e at done_w)
  | inr e ↦ (decimal_rescale_exact-same memory v w scale h e done_w).0
]

-- A call that succeeds on a normal number leaves one.
call_on-IsNormal :
    (memory : ℕ → Bool) (call : Call) (v w : Number)
    → IsNormal v
    → call_on memory call v ≡ done w
    → IsNormal w
unfolding call_on decimal_copy
call_on-IsNormal memory set_null v w h e =
    subst IsNormal (done_same null_number w e) null_number-IsNormal
call_on-IsNormal memory (set_parts parts) v w h e = decimal_set_parts-IsNormal memory parts w e
call_on-IsNormal memory (copy source) v w h e = decimal_set_parts-IsNormal memory source w e
call_on-IsNormal memory (set_i64 coefficient scale) v w h e =
    set_i64-IsNormal memory coefficient scale w e
call_on-IsNormal memory (parse text is_null) v w h e =
    decimal_parse-IsNormal memory text is_null w e
call_on-IsNormal memory (rescale_exact scale) v w h e = rescale-IsNormal memory v w scale h e
call_on-IsNormal memory (decode_wire bytes descriptor) v w h e =
    decimal_decode_wire-IsNormal memory bytes descriptor w e

kept_IsNormal :
    (r : Result Number) (v : Number)
    → IsNormal v
    → ((w : Number) → r ≡ done w → IsNormal w)
    → IsNormal (elim r [ done w ↦ w | fail s ↦ v ])
kept_IsNormal (done w) v h k = k w refl
kept_IsNormal (fail s) v h k = h

-- After any calls that set, copy, parse, rescale or decode, failed ones included, a decimal object
-- that was normal, such as a new one, is normal: nine digits to a limb, no zeros in front, at most a
-- million digits, no sign at zero, and nothing but the mark where it is NULL.
pub run-IsNormal :
    (calls : List ((ℕ → Bool) × Call)) (v : Number) → IsNormal v → IsNormal (run calls v)
unfolding run after_call
run-IsNormal [] v h = h
run-IsNormal ((memory, call) ∷ calls) v h =
    run-IsNormal calls _
      (kept_IsNormal (call_on memory call v) v h (λ w e. call_on-IsNormal memory call v w h e))
