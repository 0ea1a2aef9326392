-- ===== src/Temporal/Codec/Bytes.antt =====
-- Reading the bytes that pack writes (src/sqli_temporal_codec.c).
use libsqli.Prelude.{
  ℕ, zero, suc, ◌+◌, ◌-◌, ◌%◌, ◌≤◌, ◌≡◌, refl, ap, ◌∙◌, Bool, true, false, ◌&&◌, List, [], ◌∷◌,
  ◌++◌, ltb, ◌==◌, if◌then◌else◌, length, length-append, length-replicate, drop, replicate, inl,
  inr, arith, Bool-cases,
}
use libsqli.Prelude.Bytes.{All, All-append}
use libsqli.Status.{done, ◌>>=◌}
use libsqli.Decimal.{radix_complement}
use libsqli.Decimal.Complement.{IsGroup, radix_complement_twice}
use libsqli.Temporal.Codec.{
  WireRange, all_zero, has_large_group, zero_value, unpack_groups, unpack_value, unpack,
}
use libsqli.Temporal.Codec.Encoding.{leading_zeros, normal_bytes, signed_bytes}
use libsqli.Temporal.Codec.Groups.{
  place-normal, normal-begins, zeros-begins, large_lem, replicate-All, drop-All, length-drop_zeros,
}

all_zero-replicate : (k : ℕ) → all_zero (replicate k 0) ≡ true
all_zero-replicate zero = refl
all_zero-replicate (suc k) = all_zero-replicate k

-- The groups behind the first byte.
abbrev normal_groups : List ℕ → List ℕ
normal_groups gs = drop (leading_zeros gs) gs ++ replicate (leading_zeros gs) 0

normal_groups-All : (gs : List ℕ) → All IsGroup gs → All IsGroup (normal_groups gs)
normal_groups-All gs h =
    All-append IsGroup (drop (leading_zeros gs) gs) (replicate (leading_zeros gs) 0)
      (drop-All IsGroup (leading_zeros gs) gs h) (replicate-All (leading_zeros gs))

length-normal_groups : (gs : List ℕ) → length (normal_groups gs) ≡ length gs
length-normal_groups gs = omega (
  arith,
  length-append (drop (leading_zeros gs) gs) (replicate (leading_zeros gs) 0),
  length-replicate {A = ℕ} (leading_zeros gs) 0,
  length-drop_zeros gs,
)

length-radix_complement : (gs : List ℕ) → length (radix_complement gs).0 ≡ length gs
unfolding radix_complement
length-radix_complement [] = refl
length-radix_complement (g ∷ gs) = omega (arith, length-radix_complement gs)

-- The groups of a value other than 0, with their exponent.
unpack_value-normal :
    (w : WireRange) (head : ℕ) (negative : Bool) (gs : List ℕ)
    → all_zero gs ≡ false
    → length gs ≤ 11
    → (if negative then 127 - head else head % 128) ≡ w.exponent + 64 - leading_zeros gs
    → unpack_value w head negative (normal_groups gs) ≡ unpack_groups w negative gs
unfolding unpack_value
unpack_value-normal w head negative gs nonzero few e =
    let (begins, some_group, _) = normal-begins gs (replicate (leading_zeros gs) 0) nonzero in
    let size = length-normal_groups gs in
    rw (some_group, begins)
      (rw (size, e)
        (ap (λ r. r >>= unpack_groups w negative)
          (place-normal gs (w.exponent + 64) (omega arith) few)))

unpack-bytes :
    (w : WireRange) (head : ℕ) (body : List ℕ)
    → w.width ≡ suc (length body)
    → (head == 0) ≡ false
    → has_large_group body ≡ false
    → unpack (head ∷ body) w
      ≡ unpack_value w head
          (ltb head 128)
          (if ltb head 128 then (radix_complement body).0 else body)
unfolding unpack
unpack-bytes w head body size some_byte small =
    let fits : (suc (length body) == w.width) ≡ true = ground (arith, size) in
    rw (fits, some_byte, small) refl

unpack-zero :
    (w : WireRange) (negative : Bool) (gs : List ℕ)
    → all_zero gs ≡ true
    → w.width ≡ suc (length gs)
    → unpack (signed_bytes negative (all_zero gs) (normal_bytes w gs)) w ≡ done (zero_value false)
unfolding unpack_value signed_bytes normal_bytes
unpack-zero w negative gs zeros size =
    let body = replicate {A = ℕ} (length gs) 0 in
    let same = length-replicate {A = ℕ} (length gs) 0 in
    let unsigned : (negative && false) ≡ false = ground arith in
    rw (zeros-begins gs zeros, zeros)
      (rw unsigned (
        unpack-bytes w 128 body (omega (arith, size, same)) refl
          (large_lem body (replicate-All (length gs)))
        ∙ rw (all_zero-replicate (length gs)) refl))

abbrev head_byte : WireRange → List ℕ → ℕ
head_byte w gs = 128 + (w.exponent + 64 - leading_zeros gs)

unpack-plus :
    (w : WireRange) (gs : List ℕ)
    → all_zero gs ≡ false
    → All IsGroup gs
    → w.width ≡ suc (length gs)
    → w.exponent ≤ 11
    → length gs ≤ 11
    → unpack (signed_bytes false (all_zero gs) (normal_bytes w gs)) w ≡ unpack_groups w false gs
unfolding signed_bytes normal_bytes
unpack-plus w gs nonzero groups size small few =
    let (_, _, some_group) = normal-begins gs [] nonzero in
    let body = normal_groups gs in
    let plus : ltb (head_byte w gs) 128 ≡ false = ground arith in
    let nonzero_head : (head_byte w gs == 0) ≡ false = ground arith in
    rw some_group (
      unpack-bytes w (head_byte w gs) body (omega (arith, size, length-normal_groups gs))
        nonzero_head (large_lem body (normal_groups-All gs groups))
      ∙ rw plus
          (unpack_value-normal w (head_byte w gs) false gs nonzero few (omega (arith, small))))

unpack-minus :
    (w : WireRange) (gs : List ℕ)
    → all_zero gs ≡ false
    → All IsGroup gs
    → w.width ≡ suc (length gs)
    → w.exponent ≤ 11
    → length gs ≤ 11
    → unpack (signed_bytes true (all_zero gs) (normal_bytes w gs)) w ≡ unpack_groups w true gs
unfolding signed_bytes normal_bytes
unpack-minus w gs nonzero groups size small few =
    let (_, _, some_group) = normal-begins gs [] nonzero in
    let body = normal_groups gs in
    let (all, back) = radix_complement_twice body (normal_groups-All gs groups) in
    let undone : (radix_complement (radix_complement body).0).0 ≡ body =
      ap (λ (r : List ℕ × ℕ). r.0) back in
    let head = 255 - head_byte w gs in
    let minus : ltb head 128 ≡ true = ground arith in
    let nonzero_head : (head == 0) ≡ false = ground (arith, small) in
    rw (some_group, nonzero)
      (unpack-bytes w head (radix_complement body).0
          (omega (arith, size, length-normal_groups gs, length-radix_complement body)) nonzero_head
          (large_lem (radix_complement body).0 all)
        ∙ rw (minus, undone)
            (unpack_value-normal w head true gs nonzero few (omega (arith, small))))

unpack-signed :
    (w : WireRange) (negative : Bool) (gs : List ℕ)
    → all_zero gs ≡ false
    → All IsGroup gs
    → w.width ≡ suc (length gs)
    → w.exponent ≤ 11
    → length gs ≤ 11
    → unpack (signed_bytes negative (all_zero gs) (normal_bytes w gs)) w
      ≡ unpack_groups w negative gs
unpack-signed w true gs nonzero groups size small few =
    unpack-minus w gs nonzero groups size small few
unpack-signed w false gs nonzero groups size small few =
    unpack-plus w gs nonzero groups size small few

-- The bytes of a value give its groups back, with the sign of a value other than 0.
pub unpack-signed_bytes :
    (w : WireRange) (negative : Bool) (gs : List ℕ)
    → All IsGroup gs
    → w.width ≡ suc (length gs)
    → w.exponent ≤ 11
    → length gs ≤ 11
    → unpack (signed_bytes negative (all_zero gs) (normal_bytes w gs)) w
      ≡ (if all_zero gs then done (zero_value false) else unpack_groups w negative gs)
unpack-signed_bytes w negative gs groups size small few = elim (Bool-cases (all_zero gs)) [
  | inl e ↦ unpack-zero w negative gs e size ∙ rw e refl
  | inr e ↦ unpack-signed w negative gs e groups size small few ∙ rw e refl
]
