-- ===== src/Cancel/Outcomes.antt =====
-- The outcome of a statement (sqli_cancel_operation_finish of src/sqli_cancel_posix.c): the words in which
-- it is specified, and what the code makes of it.
use libsqli.Prelude.{
  ◌≡◌, refl, sym, ◌∙◌, ap, Bool, true, false, ◌||◌, ◌&&◌, arith, ◌⊎◌, inl, inr, ◌≢◌, ◌↔◌, pick,
}
use libsqli.Prelude.Int.{ℤ, pos, negsuc}
use libsqli.Status.{Status, is_ok}
use libsqli.Txn.Steps.{Status-cases, true≢false}
use libsqli.Conn.{Conn}
use libsqli.Cancel.{
  Operation, response_unknown, Outcome, outcome_of, is_zero, is_interrupted, is_transport, is_proto,
}

-- A statement that was sent and did not succeed, without a diagnostic of the server: whether it took
-- effect is unknown.
abbrev pub IsUnsettled : Bool → Status → ℤ → Type 0
IsUnsettled armed status code = (armed ≡ true) × (status ≢ Status.ok) × (code ≡ pos 0)

-- The connection broke, or its data were not understood with no diagnostic of the server.
abbrev pub IsBroken : Status → ℤ → Type 0
IsBroken status code =
    (status ≡ Status.io_error)
    ⊎ (status ≡ Status.timeout)
    ⊎ ((status ≡ Status.proto_error) × (code ≡ pos 0))

-- The outcome of a statement, given whether it was sent, its status and the code of the server; -213
-- is the code of an interrupted one.
abbrev pub IsJudged : Bool → Status → ℤ → Outcome → Type 0
IsJudged armed status code Outcome.executed = status ≡ Status.ok
IsJudged armed status code Outcome.interrupted = (status ≢ Status.ok) × (code ≡ negsuc 212)
IsJudged armed status code Outcome.unknown =
    (status ≢ Status.ok)
    × (code ≢ negsuc 212)
    × (IsUnsettled armed status code ⊎ IsBroken status code)
IsJudged armed status code Outcome.failed =
    (status ≢ Status.ok)
    × (code ≢ negsuc 212)
    × ¬ (IsUnsettled armed status code ⊎ IsBroken status code)
IsJudged armed status code Outcome.not_executed = ⊥

zero_code : (code : ℤ) → (is_zero code ≡ true) ↔ (code ≡ pos 0)
zero_code code = (λ h. ground (arith, h), λ e. ap is_zero e)

interrupt_code : (code : ℤ) → (is_interrupted code ≡ true) ↔ (code ≡ negsuc 212)
interrupt_code code = (λ h. ground (arith, h), λ e. ap is_interrupted e)

not_ok : (s : Status) → (is_ok s ≡ false) ↔ (s ≢ Status.ok)
not_ok s = (
  λ h e. true≢false (sym (ap is_ok e) ∙ h),
  λ other. elim (Status-cases s) [ inl e ↦ absurd (other e) | inr bad ↦ bad ],
)

pub unsettled_lem :
    (p : Operation) (c : Conn) (status : Status)
    → (response_unknown p c status ≡ true) ↔ IsUnsettled p.armed status c.error_info.sqlcode
unfolding response_unknown
unsettled_lem p c status =
    let code = c.error_info.sqlcode in
    (
      λ h. (
        ground (arith, h),
        (not_ok status).0 (ground (arith, h)),
        (zero_code code).0 (ground (arith, h)),
      ),
      λ (armed, bad, none_left).
          let failed = (not_ok status).1 bad in
          let zero_there = (zero_code code).1 none_left in
          ground (arith, armed, failed, zero_there),
    )

transport_lem :
    (s : Status) → (is_transport s ≡ true) ↔ ((s ≡ Status.io_error) ⊎ (s ≡ Status.timeout))
transport_lem s = (
  λ h. ground (arith, h),
  λ either. elim either [ inl e ↦ ap is_transport e | inr e ↦ ap is_transport e ],
)

proto_lem : (s : Status) → (is_proto s ≡ true) ↔ (s ≡ Status.proto_error)
proto_lem s = (λ h. ground (arith, h), λ e. ap is_proto e)

pub or_cases : (a b : Bool) → ((a || b) ≡ true) ↔ ((a ≡ true) ⊎ (b ≡ true))
or_cases true b = (λ h. inl refl, λ either. refl)
or_cases false b = (λ h. inr h, λ either. elim either [ inl e ↦ true≢false (sym e) | inr e ↦ e ])

or_assoc : (a b c : Bool) → (a || b || c) ≡ (a || (b || c))
or_assoc true b c = refl
or_assoc false b c = refl

broken_lem :
    (status : Status) (code : ℤ)
    → ((is_transport status || (is_proto status && is_zero code)) ≡ true) ↔ IsBroken status code
broken_lem status code = (
  λ h. elim ((or_cases (is_transport status) (is_proto status && is_zero code)).0 h) [
    | inl a ↦ elim ((transport_lem status).0 a) [ inl e ↦ inl e | inr e ↦ inr (inl e) ]
    | inr b ↦
        inr (inr ((proto_lem status).0 (ground (arith, b)), (zero_code code).0 (ground (arith, b))))
  ],
  λ broken. elim broken [
    | inl e ↦ let a = (transport_lem status).1 (inl e) in ground (arith, a)
    | inr (inl e) ↦ let a = (transport_lem status).1 (inr e) in ground (arith, a)
    | inr (inr (e, z)) ↦
        let a = (proto_lem status).1 e in let b = (zero_code code).1 z in ground (arith, a, b)
  ],
)

doubt_lem :
    (p : Operation) (c : Conn) (status : Status)
    → let code = c.error_info.sqlcode in
      ((response_unknown p c status || is_transport status || (is_proto status && is_zero code))
        ≡ true)
      ↔ (IsUnsettled p.armed status code ⊎ IsBroken status code)
doubt_lem p c status =
    let code = c.error_info.sqlcode in
    let a = response_unknown p c status in
    let b = is_transport status in
    let d = is_proto status && is_zero code in
    let split = or_cases a (b || d) in
    (
      λ h. elim (split.0 (sym (or_assoc a b d) ∙ h)) [
        | inl x ↦ inl ((unsettled_lem p c status).0 x)
        | inr y ↦ inr ((broken_lem status code).0 y)
      ],
      λ doubt.
          or_assoc a b d
          ∙ split.1 (elim doubt [
            | inl x ↦ inl ((unsettled_lem p c status).1 x)
            | inr y ↦ inr ((broken_lem status code).1 y)
          ]),
    )

pub outcome_of-IsJudged :
    (p : Operation) (c : Conn) (status : Status)
    → IsJudged p.armed status c.error_info.sqlcode (outcome_of p c status)
unfolding outcome_of response_unknown
outcome_of-IsJudged p c status =
    let code = c.error_info.sqlcode in
    let P = IsJudged p.armed status code in
    pick P (is_ok status) _ _
      (λ good. elim (Status-cases status) [ inl e ↦ e | inr bad ↦ true≢false (sym good ∙ bad) ])
      λ bad.
        let failed = (not_ok status).0 bad in
        pick P (is_interrupted code) _ _ (λ e. (failed, (interrupt_code code).0 e))
          λ other.
            let differs : code ≢ negsuc 212 =
              λ e. true≢false (sym ((interrupt_code code).1 e) ∙ other) in
            pick P
              (response_unknown p c status
                || is_transport status
                || (is_proto status && is_zero code))
              _ _ (λ e. (failed, differs, (doubt_lem p c status).0 e))
              λ clear. (failed, differs, λ d. true≢false (sym ((doubt_lem p c status).1 d) ∙ clear))
