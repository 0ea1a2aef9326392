-- ===== src/Status.antt =====
-- sqli_status of include/libsqli/sqli.h, and what a fallible function hands back.
-- `Result` is a status together with the output parameters: `done a` stands for SQLI_OK with the
-- outputs `a`, and `fail s` for the status `s` with the outputs left alone.
pub mod Names
pub mod Chains
use libsqli.Prelude.{Bool, true, false}

pub data Status : Type 0 where
  ok err eof timeout auth_fail proto_error io_error alloc_fail invalid_state : Status
  invalid_argument out_of_range inexact buffer_too_small null_value limit_exceeded : Status
  metadata_unavailable type_mismatch canceled unsupported : Status

abbrev pub is_ok : Status → Bool
is_ok s = elim s [ Status.ok ↦ true | _ ↦ false ]

abbrev pub is_err : Status → Bool
is_err s = elim s [ Status.err ↦ true | _ ↦ false ]

pub data Result {ℓ} (A : Type ℓ) : Type ℓ where
  done : A → Result A
  fail : Status → Result A

infixl 5 ◌>>=◌ ◌>>◌
abbrev pub ◌>>=◌ {ℓ κ} : {A : Type ℓ} {B : Type κ} → Result A → (A → Result B) → Result B
done a >>= f = f a
fail s >>= f = fail s

abbrev pub ◌>>◌ {ℓ} : {B : Type ℓ} → Result (Unit {0}) → Result B → Result B
m >> k = m >>= λ _. k

-- `if (refused) return s;`
abbrev pub reject_if : Bool → Status → Result (Unit {0})
reject_if true s = fail s
reject_if false s = done tt

-- A status with no output.
abbrev pub status_of {ℓ} : {A : Type ℓ} → Result A → Status
status_of (done a) = Status.ok
status_of (fail s) = s
