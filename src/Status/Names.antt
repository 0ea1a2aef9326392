-- ===== src/Status/Names.antt =====
-- src/sqli_status.c: the names and descriptions of the statuses.
use Prim.Native.String.{String}
use libsqli.Prelude.{ℕ, List, [], ◌∷◌, none, some, get_elem?}
use libsqli.Status.{Status}

-- The number behind each enumerator.
abbrev number : Status → ℕ
number Status.ok = 0
number Status.err = 1
number Status.eof = 2
number Status.timeout = 3
number Status.auth_fail = 4
number Status.proto_error = 5
number Status.io_error = 6
number Status.alloc_fail = 7
number Status.invalid_state = 8
number Status.invalid_argument = 9
number Status.out_of_range = 10
number Status.inexact = 11
number Status.buffer_too_small = 12
number Status.null_value = 13
number Status.limit_exceeded = 14
number Status.metadata_unavailable = 15
number Status.type_mismatch = 16
number Status.canceled = 17
number Status.unsupported = 18

abbrev status_text : List (String × String)
status_text =
    ("SQLI_OK", "Success")
    ∷ ("SQLI_ERR", "Operation failed")
    ∷ ("SQLI_EOF", "End of result")
    ∷ ("SQLI_TIMEOUT", "Operation timed out")
    ∷ ("SQLI_AUTH_FAIL", "Authentication failed")
    ∷ ("SQLI_PROTO_ERROR", "Invalid protocol data")
    ∷ ("SQLI_IO_ERROR", "Input/output failure")
    ∷ ("SQLI_ALLOC_FAIL", "Memory allocation failed")
    ∷ ("SQLI_INVALID_STATE", "Operation is invalid in the current state")
    ∷ ("SQLI_INVALID_ARGUMENT", "Invalid argument")
    ∷ ("SQLI_OUT_OF_RANGE", "Value or index is outside the supported range")
    ∷ ("SQLI_INEXACT", "Conversion would discard nonzero digits")
    ∷ ("SQLI_BUFFER_TOO_SMALL", "Output buffer is too small")
    ∷ ("SQLI_NULL_VALUE", "Value is SQL NULL")
    ∷ ("SQLI_LIMIT_EXCEEDED", "Resource limit exceeded")
    ∷ ("SQLI_METADATA_UNAVAILABLE", "Requested metadata is unavailable")
    ∷ ("SQLI_TYPE_MISMATCH", "Column type does not support this conversion")
    ∷ ("SQLI_CANCELED", "Execution canceled; inspect cancellation outcome")
    ∷ ("SQLI_UNSUPPORTED", "Operation or transport is not supported")
    ∷ []

unfoldable status_name : ℕ → String
status_name n = elim (get_elem? status_text n) [ none ↦ "SQLI_UNKNOWN_STATUS" | some row ↦ row.0 ]

unfoldable status_description : ℕ → String
status_description n = elim (get_elem? status_text n) [
  | none ↦ "Unknown library status"
  | some row ↦ row.1
]
