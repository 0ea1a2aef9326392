-- ===== src/Conn/Examples.antt =====
-- Runs of the connection's helpers on a fresh connection.
use libsqli.Prelude.{◌≡◌, refl}
use libsqli.Conn.{create, set_error_context, set_error, clear_error}

set_then_clear : clear_error (set_error "x" (set_error_context "y" 7 create)) ≡ create
unfolding create set_error set_error_context clear_error
set_then_clear = refl

stamped : (set_error "x" (set_error_context "y" 7 create)).error_info.opcode ≡ 7
unfolding create set_error set_error_context
stamped = refl
