-- ===== src/Batch/Examples.antt =====
-- A run of a batch, and the theorems at concrete inputs.
use Prim.Native.String.{String}
use text.Mathlib.Text.{◌==◌ as str_eq}
use libsqli.Prelude.{true, false, List, [], ◌∷◌, Option, none, some, if◌then◌else◌}
use libsqli.Prelude.Int.{pos}
use libsqli.Status.{Status, done, fail}
use libsqli.Conn.{Conn, ConnState, create, no_error_info}
use libsqli.Txn.{Net}
use libsqli.Batch.{Query, Memory, batch_execute}
use libsqli.Batch.Totals.{Delivers, batch_execute-Delivers}

abbrev ready_conn : Conn
unfolding create
ready_conn = record create { socket_fd = pos 5; state = ConnState.ready }

abbrev calm : Net
calm = record {
  send = λ k bytes. true;
  reply = record { status = Status.ok; saw_error = false; errmsg = ""; error_info = no_error_info };
  encode = λ name. done (115 ∷ []);
  query = λ sql c. (c, Status.ok);
}

-- Every statement changes one row, but for one that the server refuses.
abbrev answers : Query
answers sql c = (c, if str_eq sql "bad" then fail Status.err else done (some (pos 1)))

abbrev enough : Memory
enough = record { for_batch = true; for_items = true }

abbrev statements : List (Option String)
statements = some "good" ∷ some "" ∷ some "bad" ∷ none ∷ []

batch_execute-Delivers_example :
    Delivers statements (batch_execute enough calm calm answers statements ready_conn)
batch_execute-Delivers_example =
    batch_execute-Delivers enough calm calm answers statements ready_conn
