-- ===== src/Lib.antt =====
-- libsqli: a model of the core of the C client library for the Informix SQLI protocol, and the
-- theorems that make it correct.
--
-- The program. A connection (src/sqli_internal.h, src/sqli_conn.c) keeps its diagnostics, its
-- lifecycle bits and its transaction state; every operation takes it, changes it and gives back a
-- sqli_status. Above it stand the transactions, savepoints, session settings and batch frames of
-- src/sqli_transaction.c, the batches of src/sqli_batch.c, the cancel operations of
-- src/sqli_cancel_posix.c and the pool of src/sqli_pool.c, which leases connections to threads; a
-- connection is opened by its parameters or by the URI that src/sqli_uri.c takes apart.
-- Below it stand the byte formats: headers and strings of src/sqli_wire.c, DATE values of
-- src/sqli_temporal_codec.c, the checks and the text of DATE, DATETIME and INTERVAL values of
-- src/sqli_temporal.c, the decimal numbers of src/sqli_decimal.c with their wire form in
-- src/sqli_decimal_codec.c, and the base-100 groups of src/sqli_base100.h. src/ifx_errmsg.c finds the
-- message of an error code.
--
-- The files.
--   Prelude     lists, tests and integers over native numbers, byte lists and buffers
--   Status      sqli_status, and results with their output parameters; src/sqli_status.c
--   ErrMsg      src/ifx_errmsg.c: find_code, ifx_errmsg_get, sqli_error_message_lookup; Search,
--               Meaning (what the tokens of a message mean), Expansion
--   Wire        src/sqli_wire.c: sqli_wire_encode_sl_header, sqli_wire_decode_sl_header,
--               sqli_asc_encode_string, sqli_asc_encode_string_padded
--   Decimal     sqli_base100_radix_complement and sqli_decimal_wire_size; Complement, Width;
--               src/sqli_decimal.c: Number (storage, sqli_decimal_set_parts, the conversions with
--               int64_t), Scaling (sqli_decimal_compare, sqli_decimal_rescale_exact) and Text
--               (sqli_decimal_parse, sqli_decimal_format); src/sqli_decimal_codec.c: Codec; Values
--               and Sizes (the number of limbs and its digits), Stored (what is stored), Integers, Mantissa,
--               Spelling, Scanned and Parsed (what is read of a text), Written, Shapes, Layout and
--               TextSize (what is written), ReadBack and RoundTrip (reading it), Powers, Products,
--               Rescale and Divisible (changes of scale), Order, Magnitudes and Compare (the order), History
--               (any calls)
--   Date        sqli_date_encode_wire and sqli_date_decode_wire with the calendar they compute on
--               (Calendar, Search, Ordinal), and their round trips (RoundTrip)
--   Temporal    src/sqli_temporal.c: the ranges, fields and checks of DATETIME and INTERVAL values,
--               their parsers (Parse) and formatters (Format) with those of DATE; Digits (numbers
--               as digits), Valid, Written, Length (what is written), ReadBack, Copies, RoundTrip
--               (reading it), Texts, Datetimes, Intervals and Parsed (the public functions);
--               Codec and Encoding: the wire form of src/sqli_temporal_codec.c, with Ranges
--               (qualifiers), Groups, Fractions, Packing, Zeros and Bytes (base-100 groups), RoundTrip,
--               Datetimes and Intervals
--   Conn        the connection record, clear_error, set_error, sqli_create, sqli_conn_discard,
--               sqli_close
--   Txn         sqli_begin, sqli_commit, sqli_rollback; Session (settings, batch frame, autobegin),
--               Savepoint; Steps (the abstract transaction machine), Calls (all operations as its
--               moves), Ledger (histories)
--   Uri         src/sqli_uri.c: the components of a URI; Query (query strings), Settings
--               (sqli_connect_uri, with the texts of Words); Decoding, Printing and Splitting,
--               Entries (what the parts of a URI give), Sizes, Safety and Address (what
--               sqli_connect is called with)
--   Batch       sqli_batch_execute; Totals
--   Cancel      the cancel operation; Safety (any sequence of calls), Outcomes and Finish (its end)
--   Pool        the pool; Owners and Events (who owns a slot, and what threads do), Leases, Acquire,
--               Release, Shutdown, Creation, Safety (any interleaving) and Progress
-- A module called Examples holds runs on concrete inputs.
--
-- Conventions. A state is a record, an operation a function that gives back the new state and a
-- status; `done a` is SQLI_OK with the output `a`, and `fail s` the status `s` with the outputs left
-- alone. Pointers are present: the guards against NULL arguments stand outside the model. Numbers
-- are unbounded with the wrap-around of C written out (the epochs modulo 2 ^ 64, bytes modulo 256);
-- the `int` of the source never overflows in the ranges that the checks leave. Answers of the
-- operating system, of the network, of other parts of the library (sqli_query,
-- sqli_receive_dispatch, sqli_connect) and of the C library are arguments, and the
-- statements quantify over them. A call that holds a mutex from its first test to its last is one step; where the
-- source lets the mutex go, as in the acquisition from the pool, there is a step for each part.
--
-- Loops are structural: on a list, or on the number of slots that are left. The two searches of
-- sqli_date_decode_wire run on fuel: 14 rounds and the last test of the loop, since 2 ^ 14 is more than the
-- 9999 years that are searched, and 11 rounds, since the search for the month stops at the twelfth. The
-- search for the year has no result where it does not end.
-- The digits of write_number are at most 20, since 2 ^ 64 is less than 10 ^ 20, and url_decode runs on
-- the room of its buffer. A limb has at most 10 digits, since 2 ^ 32 is less than 10 ^ 10, and the
-- four limbs of sqli_decimal_set_i64 hold more than 2 ^ 64. The search for a message runs one turn more
-- than the table has entries, since each turn leaves fewer.
--
-- Not modelled: the connection set-up, the protocol dispatch, prepared statements, result sets,
-- large objects, descriptors, character sets, sockets, TLS, logging, the generated tables of messages
-- with the short ones of src/sqli_msg_catalog.c, and the Windows variants.
pub mod Prelude
pub mod Status
pub mod ErrMsg
pub mod Wire
pub mod Decimal
pub mod Date
pub mod Temporal
pub mod Uri
pub mod Conn
pub mod Txn
pub mod Batch
pub mod Cancel
pub mod Pool
