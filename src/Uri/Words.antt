-- ===== src/Uri/Words.antt =====
-- The texts that src/sqli_uri.c compares with and writes.
use libsqli.Prelude.{ℕ, List, [], ◌∷◌}

abbrev pub onsoctcp_scheme : List ℕ
onsoctcp_scheme =
    b'i' ∷ b'n' ∷ b'f' ∷ b'o' ∷ b'r' ∷ b'm' ∷ b'i' ∷ b'x' ∷ b'+' ∷ b'o' ∷ b'n' ∷ b's' ∷ b'o' ∷ b'c'
    ∷ b't' ∷ b'c' ∷ b'p' ∷ []

abbrev pub onsocssl_scheme : List ℕ
onsocssl_scheme =
    b'i' ∷ b'n' ∷ b'f' ∷ b'o' ∷ b'r' ∷ b'm' ∷ b'i' ∷ b'x' ∷ b'+' ∷ b'o' ∷ b'n' ∷ b's' ∷ b'o' ∷ b'c'
    ∷ b's' ∷ b's' ∷ b'l' ∷ []

abbrev pub onipcstr_scheme : List ℕ
onipcstr_scheme =
    b'i' ∷ b'n' ∷ b'f' ∷ b'o' ∷ b'r' ∷ b'm' ∷ b'i' ∷ b'x' ∷ b'+' ∷ b'o' ∷ b'n' ∷ b'i' ∷ b'p' ∷ b'c'
    ∷ b's' ∷ b't' ∷ b'r' ∷ []

abbrev pub default_database : List ℕ
default_database = b'i' ∷ b'n' ∷ b'f' ∷ b'o' ∷ b'r' ∷ b'm' ∷ b'i' ∷ b'x' ∷ []

abbrev pub server_key : List ℕ
server_key =
    b'I' ∷ b'N' ∷ b'F' ∷ b'O' ∷ b'R' ∷ b'M' ∷ b'I' ∷ b'X' ∷ b'S' ∷ b'E' ∷ b'R' ∷ b'V' ∷ b'E' ∷ b'R'
    ∷ []

abbrev pub client_locale_key : List ℕ
client_locale_key =
    b'C' ∷ b'L' ∷ b'I' ∷ b'E' ∷ b'N' ∷ b'T' ∷ b'_' ∷ b'L' ∷ b'O' ∷ b'C' ∷ b'A' ∷ b'L' ∷ b'E' ∷ []

abbrev pub db_locale_key : List ℕ
db_locale_key = b'D' ∷ b'B' ∷ b'_' ∷ b'L' ∷ b'O' ∷ b'C' ∷ b'A' ∷ b'L' ∷ b'E' ∷ []

abbrev pub socket_path_key : List ℕ
socket_path_key = b'S' ∷ b'O' ∷ b'C' ∷ b'K' ∷ b'E' ∷ b'T' ∷ b'_' ∷ b'P' ∷ b'A' ∷ b'T' ∷ b'H' ∷ []

abbrev pub ssl_ca_file_key : List ℕ
ssl_ca_file_key = b'S' ∷ b'S' ∷ b'L' ∷ b'_' ∷ b'C' ∷ b'A' ∷ b'_' ∷ b'F' ∷ b'I' ∷ b'L' ∷ b'E' ∷ []

abbrev pub ssl_verify_peer_key : List ℕ
ssl_verify_peer_key =
    b'S' ∷ b'S' ∷ b'L' ∷ b'_' ∷ b'V' ∷ b'E' ∷ b'R' ∷ b'I' ∷ b'F' ∷ b'Y' ∷ b'_' ∷ b'P' ∷ b'E' ∷ b'E'
    ∷ b'R' ∷ []

abbrev pub str_suffix : List ℕ
str_suffix = b'.' ∷ b's' ∷ b't' ∷ b'r' ∷ []

abbrev pub informixtmp_directory : List ℕ
informixtmp_directory =
    b'/' ∷ b'I' ∷ b'N' ∷ b'F' ∷ b'O' ∷ b'R' ∷ b'M' ∷ b'I' ∷ b'X' ∷ b'T' ∷ b'M' ∷ b'P' ∷ b'/' ∷ []

abbrev pub infosock_prefix : List ℕ
infosock_prefix =
    b'/' ∷ b't' ∷ b'm' ∷ b'p' ∷ b'/' ∷ b'.' ∷ b'i' ∷ b'n' ∷ b'f' ∷ b'o' ∷ b's' ∷ b'o' ∷ b'c' ∷ b'k'
    ∷ b'.' ∷ []

abbrev pub true_text : List ℕ
true_text = b't' ∷ b'r' ∷ b'u' ∷ b'e' ∷ []

abbrev pub yes_text : List ℕ
yes_text = b'y' ∷ b'e' ∷ b's' ∷ []

abbrev pub one_text : List ℕ
one_text = b'1' ∷ []
