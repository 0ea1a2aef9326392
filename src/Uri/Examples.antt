-- ===== src/Uri/Examples.antt =====
-- Runs of the functions of src/sqli_uri.c.
use libsqli.Prelude.{
  ℕ, ◌≡◌, refl, sym, ◌∙◌, Bool, true, false, List, [], ◌∷◌, ◌++◌, none, some, map, ◌==◌,
  if◌then◌else◌, Bool-cases, inl, inr, arith,
}
use libsqli.Prelude.Bytes.{All}
use libsqli.Status.{Status}
use libsqli.Conn.{Conn, create}
use libsqli.Uri.{
  parse_uri_components, url_decode, is_scheme, ends_path, ends_query, decode_bytes, next_byte,
  c_string,
}
use libsqli.Uri.Query.{find_query_value, parse_query_string}
use libsqli.Uri.Words.{server_key}
use libsqli.Uri.Settings.{Params, System, connect_uri}
use libsqli.Uri.Decoding.{Encodes, nothing, plain, escape, url_decode-Encodes}
use libsqli.Uri.Printing.{IsWithout, ends_part, print_uri, IsPrintable}
use libsqli.Uri.Splitting.{parse-print_uri}
use libsqli.Uri.Entries.{Pair, IsPair, pairs_text, pair_entry, parse_query_string-pairs_text}
use libsqli.Uri.Safety.{IsAnswered, connect_uri-IsDecided}
use libsqli.Uri.Address.{Address, IsAddress, address_components, connect_uri-print_uri}

abbrev user_me : List ℕ
user_me = b'm' ∷ b'e' ∷ []

abbrev password_text : List ℕ
password_text = b'p' ∷ b'%' ∷ b'4' ∷ b'0' ∷ b's' ∷ []

abbrev password_bytes : List ℕ
password_bytes = b'p' ∷ b'@' ∷ b's' ∷ []

abbrev host_six : List ℕ
host_six = b':' ∷ b':' ∷ b'1' ∷ []

abbrev port_9088 : List ℕ
port_9088 = b'9' ∷ b'0' ∷ b'8' ∷ b'8' ∷ []

abbrev database_stores : List ℕ
database_stores = b's' ∷ b't' ∷ b'o' ∷ b'r' ∷ b'e' ∷ b's' ∷ []

abbrev server_srv : List ℕ
server_srv = b's' ∷ b'r' ∷ b'v' ∷ []

abbrev some_options : List Pair
some_options = (server_key, server_srv) ∷ []

-- informix+onsocssl://me:p%40s@[::1]:9088/stores?INFORMIXSERVER=srv
abbrev an_address : Address
an_address = record {
  ssl = true;
  user = user_me;
  password = password_text;
  host = host_six;
  port = port_9088;
  database = database_stores;
  options = some_options;
}

abbrev a_system : System
a_system = record { memory = true; informixtmp = none; has_directory = false; user_name = none }

abbrev accept : Params → Conn → Conn × Status
accept p c = (c, Status.ok)

abbrev without : (ℕ → Bool) → List ℕ → Bool
without stop [] = true
without stop (c ∷ cs) = if stop c then false else without stop cs

stopped : (b rest : Bool) → b ≡ true → (if b then false else rest) ≡ false
stopped true rest h = refl
stopped false rest h = cc

going : (b rest : Bool) → b ≡ false → (if b then false else rest) ≡ rest
going true rest h = cc
going false rest h = refl

without-IsWithout :
    (stop : ℕ → Bool) (text : List ℕ) → without stop text ≡ true → IsWithout stop text
without-IsWithout stop [] h = tt
without-IsWithout stop (c ∷ cs) h = elim (Bool-cases (stop c)) [
  | inl e ↦ cc (stopped (stop c) (without stop cs) e)
  | inr e ↦ (e, without-IsWithout stop cs (sym (going (stop c) (without stop cs) e) ∙ h))
]

an_address-IsPrintable : IsPrintable true (address_components an_address)
unfolding is_scheme
an_address-IsPrintable = record {
  scheme = refl;
  userinfo = without-IsWithout ends_part (user_me ++ (b':' ∷ password_text)) refl;
  host = without-IsWithout ends_part host_six refl;
  port = without-IsWithout ends_part port_9088 refl;
  delimited = without-IsWithout (λ c. c == b']') host_six refl;
  path = without-IsWithout ends_path database_stores refl;
  relative = refl;
  query = without-IsWithout ends_query (pairs_text some_options) refl;
}

options-All : All (λ (p : Pair). IsPair p) some_options
options-All = (
  (
    without-IsWithout (λ c. c == b'&') server_key refl,
    without-IsWithout (λ c. c == b'=') server_key refl,
    without-IsWithout (λ c. c == b'&') server_srv refl,
  ),
  tt,
)

an_address-IsAddress : IsAddress true an_address
an_address-IsAddress = record {
  printable = an_address-IsPrintable;
  user = without-IsWithout (λ c. c == b':') user_me refl;
  userinfo = omega arith;
  host = (refl, omega arith);
  port = (refl, omega arith);
  database = (refl, omega arith);
  pairs = options-All;
  count = omega arith;
  query = omega arith;
}

the_server : find_query_value (map pair_entry some_options) server_key ≡ some server_srv
unfolding find_query_value url_decode decode_bytes next_byte c_string
the_server = refl

connect_uri-print_uri_example :
    connect_uri a_system accept create (print_uri true (address_components an_address)) none none
    ≡ (create, Status.ok)
connect_uri-print_uri_example =
    connect_uri-print_uri a_system accept create true an_address server_srv none none refl
      an_address-IsAddress the_server

parse-print_uri_example :
    parse_uri_components (print_uri true (address_components an_address))
    ≡ some (address_components an_address)
parse-print_uri_example =
    parse-print_uri true (address_components an_address) an_address-IsPrintable

password-Encodes : Encodes password_text password_bytes
password-Encodes = plain b'p' refl refl (escape b'4' b'0' refl refl (plain b's' refl refl nothing))

url_decode-Encodes_example : url_decode password_text 256 ≡ password_bytes
url_decode-Encodes_example =
    url_decode-Encodes password_text password_bytes 256 password-Encodes
      (without-IsWithout (λ c. c == 0) password_bytes refl)

parse_query_string-pairs_text_example :
    parse_query_string true (pairs_text some_options) 32 ≡ some (map pair_entry some_options)
parse_query_string-pairs_text_example = parse_query_string-pairs_text some_options 32 options-All

abbrev the_uri : List ℕ
the_uri = print_uri true (address_components an_address)

connect_uri-IsDecided_example :
    IsAnswered accept create the_uri none none
      (connect_uri a_system accept create the_uri none none)
connect_uri-IsDecided_example = connect_uri-IsDecided a_system accept create the_uri none none
