-- ===== src/Uri/Address.antt =====
-- sqli_connect_uri for the URI of an address over TCP (src/sqli_uri.c).
use Prim.Native.String.{String}
use libsqli.Prelude.{
  ℕ, zero, suc, ◌-◌, ◌≤◌, ◌≡◌, refl, ap, ◌∙◌, Bool, true, false, List, [], ◌∷◌, ◌++◌, Option, none,
  some, map, ◌==◌, if◌then◌else◌, take, length, arith,
}
use libsqli.Prelude.Bytes.{All}
use libsqli.Status.{Status}
use libsqli.Conn.{Conn}
use libsqli.Uri.{Components, url_decode, copy_range, split_at, parse_uri_components}
use libsqli.Uri.Query.{Entry, is_present, parse_query_string, find_query_value}
use libsqli.Uri.Words.{
  onsoctcp_scheme, onsocssl_scheme, server_key, client_locale_key, db_locale_key, ssl_ca_file_key,
  ssl_verify_peer_key, default_database,
}
use libsqli.Uri.Settings.{
  Params, System, Settings, connecting, need, present, present_of, or_else, text_or, verify_peer,
  detect_protocol, known_protocol, uri_credentials, decoded_credentials, tcp_params,
  protocol_params, uri_settings, apply_settings, connect_uri, Protocol,
}
use libsqli.Uri.Printing.{IsWithout, print_uri, IsPrintable, split_at-append}
use libsqli.Uri.Splitting.{parse-print_uri}
use libsqli.Uri.Entries.{Pair, pairs_text, pair_entry, IsPair, parse_query_string-pairs_text}

-- The parts of an address, the user, the password and the options as they are encoded.
pub record Address : Type 0 where
  pub ssl : Bool
  pub user : List ℕ
  pub password : List ℕ
  pub host : List ℕ
  pub port : List ℕ
  pub database : List ℕ
  pub options : List Pair

abbrev pub address_components : Address → Components
address_components a = record {
  scheme = if a.ssl then onsocssl_scheme else onsoctcp_scheme;
  userinfo = a.user ++ (b':' ∷ a.password);
  host = a.host;
  port = a.port;
  path = a.database;
  query = pairs_text a.options;
}

abbrev pub address_from :
    Address → List ℕ → List ℕ → List ℕ × List ℕ → Option (List ℕ) → Option (List ℕ) → Params
address_from a server database credentials username password = record {
  server = server;
  hostname = a.host;
  service = a.port;
  database = database;
  username = or_else (present_of username) (present credentials.0);
  password = or_else (present_of password) (present credentials.1);
  client_locale = find_query_value (map pair_entry a.options) client_locale_key;
  db_locale = find_query_value (map pair_entry a.options) db_locale_key;
  ssl_enable = a.ssl;
  ssl_verify_peer = verify_peer (find_query_value (map pair_entry a.options) ssl_verify_peer_key);
  ssl_ca_file = find_query_value (map pair_entry a.options) ssl_ca_file_key;
}

-- The parameters that the address asks for, where the caller names credentials of its own or none.
abbrev pub address_params : Address → List ℕ → Option (List ℕ) → Option (List ℕ) → Params
address_params a server username password =
    address_from a server a.database (url_decode a.user 256, url_decode a.password 256) username
      password

-- Every part fits the buffer that it is copied to, and those that are required are there.
pub record IsAddress (bracketed : Bool) (a : Address) : Type 0 where
  pub printable : IsPrintable bracketed (address_components a)
  pub user : IsWithout (λ c. c == b':') a.user
  pub userinfo : length (a.user ++ (b':' ∷ a.password)) ≤ 255
  pub host : (is_present a.host ≡ true) × (length a.host ≤ 255)
  pub port : (is_present a.port ≡ true) × (length a.port ≤ 15)
  pub database : (is_present a.database ≡ true) × (length a.database ≤ 255)
  pub pairs : All IsPair a.options
  pub count : length a.options ≤ 32
  pub query : length (pairs_text a.options) ≤ 1023

given_need :
    {A : Type 0} (o : Option A) (a : A) (status : Status) (msg : String) (k : A → Settings)
    → o ≡ some a
    → need o status msg k ≡ k a
given_need none a status msg k h = cc
given_need (some b) a status msg k h = let same : b ≡ a = cc in ap k same

take_all : {A : Type 0} (n : ℕ) (t : List A) → length t ≤ n → take n t ≡ t
take_all zero [] h = refl
take_all zero (c ∷ cs) h = absurd (omega (arith, h))
take_all (suc n) [] h = refl
take_all (suc n) (c ∷ cs) h = ap (◌∷◌ c) (take_all n cs (omega (arith, h)))

copy_all : (t : List ℕ) (n : ℕ) → length t ≤ n - 1 → copy_range t n ≡ t
unfolding copy_range
copy_all t n h = take_all (n - 1) t h

present_lem : (t : List ℕ) → is_present t ≡ true → present t ≡ some t
present_lem [] h = cc
present_lem (c ∷ cs) h = refl

copied :
    (t : List ℕ) (n : ℕ)
    → is_present t ≡ true
    → length t ≤ n - 1
    → present (copy_range t n) ≡ some t
copied t n h k = ap present (copy_all t n k) ∙ present_lem t h

credentials_lem :
    (user password : List ℕ)
    → IsWithout (λ c. c == b':') user
    → length (user ++ (b':' ∷ password)) ≤ 255
    → uri_credentials (user ++ (b':' ∷ password)) ≡ (url_decode user 256, url_decode password 256)
unfolding uri_credentials
credentials_lem user password h k =
    ap (λ (t : List ℕ). decoded_credentials t (split_at b':' t)) (copy_all _ 256 k)
    ∙ ap (decoded_credentials (user ++ (b':' ∷ password))) (split_at-append b':' user password h)

abbrev tcp_protocol : Bool → Protocol
tcp_protocol ssl = if ssl then Protocol.onsocssl else Protocol.onsoctcp

detected :
    (ssl : Bool)
    → known_protocol
        (detect_protocol (copy_range (if ssl then onsocssl_scheme else onsoctcp_scheme) 64))
      ≡ some (tcp_protocol ssl)
unfolding detect_protocol copy_range
detected true = refl
detected false = refl

parsed :
    (memory : Bool) (a : Address)
    → memory ≡ true
    → All IsPair a.options
    → length a.options ≤ 32
    → length (pairs_text a.options) ≤ 1023
    → parse_query_string memory (copy_range (pairs_text a.options) 1024) 32
      ≡ some (map pair_entry a.options)
parsed memory a m h k l =
    ap (λ (t : List ℕ). parse_query_string memory t 32) (copy_all (pairs_text a.options) 1024 l)
    ∙ ap (λ (b : Bool). parse_query_string b (pairs_text a.options) 32) m
    ∙ parse_query_string-pairs_text a.options 32 h
    ∙ ap (λ (ps : List Pair). some (map pair_entry ps)) (take_all 32 a.options k)

tcp_lem :
    (bracketed : Bool) (a : Address) (es : List Entry) (p : Params)
    → IsAddress bracketed a
    → tcp_params a.ssl (address_components a) es p
      ≡ connecting (record p {
        hostname = a.host;
        service = a.port;
        ssl_enable = a.ssl;
        ssl_verify_peer = verify_peer (find_query_value es ssl_verify_peer_key);
        ssl_ca_file = find_query_value es ssl_ca_file_key;
      })
unfolding tcp_params
tcp_lem bracketed a es p h =
    given_need (present (copy_range a.host 256)) a.host _ _ _ (copied a.host 256 h.host.0 h.host.1)
    ∙ given_need (present (copy_range a.port 16)) a.port _ _ _ (copied a.port 16 h.port.0 h.port.1)

protocol_lem :
    (ssl : Bool) (sys : System) (comps : Components) (es : List Entry) (p : Params)
    → protocol_params (tcp_protocol ssl) sys comps es p ≡ tcp_params ssl comps es p
protocol_lem true sys comps es p = refl
protocol_lem false sys comps es p = refl

settings_lem :
    (sys : System) (bracketed : Bool) (a : Address) (server : List ℕ)
    (username password : Option (List ℕ))
    → sys.memory ≡ true
    → IsAddress bracketed a
    → find_query_value (map pair_entry a.options) server_key ≡ some server
    → uri_settings sys (print_uri bracketed (address_components a)) username password
      ≡ connecting (address_params a server username password)
unfolding uri_settings
settings_lem sys bracketed a server username password m h found =
    let comps = address_components a in
    let es = map pair_entry a.options in
    given_need (parse_uri_components (print_uri bracketed comps)) comps _ _ _
      (parse-print_uri bracketed comps h.printable)
    ∙ given_need (known_protocol (detect_protocol (copy_range comps.scheme 64)))
        (tcp_protocol a.ssl) _ _ _ (detected a.ssl)
    ∙ given_need (parse_query_string sys.memory (copy_range comps.query 1024) 32) es _ _ _
        (parsed sys.memory a m h.pairs h.count h.query)
    ∙ given_need (find_query_value es server_key) server _ _ _ found
    ∙ protocol_lem a.ssl sys comps es _
    ∙ tcp_lem bracketed a es _ h
    ∙ ap
        (λ (d : Option (List ℕ)). connecting (
          address_from a server (text_or d default_database) (uri_credentials comps.userinfo)
            username password))
        (copied a.database 256 h.database.0 h.database.1)
    ∙ ap
        (λ (cs : List ℕ × List ℕ).
          connecting (address_from a server a.database cs username password))
        (credentials_lem a.user a.password h.user h.userinfo)

begins_present :
    (ssl : Bool) (rest : List ℕ)
    → is_present ((if ssl then onsocssl_scheme else onsoctcp_scheme) ++ rest) ≡ true
begins_present true rest = refl
begins_present false rest = refl

connect_uri-settings :
    (sys : System) (connect : Params → Conn → Conn × Status) (c : Conn) (uri : List ℕ)
    (username password : Option (List ℕ))
    → is_present uri ≡ true
    → connect_uri sys connect c uri username password
      ≡ apply_settings connect c (uri_settings sys uri username password)
unfolding connect_uri
connect_uri-settings sys connect c [] username password h = cc
connect_uri-settings sys connect c (ch ∷ cs) username password h = refl

-- Where malloc gives memory, sqli_connect_uri of the URI of an address over TCP (every part fits its
-- buffer and has no character that ends it, the host in brackets or not, at most 32 options, one of
-- them the server) is sqli_connect with the parts of the address: the user and the password are
-- those of the caller where it names some, and the decoded ones of the URI otherwise.
pub connect_uri-print_uri :
    (sys : System) (connect : Params → Conn → Conn × Status) (c : Conn) (bracketed : Bool)
    (a : Address) (server : List ℕ) (username password : Option (List ℕ))
    → sys.memory ≡ true
    → IsAddress bracketed a
    → find_query_value (map pair_entry a.options) server_key ≡ some server
    → connect_uri sys connect c (print_uri bracketed (address_components a)) username password
      ≡ connect (address_params a server username password) c
connect_uri-print_uri sys connect c bracketed a server username password m h found =
    connect_uri-settings sys connect c (print_uri bracketed (address_components a)) username
      password (begins_present a.ssl _)
    ∙ ap (apply_settings connect c)
        (settings_lem sys bracketed a server username password m h found)
