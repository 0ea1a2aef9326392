-- ===== src/Uri/Settings.antt =====
-- What sqli_connect_uri makes of a URI and of the credentials that it is given (src/sqli_uri.c), and
-- the call of sqli_connect behind it.
use libsqli.Prelude.{
  ℕ, ◌+◌, Bool, true, false, ◌&&◌, ◌||◌, List, [], ◌∷◌, ◌++◌, Option, none, some, map, leb,
  if◌then◌else◌, take,
}
use Prim.Native.String.{String}
use libsqli.Status.{Status}
use libsqli.Conn.{Conn, set_error}
use libsqli.Uri.{Components, url_decode, copy_range, split_at, parse_uri_components}
use libsqli.Uri.Query.{Entry, parse_query_string, is_same, find_query_value}
use libsqli.Uri.Words.{
  onsoctcp_scheme, onsocssl_scheme, onipcstr_scheme, default_database, server_key,
  client_locale_key, db_locale_key, socket_path_key, ssl_ca_file_key, ssl_verify_peer_key,
  str_suffix, informixtmp_directory, infosock_prefix, true_text, yes_text, one_text,
}

-- uri_protocol
pub data Protocol : Type 0 where
  unknown onsoctcp onsocssl onipcstr : Protocol

unfoldable pub detect_protocol : List ℕ → Protocol
detect_protocol scheme =
    if is_same scheme onsoctcp_scheme
    then Protocol.onsoctcp
    else if is_same scheme onsocssl_scheme
    then Protocol.onsocssl
    else if is_same scheme onipcstr_scheme
    then Protocol.onipcstr
    else Protocol.unknown

-- sqli_connect_params; a pointer may be NULL where the field is an option.
pub record Params : Type 0 where
  pub server : List ℕ
  pub hostname : List ℕ
  pub service : List ℕ
  pub database : List ℕ
  pub username : Option (List ℕ)
  pub password : Option (List ℕ)
  pub client_locale : Option (List ℕ)
  pub db_locale : Option (List ℕ)
  pub ssl_enable : Bool
  pub ssl_verify_peer : Bool
  pub ssl_ca_file : Option (List ℕ)

-- What the process asks its system for: whether malloc gives memory, the variable INFORMIXTMP,
-- whether /INFORMIXTMP can be reached, and the name of the user.
pub record System : Type 0 where
  pub memory : Bool
  pub informixtmp : Option (List ℕ)
  pub has_directory : Bool
  pub user_name : Option (List ℕ)

-- A refusal with its status and message, or the parameters for sqli_connect.
pub data Settings : Type 0 where
  refused : Status → String → Settings
  connecting : Params → Settings

abbrev pub need : {A : Type 0} → Option A → Status → String → (A → Settings) → Settings
need none status msg k = refused status msg
need (some a) status msg k = k a

abbrev pub present : List ℕ → Option (List ℕ)
present [] = none
present (c ∷ cs) = some (c ∷ cs)

abbrev pub present_of : Option (List ℕ) → Option (List ℕ)
present_of none = none
present_of (some text) = present text

abbrev pub or_else : Option (List ℕ) → Option (List ℕ) → Option (List ℕ)
or_else none b = b
or_else (some a) b = some a

abbrev pub text_or : Option (List ℕ) → List ℕ → List ℕ
text_or none d = d
text_or (some a) d = a

abbrev pub decoded_credentials : List ℕ → Option (List ℕ × List ℕ) → List ℕ × List ℕ
decoded_credentials userinfo none = (url_decode userinfo 256, [])
decoded_credentials userinfo (some (user, pass)) = (url_decode user 256, url_decode pass 256)

-- decoded_uri_user and decoded_uri_pass
unfoldable pub uri_credentials : List ℕ → List ℕ × List ℕ
uri_credentials userinfo =
    let copied = copy_range userinfo 256 in decoded_credentials copied (split_at b':' copied)

abbrev pub lower : ℕ → ℕ
lower c = if leb b'A' c && leb c b'Z' then c + 32 else c

unfoldable pub is_yes : List ℕ → Bool
is_yes v = is_same (map lower v) true_text || is_same (map lower v) yes_text || is_same v one_text

abbrev pub verify_peer : Option (List ℕ) → Bool
verify_peer none = true
verify_peer (some v) = is_yes v

-- The path of the socket of a server, in INFORMIXTMP where it is set.
abbrev pub socket_directory : Option (List ℕ) → Bool → List ℕ → List ℕ
socket_directory (some directory) has_directory server =
    directory ++ (b'/' ∷ (server ++ str_suffix))
socket_directory none has_directory server =
    if has_directory
    then informixtmp_directory ++ (server ++ str_suffix)
    else infosock_prefix ++ server

abbrev pub cut_name : Option (List ℕ) → Option (List ℕ)
cut_name none = none
cut_name (some name) = some (take 255 name)

-- The parameters that do not depend on the protocol.
abbrev pub common_params :
    List ℕ → List ℕ → List ℕ × List ℕ → Option (List ℕ) → Option (List ℕ) → List Entry → Params
common_params server database credentials username password entries = record {
  server = server;
  hostname = [];
  service = [];
  database = database;
  username = or_else (present_of username) (present credentials.0);
  password = or_else (present_of password) (present credentials.1);
  client_locale = find_query_value entries client_locale_key;
  db_locale = find_query_value entries db_locale_key;
  ssl_enable = false;
  ssl_verify_peer = false;
  ssl_ca_file = none;
}

unfoldable pub ipc_params : System → List Entry → Params → Params
ipc_params sys entries p = record p {
  service =
      text_or (find_query_value entries socket_path_key)
        (take 511 (socket_directory (present_of sys.informixtmp) sys.has_directory p.server));
  username = or_else p.username (cut_name sys.user_name);
  password = none;
}

unfoldable pub tcp_params : Bool → Components → List Entry → Params → Settings
tcp_params ssl comps entries p =
    need (present (copy_range comps.host 256)) Status.invalid_state
      "hostname is required for onsoctcp/onsocssl protocol"
      λ host.
        need (present (copy_range comps.port 16)) Status.invalid_state
          "port is required for onsoctcp/onsocssl protocol"
          λ port. connecting (record p {
            hostname = host;
            service = port;
            ssl_enable = ssl;
            ssl_verify_peer = verify_peer (find_query_value entries ssl_verify_peer_key);
            ssl_ca_file = find_query_value entries ssl_ca_file_key;
          })

abbrev pub protocol_params : Protocol → System → Components → List Entry → Params → Settings
protocol_params Protocol.unknown sys comps entries p =
    refused Status.invalid_state "unsupported protocol"
protocol_params Protocol.onsoctcp sys comps entries p = tcp_params false comps entries p
protocol_params Protocol.onsocssl sys comps entries p = tcp_params true comps entries p
protocol_params Protocol.onipcstr sys comps entries p = connecting (ipc_params sys entries p)

abbrev pub known_protocol : Protocol → Option Protocol
known_protocol Protocol.unknown = none
known_protocol Protocol.onsoctcp = some Protocol.onsoctcp
known_protocol Protocol.onsocssl = some Protocol.onsocssl
known_protocol Protocol.onipcstr = some Protocol.onipcstr

-- sqli_connect_uri behind the test of an empty URI, up to the call of sqli_connect.
unfoldable pub uri_settings : System → List ℕ → Option (List ℕ) → Option (List ℕ) → Settings
uri_settings sys uri username password =
    need (parse_uri_components uri) Status.invalid_state "failed to parse connection URI" λ comps.
      need (known_protocol (detect_protocol (copy_range comps.scheme 64))) Status.invalid_state
        "unsupported URI scheme: use informix+onsoctcp, informix+onsocssl, or informix+onipcstr"
        λ protocol.
          need (parse_query_string sys.memory (copy_range comps.query 1024) 32) Status.alloc_fail
            "memory allocation failed for query parameters"
            λ entries.
              need (find_query_value entries server_key) Status.invalid_state
                "INFORMIXSERVER query parameter is mandatory"
                λ server. protocol_params protocol sys comps entries (
                  common_params server
                    (text_or (present (copy_range comps.path 256)) default_database)
                    (uri_credentials comps.userinfo) username password entries)

abbrev pub apply_settings : (Params → Conn → Conn × Status) → Conn → Settings → Conn × Status
apply_settings connect c (refused status msg) = (set_error msg c, status)
apply_settings connect c (connecting p) = connect p c

-- sqli_connect_uri: `connect` is sqli_connect.
unfoldable pub connect_uri :
    System
    → (Params → Conn → Conn × Status)
    → Conn
    → List ℕ
    → Option (List ℕ)
    → Option (List ℕ)
    → Conn × Status
connect_uri sys connect c [] username password =
    (set_error "uri and conn are required" c, Status.invalid_state)
connect_uri sys connect c (ch ∷ cs) username password =
    apply_settings connect c (uri_settings sys (ch ∷ cs) username password)
