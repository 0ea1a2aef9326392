-- ===== src/Uri/Safety.antt =====
-- What sqli_connect_uri hands to sqli_connect (src/sqli_uri.c).
use Prim.Native.String.{String}
use mathlib.Core.Path.{subst}
use libsqli.Prelude.{
  ℕ, ◌≤◌, ◌≡◌, refl, Bool, true, false, List, [], ◌∷◌, Option, none, some, length, ◌⊎◌, inl, inr,
  arith, pick,
}
use libsqli.Prelude.Bytes.{All}
use libsqli.Status.{Status}
use libsqli.Conn.{Conn, set_error}
use libsqli.Uri.{Components, copy_range, parse_uri_components}
use libsqli.Uri.Query.{Entry, parse_query_string, is_present, is_same, find_query_value}
use libsqli.Uri.Words.{server_key, onsoctcp_scheme, onsocssl_scheme, onipcstr_scheme}
use libsqli.Uri.Settings.{
  Protocol, detect_protocol, Params, System, Settings, refused, connecting, need, present,
  present_of, cut_name, ipc_params, tcp_params, protocol_params, known_protocol, uri_settings,
  apply_settings, connect_uri,
}
use libsqli.Uri.Sizes.{
  IsSmall, IsFitting, parsed-IsSmall, find_query_value-IsFitting, present_copy, database-IsFitting,
  or_else-first, service-present, length-service,
}

-- Parameters for a connection over TCP, with TLS or without: a host and a port in their buffers'
-- sizes, and the password that the caller names.
pub record OverTcp (ssl : Bool) (password : Option (List ℕ)) (p : Params) : Type 0 where
  host : (is_present p.hostname ≡ true) × (length p.hostname ≤ 255)
  port : length p.service ≤ 15
  pass : (x : List ℕ) → present_of password ≡ some x → p.password ≡ some x
  tls : p.ssl_enable ≡ ssl

-- Parameters for a connection over a local socket: its path in the buffer's size, and no host, no
-- password and no TLS.
pub record OverSocket (p : Params) : Type 0 where
  path : length p.service ≤ 511
  hostless : p.hostname ≡ []
  passwordless : p.password ≡ none
  plain : p.ssl_enable ≡ false

-- What the parameters promise for a scheme: a server, a database and a service that are not empty,
-- the first two in their buffers' sizes, the user that the caller names, and what the scheme asks for.
pub record IsAccepted (scheme : List ℕ) (username password : Option (List ℕ)) (p : Params)
    : Type 0 where
  pub server : (is_present p.server ≡ true) × (length p.server ≤ 255)
  pub database : (is_present p.database ≡ true) × (length p.database ≤ 255)
  pub service : is_present p.service ≡ true
  pub user : (x : List ℕ) → present_of username ≡ some x → p.username ≡ some x
  pub peer :
      ((scheme ≡ onsoctcp_scheme) × OverTcp false password p)
      ⊎ ((scheme ≡ onsocssl_scheme) × OverTcp true password p)
      ⊎ ((scheme ≡ onipcstr_scheme) × OverSocket p)

-- A refusal has one of two statuses, and parameters are accepted for the scheme of the URI.
abbrev pub IsDecided : List ℕ → Option (List ℕ) → Option (List ℕ) → Settings → Type 0
IsDecided uri username password (refused status msg) =
    (status ≡ Status.invalid_state) ⊎ (status ≡ Status.alloc_fail)
IsDecided uri username password (connecting p) =
    (comps : Components) × (parse_uri_components uri ≡ some comps)
    × IsAccepted (copy_range comps.scheme 64) username password p

need_lem :
    {A : Type 0} (Q : Settings → Type 0) (o : Option A) (status : Status) (msg : String)
    (k : A → Settings)
    → Q (refused status msg)
    → ((a : A) → o ≡ some a → Q (k a))
    → Q (need o status msg k)
need_lem Q none status msg k r h = r
need_lem Q (some a) status msg k r h = h a refl

-- What holds of the parameters before the protocol is looked at.
record IsCommon (username password : Option (List ℕ)) (p : Params) : Type 0 where
  server : IsFitting p.server
  database : IsFitting p.database
  user : (x : List ℕ) → present_of username ≡ some x → p.username ≡ some x
  pass : (x : List ℕ) → present_of password ≡ some x → p.password ≡ some x
  bare : (p.hostname ≡ []) × (p.ssl_enable ≡ false)

same_text : (a b : List ℕ) → is_same a b ≡ true → a ≡ b
same_text [] [] h = refl
same_text [] (d ∷ ds) h = cc
same_text (c ∷ cs) [] h = cc
same_text (c ∷ cs) (d ∷ ds) h =
    let heads : c ≡ d = ground (arith, h) in
    let tails : is_same cs ds ≡ true = ground (arith, h) in
    let behind : cs ≡ ds = same_text cs ds tails in cc

-- The scheme that means a protocol.
abbrev HasScheme : Protocol → List ℕ → Type 0
HasScheme Protocol.unknown scheme = ⊥
HasScheme Protocol.onsoctcp scheme = scheme ≡ onsoctcp_scheme
HasScheme Protocol.onsocssl scheme = scheme ≡ onsocssl_scheme
HasScheme Protocol.onipcstr scheme = scheme ≡ onipcstr_scheme

detected_scheme :
    (scheme : List ℕ) (protocol : Protocol)
    → known_protocol (detect_protocol scheme) ≡ some protocol
    → HasScheme protocol scheme
unfolding detect_protocol
detected_scheme scheme protocol =
    let P = λ (r : Protocol). known_protocol r ≡ some protocol → HasScheme protocol scheme in
    let is : (q : Protocol) → HasScheme q scheme → q ≡ protocol → HasScheme protocol scheme =
      λ q h e. subst (λ (r : Protocol). HasScheme r scheme) e h in
    pick P (is_same scheme onsoctcp_scheme) _ _
      (λ e found. is Protocol.onsoctcp (same_text scheme onsoctcp_scheme e) cc)
      λ _.
        pick P (is_same scheme onsocssl_scheme) _ _
          (λ e found. is Protocol.onsocssl (same_text scheme onsocssl_scheme e) cc)
          λ _.
            pick P (is_same scheme onipcstr_scheme) _ _
              (λ e found. is Protocol.onipcstr (same_text scheme onipcstr_scheme e) cc)
              (λ _ found. cc)

ipc-IsAccepted :
    (scheme : List ℕ) (username password : Option (List ℕ)) (sys : System) (es : List Entry)
    (p : Params)
    → IsCommon username password p
    → All IsSmall es
    → scheme ≡ onipcstr_scheme
    → IsAccepted scheme username password (ipc_params sys es p)
unfolding ipc_params
ipc-IsAccepted scheme username password sys es p h s named = record {
  server = h.server;
  database = h.database;
  service = service-present sys es p.server s;
  user = λ x e. or_else-first p.username (cut_name sys.user_name) x (h.user x e);
  peer = inr (
      inr (
        named,
        record {
          path = length-service sys es p.server s;
          hostless = h.bare.0;
          passwordless = refl;
          plain = h.bare.1;
        },
      ));
}

-- What a connection over TCP needs: a host and a port, or it is refused.
tcp_lem :
    (Q : Settings → Type 0) (username password : Option (List ℕ)) (ssl : Bool) (comps : Components)
    (es : List Entry) (p : Params)
    → IsCommon username password p
    → ((status : Status) (msg : String) → status ≡ Status.invalid_state → Q (refused status msg))
    → ((q : Params)
        → IsFitting q.server
        → IsFitting q.database
        → is_present q.service ≡ true
        → ((x : List ℕ) → present_of username ≡ some x → q.username ≡ some x)
        → OverTcp ssl password q
        → Q (connecting q))
    → Q (tcp_params ssl comps es p)
unfolding tcp_params
tcp_lem Q username password ssl comps es p h refuses accepts =
    need_lem Q (present (copy_range comps.host 256)) _ _ _ (refuses _ _ refl) λ host e.
      need_lem Q (present (copy_range comps.port 16)) _ _ _ (refuses _ _ refl) λ port e'.
        let (a', b') = present_copy comps.port port 16 e' in
        accepts _ h.server h.database a' h.user (record {
          host = present_copy comps.host host 256 e;
          port = b';
          pass = h.pass;
          tls = refl;
        })

protocol-IsDecided :
    (uri : List ℕ) (username password : Option (List ℕ)) (protocol : Protocol) (sys : System)
    (comps : Components) (es : List Entry) (p : Params)
    → parse_uri_components uri ≡ some comps
    → HasScheme protocol (copy_range comps.scheme 64)
    → IsCommon username password p
    → All IsSmall es
    → IsDecided uri username password (protocol_params protocol sys comps es p)
protocol-IsDecided uri username password Protocol.unknown sys comps es p split named h s = inl refl
protocol-IsDecided uri username password Protocol.onsoctcp sys comps es p split named h s =
    tcp_lem (IsDecided uri username password) username password false comps es p h
      (λ status msg e. inl e)
      λ q server database service user over. (
        comps,
        split,
        record {
          server = server;
          database = database;
          service = service;
          user = user;
          peer = inl (named, over);
        },
      )
protocol-IsDecided uri username password Protocol.onsocssl sys comps es p split named h s =
    tcp_lem (IsDecided uri username password) username password true comps es p h
      (λ status msg e. inl e)
      λ q server database service user over. (
        comps,
        split,
        record {
          server = server;
          database = database;
          service = service;
          user = user;
          peer = inr (inl (named, over));
        },
      )
protocol-IsDecided uri username password Protocol.onipcstr sys comps es p split named h s =
    (comps, split, ipc-IsAccepted _ username password sys es p h s named)

uri_settings-IsDecided :
    (sys : System) (uri : List ℕ) (username password : Option (List ℕ))
    → IsDecided uri username password (uri_settings sys uri username password)
unfolding uri_settings
uri_settings-IsDecided sys uri username password =
    let Q = IsDecided uri username password in
    need_lem Q (parse_uri_components uri) _ _ _ (inl refl) λ comps split.
      let scheme = copy_range comps.scheme 64 in
      need_lem Q (known_protocol (detect_protocol scheme)) _ _ _ (inl refl) λ protocol known.
        need_lem Q (parse_query_string sys.memory (copy_range comps.query 1024) 32) _ _ _ (inr refl)
          λ es parsed. need_lem Q (find_query_value es server_key) _ _ _ (inl refl) λ server found.
            let small = parsed-IsSmall sys.memory (copy_range comps.query 1024) 32 es parsed in
            protocol-IsDecided uri username password protocol sys comps es _ split
              (detected_scheme scheme protocol known)
              (record {
                server = find_query_value-IsFitting es server_key server small found;
                database = database-IsFitting comps.path;
                user = λ x e. or_else-first (present_of username) _ x e;
                pass = λ x e. or_else-first (present_of password) _ x e;
                bare = (refl, refl);
              })
              small

-- sqli_connect is called for parameters that are accepted, or an error is stored.
abbrev pub IsAnswered :
    (Params → Conn → Conn × Status)
    → Conn
    → List ℕ
    → Option (List ℕ)
    → Option (List ℕ)
    → Conn × Status
    → Type 0
IsAnswered connect c uri username password answer =
    ((p : Params) × IsDecided uri username password (connecting p) × (answer ≡ connect p c))
    ⊎ ((msg : String) × (status : Status) × (answer ≡ (set_error msg c, status))
        × ((status ≡ Status.invalid_state) ⊎ (status ≡ Status.alloc_fail)))

apply_lem :
    (uri : List ℕ) (username password : Option (List ℕ)) (connect : Params → Conn → Conn × Status)
    (c : Conn) (settings : Settings)
    → IsDecided uri username password settings
    → IsAnswered connect c uri username password (apply_settings connect c settings)
apply_lem uri username password connect c (refused status msg) h = inr (msg, status, refl, h)
apply_lem uri username password connect c (connecting p) h = inl (p, h, refl)

-- Whatever the URI, the credentials, the system and sqli_connect are, sqli_connect_uri either gives
-- the answer of sqli_connect for parameters that keep their promise, or stores an error in the
-- connection and gives SQLI_INVALID_STATE or SQLI_ALLOC_FAIL. The promise: a server, a database and a
-- service that are not empty, and the user that the caller names, each but the user in its buffer's
-- size (255, 255, 15 for a port and 511 for the path of a socket); where the scheme of the URI is
-- informix+onsoctcp or informix+onsocssl, a host of at most 255 bytes as well, the password that the caller names, and
-- TLS exactly for the second; where it is informix+onipcstr, no host, no password and no TLS. No
-- other scheme reaches sqli_connect.
pub connect_uri-IsDecided :
    (sys : System) (connect : Params → Conn → Conn × Status) (c : Conn) (uri : List ℕ)
    (username password : Option (List ℕ))
    → IsAnswered connect c uri username password (connect_uri sys connect c uri username password)
unfolding connect_uri
connect_uri-IsDecided sys connect c [] username password =
    inr ("uri and conn are required", Status.invalid_state, refl, inl refl)
connect_uri-IsDecided sys connect c (ch ∷ cs) username password =
    apply_lem (ch ∷ cs) username password connect c (uri_settings sys (ch ∷ cs) username password)
      (uri_settings-IsDecided sys (ch ∷ cs) username password)
