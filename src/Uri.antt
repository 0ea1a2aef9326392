-- ===== src/Uri.antt =====
-- The connection URIs of src/sqli_uri.c. A text is the list of its bytes, which is what C reads up to
-- the end mark; a component that is absent is the empty text.
pub mod Query
pub mod Words
pub mod Settings
pub mod Decoding
pub mod Printing
pub mod Splitting
pub mod Entries
pub mod Sizes
pub mod Safety
pub mod Address
mod Examples
use libsqli.Prelude.{
  ℕ, zero, suc, ◌+◌, ◌-◌, ◌*◌, Bool, true, false, ◌&&◌, ◌||◌, not, List, [], ◌∷◌, Option, none,
  some, leb, ◌==◌, if◌then◌else◌, take, drop,
}

abbrev pub is_hex : ℕ → Bool
is_hex c = (leb b'0' c && leb c b'9') || (leb b'a' c && leb c b'f') || (leb b'A' c && leb c b'F')

-- strtol of one hexadecimal digit
abbrev pub hex_value : ℕ → ℕ
hex_value c = if leb c b'9' then c - b'0' else if leb c b'F' then c - b'A' + 10 else c - b'a' + 10

abbrev pub plain_byte : ℕ → ℕ
plain_byte c = if c == b'+' then b' ' else c

-- The byte that a character and those behind it stand for, and the text that is left.
unfoldable pub next_byte : ℕ → List ℕ → ℕ × List ℕ
next_byte c [] = (plain_byte c, [])
next_byte c (a ∷ []) = (plain_byte c, a ∷ [])
next_byte c (a ∷ b ∷ cs) =
    if c == b'%' && is_hex a && is_hex b
    then (hex_value a * 16 + hex_value b, cs)
    else (plain_byte c, a ∷ b ∷ cs)

-- The loop of url_decode, with room for `n` bytes.
unfoldable pub decode_bytes : ℕ → List ℕ → List ℕ
decode_bytes zero text = []
decode_bytes (suc n) [] = []
decode_bytes (suc n) (c ∷ cs) = let (byte, rest) = next_byte c cs in byte ∷ decode_bytes n rest

-- A buffer read as a C string.
unfoldable pub c_string : List ℕ → List ℕ
c_string [] = []
c_string (c ∷ cs) = let rest = c_string cs in if c == 0 then [] else c ∷ rest

unfoldable pub url_decode : List ℕ → ℕ → List ℕ
url_decode src dst_sz = c_string (decode_bytes (dst_sz - 1) src)

unfoldable pub copy_range : List ℕ → ℕ → List ℕ
copy_range src dst_sz = take (dst_sz - 1) src

-- uri_components_t
pub record Components : Type 0 where
  pub scheme : List ℕ
  pub userinfo : List ℕ
  pub host : List ℕ
  pub port : List ℕ
  pub path : List ℕ
  pub query : List ℕ

-- The text in front of the first character that stops, and the rest.
unfoldable pub until : (ℕ → Bool) → List ℕ → List ℕ × List ℕ
until stop [] = ([], [])
until stop (c ∷ cs) =
    let (before, rest) = until stop cs in if stop c then ([], c ∷ cs) else (c ∷ before, rest)

abbrev pub prepend : ℕ → Option (List ℕ × List ℕ) → Option (List ℕ × List ℕ)
prepend c none = none
prepend c (some (before, behind)) = some (c ∷ before, behind)

-- The texts in front of and behind the first `ch`, which memchr or strchr finds.
unfoldable pub split_at : ℕ → List ℕ → Option (List ℕ × List ℕ)
split_at ch [] = none
split_at ch (c ∷ cs) =
    let later = prepend c (split_at ch cs) in if c == ch then some ([], cs) else later

unfoldable pub starts_separator : List ℕ → Bool
starts_separator [] = false
starts_separator (a ∷ []) = false
starts_separator (a ∷ b ∷ []) = false
starts_separator (a ∷ b ∷ c ∷ cs) = a == b':' && b == b'/' && c == b'/'

-- The texts in front of and behind the first "://".
unfoldable pub split_scheme : List ℕ → Option (List ℕ × List ℕ)
split_scheme [] = none
split_scheme (c ∷ cs) =
    let later = prepend c (split_scheme cs) in
    if starts_separator (c ∷ cs) then some ([], drop 2 cs) else later

abbrev pub is_alpha : ℕ → Bool
is_alpha c = (leb b'a' c && leb c b'z') || (leb b'A' c && leb c b'Z')

abbrev pub is_scheme_byte : ℕ → Bool
is_scheme_byte c = is_alpha c || (leb b'0' c && leb c b'9') || c == b'+' || c == b'-' || c == b'.'

abbrev pub all_scheme_bytes : List ℕ → Bool
all_scheme_bytes [] = true
all_scheme_bytes (c ∷ cs) = is_scheme_byte c && all_scheme_bytes cs

unfoldable pub is_scheme : List ℕ → Bool
is_scheme [] = false
is_scheme (c ∷ cs) = is_alpha c && all_scheme_bytes cs

abbrev pub ends_authority : ℕ → Bool
ends_authority c = c == b'/' || c == b'?' || c == b'#'

abbrev pub ends_path : ℕ → Bool
ends_path c = c == b'?' || c == b'#'

abbrev pub ends_query : ℕ → Bool
ends_query c = c == b'#'

abbrev pub userinfo_of : List ℕ → Option (List ℕ × List ℕ) → List ℕ × List ℕ
userinfo_of authority none = ([], authority)
userinfo_of authority (some parts) = parts

abbrev pub port_of : List ℕ → List ℕ
port_of [] = []
port_of (c ∷ cs) = if c == b':' then cs else []

abbrev pub bracketed_host : Option (List ℕ × List ℕ) → Option (List ℕ × List ℕ)
bracketed_host none = none
bracketed_host (some (host, behind)) = some (host, port_of behind)

abbrev pub plain_host : List ℕ → Option (List ℕ × List ℕ) → List ℕ × List ℕ
plain_host text none = (text, [])
plain_host text (some parts) = parts

unfoldable pub split_host : List ℕ → Option (List ℕ × List ℕ)
split_host [] = some ([], [])
split_host (c ∷ cs) =
    if c == b'['
    then bracketed_host (split_at b']' cs)
    else some (plain_host (c ∷ cs) (split_at b':' (c ∷ cs)))

unfoldable pub skip_slashes : List ℕ → List ℕ
skip_slashes [] = []
skip_slashes (c ∷ cs) = let rest = skip_slashes cs in if c == b'/' then rest else c ∷ cs

unfoldable pub split_path : List ℕ → List ℕ × List ℕ
split_path [] = ([], [])
split_path (c ∷ cs) = if c == b'/' then until ends_path (skip_slashes cs) else ([], c ∷ cs)

unfoldable pub query_of : List ℕ → List ℕ
query_of [] = []
query_of (c ∷ cs) = if c == b'?' then (until ends_query cs).0 else []

-- What follows the authority.
abbrev pub tail_components : List ℕ → List ℕ → List ℕ → Option (List ℕ × List ℕ) → Option Components
tail_components scheme userinfo tail none = none
tail_components scheme userinfo tail (some (host, port)) = some (record {
  scheme = scheme;
  userinfo = userinfo;
  host = host;
  port = port;
  path = (split_path tail).0;
  query = query_of (split_path tail).1;
})

unfoldable pub components_of : List ℕ → List ℕ → Option Components
components_of scheme text =
    let (authority, tail) = until ends_authority text in
    let (userinfo, host_port) = userinfo_of authority (split_at b'@' authority) in
    tail_components scheme userinfo tail (split_host host_port)

abbrev pub checked_components : Option (List ℕ × List ℕ) → Option Components
checked_components none = none
checked_components (some (scheme, text)) =
    if is_scheme scheme then components_of scheme text else none

unfoldable pub parse_uri_components : List ℕ → Option Components
parse_uri_components uri = checked_components (split_scheme uri)
