-- ===== src/Uri/Printing.antt =====
-- Splitting a URI that was put together from its components (src/sqli_uri.c).
use libsqli.Prelude.{
  ℕ, ◌≡◌, refl, Bool, true, false, ◌&&◌, ◌||◌, List, [], ◌∷◌, ◌++◌, none, some, ◌==◌, arith,
}
use mathlib.Core.List.{append_assoc, append-nil}
use libsqli.Prelude.Bytes.{All}
use libsqli.Uri.{
  Components, until, split_at, split_scheme, starts_separator, is_alpha, is_scheme_byte,
  all_scheme_bytes, is_scheme, ends_authority, ends_path, ends_query, userinfo_of, split_host,
  skip_slashes, split_path, query_of,
}

-- No character of the text is `stop`.
abbrev pub IsWithout : (ℕ → Bool) → List ℕ → Type 0
IsWithout stop text = All (λ (c : ℕ). stop c ≡ false) text

pub until-append :
    (stop : ℕ → Bool) (text : List ℕ) (c : ℕ) (rest : List ℕ)
    → IsWithout stop text
    → stop c ≡ true
    → until stop (text ++ (c ∷ rest)) ≡ (text, c ∷ rest)
unfolding until
until-append stop [] c rest h k = rw k refl
until-append stop (x ∷ text) c rest (h, hs) k = rw (until-append stop text c rest hs k) (rw h refl)

until-all : (stop : ℕ → Bool) (text : List ℕ) → IsWithout stop text → until stop text ≡ (text, [])
unfolding until
until-all stop [] h = refl
until-all stop (x ∷ text) (h, hs) = rw (until-all stop text hs) (rw h refl)

pub split_at-append :
    (ch : ℕ) (text rest : List ℕ)
    → IsWithout (λ c. c == ch) text
    → split_at ch (text ++ (ch ∷ rest)) ≡ some (text, rest)
unfolding split_at
split_at-append ch [] rest h = let same : (ch == ch) ≡ true = ground arith in rw same refl
split_at-append ch (x ∷ text) rest (h, hs) = rw (split_at-append ch text rest hs) (rw h refl)

pub split_at-none :
    (ch : ℕ) (text : List ℕ) → IsWithout (λ c. c == ch) text → split_at ch text ≡ none
unfolding split_at
split_at-none ch [] h = refl
split_at-none ch (x ∷ text) (h, hs) = rw (split_at-none ch text hs) (rw h refl)

-- "://"
abbrev pub separator : List ℕ
separator = b':' ∷ b'/' ∷ b'/' ∷ []

no_separator : (c : ℕ) (text : List ℕ) → (c == b':') ≡ false → starts_separator (c ∷ text) ≡ false
unfolding starts_separator
no_separator c [] h = refl
no_separator c (a ∷ []) h = refl
no_separator c (a ∷ b ∷ text) h = rw h refl

pub split_scheme-append :
    (scheme text : List ℕ)
    → IsWithout (λ c. c == b':') scheme
    → split_scheme (scheme ++ (separator ++ text)) ≡ some (scheme, text)
unfolding split_scheme starts_separator
split_scheme-append [] text h = refl
split_scheme-append (c ∷ scheme) text (h, hs) =
    rw (no_separator c (scheme ++ (separator ++ text)) h)
      (rw (split_scheme-append scheme text hs) refl)

both : (a b : Bool) → (a && b) ≡ true → (a ≡ true) × (b ≡ true)
both true b h = (refl, h)
both false b h = cc

neither : (a b : Bool) → (a || b) ≡ false → (a ≡ false) × (b ≡ false)
neither true b h = cc
neither false b h = (refl, h)

scheme_byte_lem : (c : ℕ) → is_scheme_byte c ≡ true → (c == b':') ≡ false
scheme_byte_lem c h = ground (arith, h)

scheme_bytes-IsWithout :
    (scheme : List ℕ) → all_scheme_bytes scheme ≡ true → IsWithout (λ c. c == b':') scheme
scheme_bytes-IsWithout [] h = tt
scheme_bytes-IsWithout (c ∷ scheme) h =
    let (here, later) = both _ _ h in (scheme_byte_lem c here, scheme_bytes-IsWithout scheme later)

pub scheme-IsWithout :
    (scheme : List ℕ) → is_scheme scheme ≡ true → IsWithout (λ c. c == b':') scheme
unfolding is_scheme
scheme-IsWithout [] h = tt
scheme-IsWithout (c ∷ scheme) h =
    let (here, later) = both (is_alpha c) (all_scheme_bytes scheme) h in
    (ground (arith, here), scheme_bytes-IsWithout scheme later)

-- The stops of the two tests.
abbrev pub ends_part : ℕ → Bool
ends_part c = ends_authority c || c == b'@'

pub part-IsWithout :
    (text : List ℕ)
    → IsWithout ends_part text
    → IsWithout ends_authority text × IsWithout (λ c. c == b'@') text
part-IsWithout [] h = (tt, tt)
part-IsWithout (c ∷ text) (h, hs) =
    let (a, b) = neither (ends_authority c) (c == b'@') h in
    let (as_authority, as_at) = part-IsWithout text hs in ((a, as_authority), (b, as_at))

pub IsWithout-append :
    (stop : ℕ → Bool) (text rest : List ℕ)
    → IsWithout stop text
    → IsWithout stop rest
    → IsWithout stop (text ++ rest)
IsWithout-append stop [] rest h k = k
IsWithout-append stop (c ∷ text) rest (h, hs) k = (h, IsWithout-append stop text rest hs k)

abbrev pub begins_with : ℕ → List ℕ → Bool
begins_with ch [] = false
begins_with ch (c ∷ cs) = c == ch

-- The texts of the parts of a URI.
abbrev pub user_text : List ℕ → List ℕ → List ℕ
user_text [] rest = rest
user_text (u ∷ us) rest = (u ∷ us) ++ (b'@' ∷ rest)

abbrev pub host_text : Bool → List ℕ → List ℕ
host_text true host = b'[' ∷ (host ++ (b']' ∷ []))
host_text false host = host

abbrev pub query_text : List ℕ → List ℕ
query_text [] = []
query_text (c ∷ cs) = b'?' ∷ c ∷ cs

abbrev pub authority_text : Bool → Components → List ℕ
authority_text bracketed c = user_text c.userinfo (host_text bracketed c.host ++ (b':' ∷ c.port))

-- scheme://userinfo@host:port/path?query
abbrev pub print_uri : Bool → Components → List ℕ
print_uri bracketed c =
    c.scheme
    ++ (separator ++ (authority_text bracketed c ++ (b'/' ∷ (c.path ++ query_text c.query))))

abbrev pub IsDelimited : Bool → List ℕ → Type 0
IsDelimited true host = IsWithout (λ c. c == b']') host
IsDelimited false host = IsWithout (λ c. c == b':') host × (begins_with b'[' host ≡ false)

-- The components that a URI can spell: none has a character that ends it.
pub record IsPrintable (bracketed : Bool) (c : Components) : Type 0 where
  pub scheme : is_scheme c.scheme ≡ true
  pub userinfo : IsWithout ends_part c.userinfo
  pub host : IsWithout ends_part c.host
  pub port : IsWithout ends_part c.port
  pub delimited : IsDelimited bracketed c.host
  pub path : IsWithout ends_path c.path
  pub relative : begins_with b'/' c.path ≡ false
  pub query : IsWithout ends_query c.query

pub split_user :
    (user rest : List ℕ)
    → IsWithout (λ c. c == b'@') user
    → IsWithout (λ c. c == b'@') rest
    → userinfo_of (user_text user rest) (split_at b'@' (user_text user rest)) ≡ (user, rest)
split_user [] rest h k = rw (split_at-none b'@' rest k) refl
split_user (u ∷ us) rest h k = rw (split_at-append b'@' (u ∷ us) rest h) refl

split_host-bracketed :
    (host port : List ℕ)
    → IsWithout (λ c. c == b']') host
    → split_host (host_text true host ++ (b':' ∷ port)) ≡ some (host, port)
unfolding split_host
split_host-bracketed host port h =
    rw (append_assoc host (b']' ∷ []) (b':' ∷ port))
      (rw (split_at-append b']' host (b':' ∷ port) h) refl)

split_host-plain :
    (host port : List ℕ)
    → IsWithout (λ c. c == b':') host
    → begins_with b'[' host ≡ false
    → split_host (host ++ (b':' ∷ port)) ≡ some (host, port)
unfolding split_host
split_host-plain [] port h k = rw (split_at-append b':' [] port h) refl
split_host-plain (c ∷ host) port h k = rw k (rw (split_at-append b':' (c ∷ host) port h) refl)

pub split_host-text :
    (bracketed : Bool) (host port : List ℕ)
    → IsDelimited bracketed host
    → split_host (host_text bracketed host ++ (b':' ∷ port)) ≡ some (host, port)
split_host-text true host port h = split_host-bracketed host port h
split_host-text false host port (h, k) = split_host-plain host port h k

skip_none :
    (path query : List ℕ)
    → begins_with b'/' path ≡ false
    → skip_slashes (path ++ query_text query) ≡ path ++ query_text query
unfolding skip_slashes
skip_none [] [] h = refl
skip_none [] (c ∷ cs) h = refl
skip_none (c ∷ path) query h = rw h refl

pub split_path-text :
    (path query : List ℕ)
    → begins_with b'/' path ≡ false
    → IsWithout ends_path path
    → split_path (b'/' ∷ (path ++ query_text query)) ≡ (path, query_text query)
unfolding split_path
split_path-text path [] h k =
    rw (skip_none path [] h) (rw (append-nil path) (until-all ends_path path k))
split_path-text path (c ∷ cs) h k =
    rw (skip_none path (c ∷ cs) h) (until-append ends_path path b'?' (c ∷ cs) k refl)

pub query_of-text :
    (query : List ℕ) → IsWithout ends_query query → query_of (query_text query) ≡ query
unfolding query_of
query_of-text [] h = refl
query_of-text (c ∷ cs) h = rw (until-all ends_query (c ∷ cs) h) refl
