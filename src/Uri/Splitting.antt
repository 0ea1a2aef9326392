-- ===== src/Uri/Splitting.antt =====
-- parse_uri_components of a URI that was put together from its components (src/sqli_uri.c).
use libsqli.Prelude.{ℕ, ◌≡◌, refl, Bool, true, false, List, [], ◌∷◌, ◌++◌, some, ◌==◌}
use libsqli.Uri.{Components, ends_authority, components_of, parse_uri_components}
use libsqli.Uri.Printing.{
  IsWithout, user_text, host_text, query_text, authority_text, print_uri, IsPrintable,
  scheme-IsWithout, part-IsWithout, IsWithout-append, split_user, split_host-text, split_path-text,
  query_of-text, until-append, split_scheme-append,
}

host_port-IsWithout :
    (stop : ℕ → Bool) (bracketed : Bool) (host port : List ℕ)
    → stop b'[' ≡ false
    → stop b']' ≡ false
    → stop b':' ≡ false
    → IsWithout stop host
    → IsWithout stop port
    → IsWithout stop (host_text bracketed host ++ (b':' ∷ port))
host_port-IsWithout stop true host port a b c h k = (
  a,
  IsWithout-append stop (host ++ (b']' ∷ [])) (b':' ∷ port)
      (IsWithout-append stop host (b']' ∷ []) h (b, tt)) (c, k),
)
host_port-IsWithout stop false host port a b c h k =
    IsWithout-append stop host (b':' ∷ port) h (c, k)

user_text-IsWithout :
    (stop : ℕ → Bool) (user rest : List ℕ)
    → stop b'@' ≡ false
    → IsWithout stop user
    → IsWithout stop rest
    → IsWithout stop (user_text user rest)
user_text-IsWithout stop [] rest a h k = k
user_text-IsWithout stop (u ∷ us) rest a h k = IsWithout-append stop (u ∷ us) (b'@' ∷ rest) h (a, k)

components_of-text :
    (bracketed : Bool) (c : Components)
    → IsPrintable bracketed c
    → components_of c.scheme (authority_text bracketed c ++ (b'/' ∷ (c.path ++ query_text c.query)))
      ≡ some c
unfolding components_of
components_of-text bracketed c h =
    let (host_ends, host_at) = part-IsWithout c.host h.host in
    let (port_ends, port_at) = part-IsWithout c.port h.port in
    let (user_ends, user_at) = part-IsWithout c.userinfo h.userinfo in
    let hp = host_text bracketed c.host ++ (b':' ∷ c.port) in
    let hp_ends =
      host_port-IsWithout ends_authority bracketed c.host c.port refl refl refl host_ends
        port_ends in
    let hp_at =
      host_port-IsWithout (λ x. x == b'@') bracketed c.host c.port refl refl refl host_at port_at in
    rw
      (until-append ends_authority (authority_text bracketed c) b'/' (c.path ++ query_text c.query)
        (user_text-IsWithout ends_authority c.userinfo hp refl user_ends hp_ends) refl)
      (rw (split_user c.userinfo hp user_at hp_at) (
        rw (split_host-text bracketed c.host c.port h.delimited) (
          rw (split_path-text c.path c.query h.relative h.path)
            (rw (query_of-text c.query h.query) refl))))

-- A URI put together from components that have no character that ends them, the host in brackets or
-- not, is split into these components.
pub parse-print_uri :
    (bracketed : Bool) (c : Components)
    → IsPrintable bracketed c
    → parse_uri_components (print_uri bracketed c) ≡ some c
unfolding parse_uri_components
parse-print_uri bracketed c h =
    rw
      (split_scheme-append c.scheme
        (authority_text bracketed c ++ (b'/' ∷ (c.path ++ query_text c.query)))
        (scheme-IsWithout c.scheme h.scheme))
      (rw h.scheme (components_of-text bracketed c h))
