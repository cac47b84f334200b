-- ===== src/ApiConfigSync/Policy.antt =====
-- examples/apiconfigsync/src/url_policy.rs: `UrlPolicy::check` and the guarded resolver. The URL
-- parser and the text of an address are parameters. The texts of the errors are shortened.
pub mod Checked
use koprs.Prelude.{
  ℕ, String, Bool, true, false, not, ◌&&◌, ◌||◌, Option, none, some, List, [], ◌∷◌, any, null,
  str_eq, is_empty, is_some, if◌then◌else◌, Result, ok, err,
}
use koprs.Prelude.Fallible.{◌>>=◌, ◌>>◌}
use koprs.Prelude.Texts.{Text, to_ascii_lowercase}
use koprs.ApiConfigSync.Addresses.{Ipv4Addr, Ipv6Addr, IpAddr, v4, v6, is_public}
use koprs.ApiConfigSync.Hosts.{host_matches, is_internal_hostname}

pub data Host : Type 0 where
  domain : Text → Host
  ipv4 : Ipv4Addr → Host
  ipv6 : Ipv6Addr → Host

-- What the code reads of a parsed URL.
pub record Url : Type 0 where
  pub scheme : String
  pub username : String
  pub password : Option String
  pub host : Option Host

pub record UrlPolicy : Type 0 where
  pub allowed_hosts : List Text
  pub allow_http : Bool
  pub allow_private_networks : Bool

unfoldable pub check_ip : UrlPolicy → IpAddr → Result String (Unit {0})
unfolding is_public
check_ip p ip =
    if p.allow_private_networks || is_public ip
    then ok tt
    else err "spec.apiUrl address is not a public address"

abbrev pub check_scheme : UrlPolicy → String → Result String (Unit {0})
check_scheme p s =
    if str_eq s "https"
    then ok tt
    else if str_eq s "http" && p.allow_http
    then ok tt
    else if str_eq s "http"
    then err "spec.apiUrl must use https://"
    else err "spec.apiUrl scheme is not allowed"

abbrev pub check_credentials : Url → Result String (Unit {0})
check_credentials u =
    if not (is_empty u.username) || is_some u.password
    then err "spec.apiUrl must not embed credentials; use spec.bearerTokenSecretRef"
    else ok tt

abbrev pub check_name : UrlPolicy → Text → Result String (Unit {0})
check_name p host =
    if not p.allow_private_networks && is_internal_hostname host
    then err "spec.apiUrl host is an internal name and is not allowed"
    else if not (null p.allowed_hosts) && not (any (λ q. host_matches q host) p.allowed_hosts)
    then err "spec.apiUrl host is not in the operator's allowed hosts"
    else ok tt

module _ (parse : String → Result String Url) (show_ip : IpAddr → Text) where
  -- The host as it is compared, once its address is checked.
  abbrev pub host_text : UrlPolicy → Option Host → Result String Text
  host_text p none = err "spec.apiUrl has no host"
  host_text p (some (domain d)) = ok (to_ascii_lowercase d)
  host_text p (some (ipv4 ip)) = do check_ip p (v4 ip); ok (show_ip (v4 ip))
  host_text p (some (ipv6 ip)) = do check_ip p (v6 ip); ok (show_ip (v6 ip))

  abbrev pub check_parsed : UrlPolicy → Url → Result String Url
  check_parsed p u = do
    check_scheme p u.scheme
    check_credentials u
    host ← host_text p u.host
    check_name p host
    ok u

  unfoldable pub check : UrlPolicy → String → Result String Url
  unfolding check_ip host_matches is_internal_hostname
  check p url = do u ← parse url; check_parsed p u

abbrev pub public_only : List IpAddr → List IpAddr
public_only [] = []
public_only (ip ∷ ips) = let rest = public_only ips in if is_public ip then ip ∷ rest else rest

-- The addresses of a lookup that the client may connect to.
unfoldable pub resolve : Result String (List IpAddr) → Result String (List IpAddr)
unfolding is_public
resolve (err e) = err e
resolve (ok resolved) =
    let public = public_only resolved in
    if null public then err "does not resolve to a public address" else ok public
