-- ===== src/ApiConfigSync/Client.antt =====
-- examples/apiconfigsync/src/url_policy.rs: the policy of the operator's environment, and the
-- settings of its HTTP client.
pub mod Destinations
pub mod Examples
use koprs.Prelude.{
  ℕ, ◌*◌, ◌==◌, not, String, Bool, true, false, Option, none, some, List, [], ◌∷◌, null,
  if◌then◌else◌, Result, ok, err,
}
use koprs.Prelude.Texts.{Text, codes, text_eq, to_ascii_lowercase}
use koprs.ApiConfigSync.Policy.{UrlPolicy}

-- `split` at one byte: there is always a first part.
unfoldable pub split : ℕ → Text → Text × List Text
split b [] = ([], [])
split b (x ∷ xs) =
    let (first, rest) = split b xs in if x == b then ([], first ∷ rest) else (x ∷ first, rest)

module _ (is_space : ℕ → Bool) where
  abbrev trim_start : Text → Text
  trim_start [] = []
  trim_start (x ∷ xs) = let rest = trim_start xs in if is_space x then rest else x ∷ xs

  abbrev trim_end : Text → Text
  trim_end [] = []
  trim_end (x ∷ xs) =
      let rest = trim_end xs in
      if is_space x then (if null rest then [] else x ∷ rest) else x ∷ rest

  -- One entry of the list: trimmed and in lower case, or dropped.
  abbrev pub host_entry : Text → List Text → List Text
  host_entry part hosts =
      let host = to_ascii_lowercase (trim_end (trim_start part)) in
      if null host then hosts else host ∷ hosts

  abbrev pub host_entries : List Text → List Text
  host_entries [] = []
  host_entries (part ∷ parts) = host_entry part (host_entries parts)

  abbrev or_empty : Option Text → Text
  or_empty none = []
  or_empty (some v) = v

  abbrev is_true : Option Text → Bool
  is_true none = false
  is_true (some v) = text_eq (to_ascii_lowercase v) (codes "true")

  -- `std::env::var` is a parameter, and so is white space.
  unfoldable pub from_env : (String → Option Text) → UrlPolicy
  unfolding split
  from_env var =
      let (first, rest) = split b',' (or_empty (var "APICONFIGSYNC_ALLOWED_HOSTS")) in
      record {
        allowed_hosts = host_entries (first ∷ rest);
        allow_http = is_true (var "APICONFIGSYNC_ALLOW_HTTP");
        allow_private_networks = is_true (var "APICONFIGSYNC_ALLOW_PRIVATE_NETWORKS");
      }

-- Who looks names up for the client: the system, or `GuardedResolver`.
pub data DnsResolver : Type 0 where
  system : DnsResolver
  guarded : DnsResolver

-- The settings of a client of reqwest: its default follows ten redirects, and takes its proxies from
-- the environment (HTTP_PROXY, HTTPS_PROXY, ALL_PROXY) unless `no_proxy` is called.
pub record ClientBuilder : Type 0 where
  pub timeout : Option ℕ
  pub connect_timeout : Option ℕ
  pub redirects : ℕ
  pub dns_resolver : DnsResolver
  pub system_proxies : Bool

abbrev builder : ClientBuilder
builder = record {
  timeout = none;
  connect_timeout = none;
  redirects = 10;
  dns_resolver = system;
  system_proxies = true;
}

-- Fifteen seconds, in nanoseconds.
unfoldable pub request_timeout : ℕ
request_timeout = 15 * 1000000000

unfoldable pub http_client : UrlPolicy → ClientBuilder
unfolding request_timeout
http_client p =
    let b = record builder {
      timeout = some request_timeout;
      connect_timeout = some (5 * 1000000000);
      redirects = 0;
    } in
    if not p.allow_private_networks then record b { dns_resolver = guarded } else b
