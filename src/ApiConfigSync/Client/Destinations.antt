-- ===== src/ApiConfigSync/Client/Destinations.antt =====
-- examples/apiconfigsync/src/url_policy.rs: where the operator's requests can go. What reqwest does
-- with its settings is a hypothesis.
use koprs.Prelude.{
  ◌≡◌, ◌⊎◌, refl, ap, subst, ◌∙◌, inl, inr, String, Bool, true, false, Option, none, some, List, [],
  ◌∷◌, null, Bool-cases, Result, ok, err, arith,
}
use koprs.Prelude.Texts.{Text}
use koprs.ApiConfigSync.Addresses.{Ipv4Addr, Ipv6Addr, IpAddr, v4, v6, is_public}
use koprs.ApiConfigSync.Policy.{
  Host, domain, ipv4, ipv6, Url, UrlPolicy, check, resolve, public_only,
}
use koprs.ApiConfigSync.Policy.Checked.{Unless, HostOk, check_iff}
use koprs.ApiConfigSync.Client.{ClientBuilder, guarded, http_client}

abbrev pub IsIn : IpAddr → List IpAddr → Type 0
IsIn ip [] = ⊥
IsIn ip (x ∷ xs) = (ip ≡ x) ⊎ IsIn ip xs

-- A client that takes no proxy for a URL: it ignores the proxies of the environment, or the
-- environment sets none for the URL.
abbrev pub IsDirect : (Url → Option String) → ClientBuilder → Url → Type 0
IsDirect proxy_of b u = (b.system_proxies ≡ false) ⊎ (proxy_of u ≡ none)

-- The addresses that a client with the given settings may connect to for a request to a URL, where
-- the environment sets the given proxies, as reqwest documents it: without a proxy, an address
-- literal is the address and a name goes to the configured resolver, and without redirects there is
-- no other host. Of a request through a proxy nothing is assumed.
pub record IsReqwest (proxy_of : Url → Option String)
    (Connects : ClientBuilder → Url → IpAddr → Type 0) : Type 0 where
  pub literal_v4 :
      (b : ClientBuilder) (u : Url) (ip : IpAddr) (a : Ipv4Addr)
      → IsDirect proxy_of b u
      → b.redirects ≡ 0
      → u.host ≡ some (ipv4 a)
      → Connects b u ip
      → ip ≡ v4 a
  pub literal_v6 :
      (b : ClientBuilder) (u : Url) (ip : IpAddr) (a : Ipv6Addr)
      → IsDirect proxy_of b u
      → b.redirects ≡ 0
      → u.host ≡ some (ipv6 a)
      → Connects b u ip
      → ip ≡ v6 a
  pub name :
      (b : ClientBuilder) (u : Url) (ip : IpAddr) (d : Text)
      → IsDirect proxy_of b u
      → b.redirects ≡ 0
      → b.dns_resolver ≡ guarded
      → u.host ≡ some (domain d)
      → Connects b u ip
      → (looked_up : Result String (List IpAddr)) × (answer : List IpAddr) × (resolve looked_up
          ≡ ok answer)
        × IsIn ip answer

public_only-is_public :
    (ip : IpAddr) (ips : List IpAddr) → IsIn ip (public_only ips) → is_public ip ≡ true
public_only-is_public ip [] h = absurd h
public_only-is_public ip (x ∷ xs) h = ground (arith, public_only-is_public ip xs)

resolve-is_public :
    (looked_up : Result String (List IpAddr)) (answer : List IpAddr) (ip : IpAddr)
    → resolve looked_up ≡ ok answer
    → IsIn ip answer
    → is_public ip ≡ true
unfolding resolve
resolve-is_public (err e) answer ip h i = cc
resolve-is_public (ok ips) answer ip h i = elim (Bool-cases (null (public_only ips))) [
  | inl e ↦ ground arith
  | inr e ↦
      let same : answer ≡ public_only ips = ground arith in
      public_only-is_public ip ips (subst (IsIn ip) same i)
]

strict_client :
    (p : UrlPolicy)
    → p.allow_private_networks ≡ false
    → ((http_client p).redirects ≡ 0) × ((http_client p).dns_resolver ≡ guarded)
unfolding http_client
strict_client p h = ground arith

public_literal : (allowed test : Bool) → allowed ≡ false → Unless allowed test → test ≡ true
public_literal allowed test h t = ground arith

module _ (parse : String → Result String Url) (show_ip : IpAddr → Text) where
  -- With private networks not allowed, a client that does what reqwest documents of its settings, and
  -- no proxy in the environment for the URL (the operator's client would take one): whatever a name resolves to, at this or any later lookup, each address that the
  -- operator's client may connect to for a URL that the policy let through is a public one.
  pub destination-is_public :
      (proxy_of : Url → Option String) (Connects : ClientBuilder → Url → IpAddr → Type 0)
      (p : UrlPolicy) (url : String) (u : Url) (ip : IpAddr)
      → IsReqwest proxy_of Connects
      → proxy_of u ≡ none
      → p.allow_private_networks ≡ false
      → check parse show_ip p url ≡ ok u
      → Connects (http_client p) u ip
      → is_public ip ≡ true
  destination-is_public proxy_of Connects p url u ip q direct strict passed c =
      of_host u.host refl ((check_iff parse show_ip p url u).0 passed).1.2
    where
      no_redirect : (http_client p).redirects ≡ 0
      no_redirect = (strict_client p strict).0

      of_host : (h : Option Host) → u.host ≡ h → HostOk parse show_ip p h → is_public ip ≡ true
      of_host none e ok_host = absurd ok_host
      of_host (some (ipv4 a)) e ok_host =
          ap is_public (q.literal_v4 (http_client p) u ip a (inr direct) no_redirect e c)
          ∙ public_literal p.allow_private_networks _ strict ok_host.0
      of_host (some (ipv6 a)) e ok_host =
          ap is_public (q.literal_v6 (http_client p) u ip a (inr direct) no_redirect e c)
          ∙ public_literal p.allow_private_networks _ strict ok_host.0
      of_host (some (domain d)) e ok_host =
          let (looked_up, answer, r, i) =
            q.name (http_client p) u ip d (inr direct) no_redirect (strict_client p strict).1 e c in
          resolve-is_public looked_up answer ip r i
