-- ===== src/ApiConfigSync/Client/Examples.antt =====
-- examples/apiconfigsync/src/url_policy.rs: an environment, and a name that resolves to a private
-- address beside a public one.
use koprs.Prelude.{
  ◌≡◌, refl, ◌==◌, str_eq, String, true, false, Option, none, some, List, [], ◌∷◌, subst, inl,
  if◌then◌else◌, Result, ok,
}
use koprs.Prelude.Texts.{Text, codes}
use koprs.ApiConfigSync.Addresses.{IpAddr, v4, v6, is_public}
use koprs.ApiConfigSync.Policy.{Host, domain, ipv4, ipv6, Url, UrlPolicy, check, resolve}
use koprs.ApiConfigSync.Client.{ClientBuilder, from_env, http_client}
use koprs.ApiConfigSync.Client.Destinations.{IsIn, IsReqwest, destination-is_public}

abbrev environment : String → Option Text
environment key =
    if str_eq key "APICONFIGSYNC_ALLOWED_HOSTS"
    then some (codes " *.Example.com ,, api.test")
    else if str_eq key "APICONFIGSYNC_ALLOW_HTTP"
    then some (codes "TRUE")
    else none

abbrev policy : UrlPolicy
policy = record {
  allowed_hosts = codes "*.example.com" ∷ codes "api.test" ∷ [];
  allow_http = true;
  allow_private_networks = false;
}

from_environment : from_env (λ c. c == b' ') environment ≡ policy
unfolding from_env
from_environment = refl

abbrev inside : IpAddr
inside = v4 (record { o0 = 10; o1 = 0; o2 = 0; o3 = 1 })

abbrev outside : IpAddr
outside = v4 (record { o0 = 93; o1 = 184; o2 = 215; o3 = 14 })

abbrev api : Url
api = record {
  scheme = "https";
  username = "";
  password = none;
  host = some (domain (codes "api.example.com"));
}

abbrev parse : String → Result String Url
parse s = ok api

abbrev show_ip : IpAddr → Text
show_ip ip = []

-- Each name resolves to both addresses.
abbrev ConnectsTo : Option Host → IpAddr → Type 0
ConnectsTo none ip = ⊥
ConnectsTo (some (ipv4 a)) ip = ip ≡ v4 a
ConnectsTo (some (ipv6 a)) ip = ip ≡ v6 a
ConnectsTo (some (domain d)) ip =
    (answer : List IpAddr) × (resolve (ok (inside ∷ outside ∷ [])) ≡ ok answer) × IsIn ip answer

abbrev Connects : ClientBuilder → Url → IpAddr → Type 0
Connects b u ip = ConnectsTo u.host ip

-- The environment sets a proxy for the other scheme.
abbrev proxy_of : Url → Option String
proxy_of u = if str_eq u.scheme "http" then some "http://10.0.0.1:3128" else none

Connects-IsReqwest : IsReqwest proxy_of Connects
Connects-IsReqwest = record {
  literal_v4 = λ b u ip a p r e c. subst (λ h. ConnectsTo h ip) e c;
  literal_v6 = λ b u ip a p r e c. subst (λ h. ConnectsTo h ip) e c;
  name = λ b u ip d p r g e c.
      let (answer, ran, i) = subst (λ h. ConnectsTo h ip) e c in
      (ok (inside ∷ outside ∷ []), answer, ran, i);
}

passed : check parse show_ip policy "https://api.example.com/v1" ≡ ok api
unfolding check
passed = refl

reached : Connects (http_client policy) api outside
unfolding resolve
reached = (outside ∷ [], refl, inl refl)

filtered : resolve (ok (inside ∷ outside ∷ [])) ≡ ok (outside ∷ [])
unfolding resolve
filtered = refl

destination-is_public_example : is_public outside ≡ true
destination-is_public_example =
    destination-is_public parse show_ip proxy_of Connects policy "https://api.example.com/v1" api
      outside Connects-IsReqwest refl refl passed reached
