-- ===== src/ApiConfigSync/Policy/Checked.antt =====
-- examples/apiconfigsync/src/url_policy.rs: the URLs that the policy lets through.
use koprs.Prelude.{
  ◌≡◌, ◌↔◌, ◌⊎◌, refl, sym, ap, subst, String, Bool, true, not, Option, none, some, [], any, eq_iff,
  arith, Result, ok, err,
}
use koprs.Prelude.Results.{err_ok}
use koprs.Prelude.Fallible.{◌>>=◌, ◌>>◌}
use koprs.Prelude.Texts.{Text, to_ascii_lowercase}
use koprs.ApiConfigSync.Addresses.{IpAddr, v4, v6, is_public}
use koprs.ApiConfigSync.Hosts.{host_matches, is_internal_hostname}
use koprs.ApiConfigSync.Policy.{
  Host, domain, ipv4, ipv6, Url, UrlPolicy, check_ip, check_scheme, check_credentials, check_name,
  host_text, check_parsed, check,
}

abbrev pub SchemeOk : UrlPolicy → String → Type 0
SchemeOk p s = (s ≡ "https") ⊎ ((s ≡ "http") × (p.allow_http ≡ true))

scheme_iff : (p : UrlPolicy) (s : String) → (check_scheme p s ≡ ok tt) ↔ SchemeOk p s
scheme_iff p s = ground (arith, eq_iff s "https", eq_iff s "http")

credentials_iff :
    (u : Url) → (check_credentials u ≡ ok tt) ↔ ((u.username ≡ "") × (u.password ≡ none))
credentials_iff u = ground (arith, eq_iff u.username "")

-- Either private networks are allowed, or the test holds.
abbrev pub Unless : Bool → Bool → Type 0
Unless allowed test = (allowed ≡ true) ⊎ (test ≡ true)

ip_iff :
    (p : UrlPolicy) (ip : IpAddr)
    → (check_ip p ip ≡ ok tt) ↔ Unless p.allow_private_networks (is_public ip)
unfolding check_ip
ip_iff p ip = ground arith

name_iff :
    (p : UrlPolicy) (host : Text)
    → (check_name p host ≡ ok tt) ↔ (
        Unless p.allow_private_networks (not (is_internal_hostname host))
        × ((p.allowed_hosts ≡ []) ⊎ (any (λ q. host_matches q host) p.allowed_hosts ≡ true)))
name_iff p host = ground arith

-- A check before the rest: both succeed.
then_iff :
    {E B : Type 0} (m : Result E (Unit {0})) (rest : Result E B) (v : B)
    → ((do m; rest) ≡ ok v) ↔ ((m ≡ ok tt) × (rest ≡ ok v))
then_iff (ok tt) rest v = ((λ e. (refl, e)), (λ h. h.1))
then_iff (err e) rest v = ((λ q. absurd (err_ok q)), (λ h. absurd (err_ok h.0)))

-- A check whose meaning is known before the rest.
then_means :
    {E B P Q : Type 0} {m : Result E (Unit {0})} {rest : Result E B} {v : B}
    → ((m ≡ ok tt) ↔ P)
    → ((rest ≡ ok v) ↔ Q)
    → ((do m; rest) ≡ ok v) ↔ (P × Q)
then_means {m = m} {rest} {v} l r =
    let both = then_iff m rest v in
    ((λ e. (l.0 (both.0 e).0, r.0 (both.0 e).1)), (λ h. both.1 (l.1 h.0, r.1 h.1)))

abbrev pub NameOk : UrlPolicy → Text → Type 0
NameOk p host =
    Unless p.allow_private_networks (not (is_internal_hostname host))
    × ((p.allowed_hosts ≡ []) ⊎ (any (λ q. host_matches q host) p.allowed_hosts ≡ true))

module _ (parse : String → Result String Url) (show_ip : IpAddr → Text) where
  -- What the policy asks of the host: an address literal is public, and the host's text is no
  -- internal name and is listed.
  abbrev pub HostOk : UrlPolicy → Option Host → Type 0
  HostOk p none = ⊥
  HostOk p (some (domain d)) = NameOk p (to_ascii_lowercase d)
  HostOk p (some (ipv4 ip)) =
      Unless p.allow_private_networks (is_public (v4 ip)) × NameOk p (show_ip (v4 ip))
  HostOk p (some (ipv6 ip)) =
      Unless p.allow_private_networks (is_public (v6 ip)) × NameOk p (show_ip (v6 ip))

  named_iff :
      (p : UrlPolicy) (u v : Url) (host : Text)
      → ((do check_name p host; ok u) ≡ ok v) ↔ (NameOk p host × (u ≡ v))
  named_iff p u v host = then_means (name_iff p host) (λ e. cc, λ e. ap ok e)

  literal_iff :
      (p : UrlPolicy) (u v : Url) (host : Text) {P : Type 0} (m : Result String (Unit {0}))
      → ((m ≡ ok tt) ↔ P)
      → ((do h ← (do m; ok host); check_name p h; ok u) ≡ ok v) ↔ ((P × NameOk p host) × (u ≡ v))
  literal_iff p u v host (ok tt) l =
      let named = named_iff p u v host in
      ((λ e. ((l.0 refl, (named.0 e).0), (named.0 e).1)), (λ h. named.1 (h.0.1, h.1)))
  literal_iff p u v host (err e) l = ((λ q. absurd (err_ok q)), (λ h. absurd (err_ok (l.1 h.0.0))))

  hosted_iff :
      (p : UrlPolicy) (u v : Url) (h : Option Host)
      → ((do host ← host_text parse show_ip p h; check_name p host; ok u) ≡ ok v)
        ↔ (HostOk p h × (u ≡ v))
  hosted_iff p u v none = ((λ q. absurd (err_ok q)), (λ h. absurd h.0))
  hosted_iff p u v (some (domain d)) = named_iff p u v (to_ascii_lowercase d)
  hosted_iff p u v (some (ipv4 ip)) =
      literal_iff p u v (show_ip (v4 ip)) (check_ip p (v4 ip)) (ip_iff p (v4 ip))
  hosted_iff p u v (some (ipv6 ip)) =
      literal_iff p u v (show_ip (v6 ip)) (check_ip p (v6 ip)) (ip_iff p (v6 ip))

  parsed_iff :
      (p : UrlPolicy) (u v : Url)
      → (check_parsed parse show_ip p u ≡ ok v) ↔ (
          SchemeOk p u.scheme
          × (((u.username ≡ "") × (u.password ≡ none)) × (HostOk p u.host × (u ≡ v))))
  parsed_iff p u v =
      then_means (scheme_iff p u.scheme) (then_means (credentials_iff u) (hosted_iff p u v u.host))

  -- What the policy asks of a URL that is parsed.
  abbrev pub Parts : UrlPolicy → Url → Type 0
  Parts p u = SchemeOk p u.scheme × ((u.username ≡ "") × (u.password ≡ none)) × HostOk p u.host

  -- The policy lets a URL through, as the parser reads it.
  abbrev pub Admits : UrlPolicy → String → Url → Type 0
  Admits p url u = (parse url ≡ ok u) × Parts p u

  read_iff :
      (p : UrlPolicy) (r : Result String Url) (u : Url)
      → ((do w ← r; check_parsed parse show_ip p w) ≡ ok u) ↔ ((r ≡ ok u) × Parts p u)
  read_iff p (err x) u = ((λ q. absurd (err_ok q)), (λ h. absurd (err_ok h.0)))
  read_iff p (ok w) u =
      let parsed = parsed_iff p w u in
      (
        (λ e. let (s, (c, (h, q))) = parsed.0 e in (ap ok q, subst (λ x. Parts p x) q (s, c, h))),
        (λ r.
            let q : w ≡ u = cc in
            let (s, c, h) = subst (λ x. Parts p x) (sym q) r.1 in parsed.1 (s, (c, (h, q)))),
      )

  -- The policy returns a URL exactly when the parser reads that URL, its scheme is `https` or an
  -- allowed `http`, it carries no user name and no password, an address literal is public unless
  -- private networks are allowed, the host's text is no internal name unless they are allowed, and
  -- a pattern of a list of allowed hosts that is not empty matches it.
  pub check_iff :
      (p : UrlPolicy) (url : String) (u : Url) → (check parse show_ip p url ≡ ok u) ↔ Admits p url u
  unfolding check
  check_iff p url u = read_iff p (parse url) u
