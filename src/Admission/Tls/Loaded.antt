-- ===== src/Admission/Tls/Loaded.antt =====
-- crates/koprs-admission/src/tls.rs: what a certificate that was loaded is made of.
use koprs.Prelude.{
  ℕ, ◌≤◌, ◌≡◌, ◌≢◌, refl, ap, ◌∙◌, String, Option, none, some, List, [], ◌∷◌, Result, ok, err,
  map_err, ok_or,
}
use koprs.Prelude.Fallible.{◌>>=◌}
use koprs.Admission.{tls}
use koprs.Admission.Tls.{Rustls, File, Disk, nonempty, certified_key_from_pem, load}

bind_ok :
    {E A B : Type 0} (r : Result E A) (f : A → Result E B) (b : B)
    → (r >>= f) ≡ ok b
    → (a : A) × (r ≡ ok a) × (f a ≡ ok b)
bind_ok (ok a) f b h = (a, refl, h)
bind_ok (err e) f b h = cc

map_err_ok : {E F A : Type 0} (g : E → F) (r : Result E A) (a : A) → map_err g r ≡ ok a → r ≡ ok a
map_err_ok g (ok x) a h = cc
map_err_ok g (err e) a h = cc

ok_or_ok : {E A : Type 0} (o : Option A) (e : E) (a : A) → ok_or o e ≡ ok a → o ≡ some a
ok_or_ok none e a h = cc
ok_or_ok (some x) e a h = cc

nonempty_ok : {A : Type 0} (xs ys : List A) → nonempty xs ≡ ok ys → (xs ≡ ys) × (ys ≢ [])
nonempty_ok [] ys h = cc
nonempty_ok (x ∷ xs) ys h = (cc, λ e. cc)

module _ {C P K : Type 0} (lib : Rustls C P K) (d : Disk) where
  -- A certificate with what each file held up to a moment, and how rustls read it.
  pub record Served (t : ℕ) (k : K) : Type 0 where
    pub cert_held : ℕ
    pub key_held : ℕ
    pub cert_past : cert_held ≤ t
    pub key_past : key_held ≤ t
    pub cert_pem : String
    pub key_pem : String
    pub chain : List C
    pub key : P
    pub in_cert : File.content (d.cert cert_held) ≡ ok cert_pem
    pub in_key : File.content (d.key key_held) ≡ ok key_pem
    pub certs : lib.certs cert_pem ≡ ok chain
    pub is_chain : chain ≢ []
    pub private : lib.private_key key_pem ≡ ok (some key)
    pub accepted : lib.from_der chain key ≡ ok k

  pub load-Served : (c y t : ℕ) (k : K) → c ≤ t → y ≤ t → load lib d c y ≡ ok k → Served t k
  unfolding load certified_key_from_pem
  load-Served c y t k past past' h =
      let (cert_pem, in_cert, h1) = bind_ok _ _ k h in
      let (key_pem, in_key, h2) = bind_ok _ _ k h1 in
      let (chain, certs, h3) = bind_ok _ _ k h2 in
      let (full, is_full, h4) = bind_ok _ _ k h3 in
      let (found, private, h5) = bind_ok _ _ k h4 in
      let (key, is_key, h6) = bind_ok _ _ k h5 in
      let (same, is_chain) = nonempty_ok chain full is_full in
      record {
        cert_held = c;
        key_held = y;
        cert_past = past;
        key_past = past';
        cert_pem = cert_pem;
        key_pem = key_pem;
        chain = full;
        key = key;
        in_cert = map_err_ok _ _ cert_pem in_cert;
        in_key = map_err_ok _ _ key_pem in_key;
        certs = map_err_ok tls (lib.certs cert_pem) chain certs ∙ ap ok same;
        is_chain = is_chain;
        private =
            map_err_ok tls (lib.private_key key_pem) found private
            ∙ ap ok (ok_or_ok found (tls "no private key found in PEM data") key is_key);
        accepted = map_err_ok _ _ k h6;
      }
