-- ===== src/Admission/Tls.antt =====
-- crates/koprs-admission/src/tls.rs: certificates from PEM data, and the resolver that reloads them
-- from disk. rustls is a parameter. The disk is a function of the moment, in nanoseconds, since other
-- processes rewrite the files between the accesses of one check.
pub mod Loaded
pub mod Reloads
pub mod Rotation
pub mod Examples
use koprs.Prelude.{
  ℕ, ◌-◌, ◌*◌, ◌≤◌, ◌&&◌, String, Bool, true, false, Option, none, some, List, [], ◌∷◌, ltb, ◌==◌,
  if◌then◌else◌, Result, ok, err, map_err, ok_or,
}
use koprs.Prelude.Fallible.{◌>>=◌}
use koprs.Admission.{AdmissionError, tls, io}

-- Ten seconds.
unfoldable pub default_reload_interval : ℕ
default_reload_interval = 10 * 1000000000

-- `rustls_pemfile` and rustls, with the crypto provider that the crate gives them.
pub record Rustls (Certs PrivateKey CertifiedKey : Type 0) : Type 0 where
  pub certs : String → Result String (List Certs)
  pub private_key : String → Result String (Option PrivateKey)
  pub from_der : List Certs → PrivateKey → Result String CertifiedKey
  pub safe_default_protocol_versions : Result String (Unit {0})

-- A file at one moment: its modification time and its content, or why either cannot be read.
pub record File : Type 0 where
  pub modified : Result String ℕ
  pub content : Result String String

pub record Disk : Type 0 where
  pub cert : ℕ → File
  pub key : ℕ → File

-- The moments at which one load or check looks at the files.
pub record Accesses : Type 0 where
  pub cert_stat : ℕ
  pub key_stat : ℕ
  pub cert_read : ℕ
  pub key_read : ℕ

unfoldable pub mtime : File → Option ℕ
mtime f = elim f.modified [ ok t ↦ some t | err e ↦ none ]

-- `==` of two `Option<SystemTime>`.
abbrev pub same_mtime : Option ℕ → Option ℕ → Bool
same_mtime none none = true
same_mtime none (some u) = false
same_mtime (some t) none = false
same_mtime (some t) (some u) = t == u

pub record LoadedState (CertifiedKey : Type 0) : Type 0 where
  pub loaded : CertifiedKey
  pub cert_mtime : Option ℕ
  pub key_mtime : Option ℕ
  pub last_check : ℕ

abbrev nonempty : {A : Type 0} → List A → Result AdmissionError (List A)
nonempty [] = err (tls "no certificates found in PEM data")
nonempty (c ∷ cs) = ok (c ∷ cs)

module _ {Certs PrivateKey CertifiedKey : Type 0} (lib : Rustls Certs PrivateKey CertifiedKey) where
  unfoldable pub certified_key_from_pem : String → String → Result AdmissionError CertifiedKey
  certified_key_from_pem cert_pem key_pem = do
    chain ← map_err tls (lib.certs cert_pem)
    certs ← nonempty chain
    found ← map_err tls (lib.private_key key_pem)
    key ← ok_or found (tls "no private key found in PEM data")
    map_err tls (lib.from_der certs key)

  unfoldable pub load : Disk → ℕ → ℕ → Result AdmissionError CertifiedKey
  unfolding certified_key_from_pem
  load d cert_read key_read = do
    cert_pem ← map_err io (File.content (d.cert cert_read))
    key_pem ← map_err io (File.content (d.key key_read))
    certified_key_from_pem cert_pem key_pem

  -- The resolver that is built at `now`, after its accesses.
  unfoldable pub new : Disk → Accesses → ℕ → Result AdmissionError (LoadedState CertifiedKey)
  unfolding load mtime
  new d a now = do
    loaded ← load d a.cert_read a.key_read
    ok (record {
      loaded = loaded;
      cert_mtime = mtime (d.cert a.cert_stat);
      key_mtime = mtime (d.key a.key_stat);
      last_check = now;
    })

  abbrev pub on_load :
      LoadedState CertifiedKey
      → Option ℕ
      → Option ℕ
      → Result AdmissionError CertifiedKey
      → LoadedState CertifiedKey
  on_load s cert_mtime key_mtime (ok loaded) = record s {
    loaded = loaded;
    cert_mtime = cert_mtime;
    key_mtime = key_mtime;
  }
  on_load s cert_mtime key_mtime (err e) = s

  -- The part of `maybe_reload` that runs under the write lock once the interval has passed.
  unfoldable pub check : Disk → Accesses → ℕ → LoadedState CertifiedKey → LoadedState CertifiedKey
  unfolding load mtime
  check d a now before =
      let s = record before { last_check = now } in
      let cert_mtime = mtime (d.cert a.cert_stat) in
      let key_mtime = mtime (d.key a.key_stat) in
      if same_mtime cert_mtime s.cert_mtime && same_mtime key_mtime s.key_mtime
      then s
      else on_load s cert_mtime key_mtime (load d a.cert_read a.key_read)

  -- `state.last_check.elapsed() < self.reload_interval`, at a moment.
  abbrev pub is_early : ℕ → ℕ → LoadedState CertifiedKey → Bool
  is_early reload_interval now s = ltb (now - s.last_check) reload_interval

  -- A handshake looks at the state under the read lock, at `looked`, and again under the write
  -- lock, at `locked`, when another handshake may have changed it to `s`. The result is the list of
  -- the checks of the files that it made, by their accesses, and the state that it left.
  unfoldable pub check_if_due :
      ℕ
      → Disk
      → Accesses
      → (looked locked now : ℕ) → (seen s : LoadedState CertifiedKey)
      → List Accesses × LoadedState CertifiedKey
  unfolding check
  check_if_due reload_interval d a looked locked now seen s =
      if is_early reload_interval looked seen
      then ([], s)
      else if is_early reload_interval locked s
      then ([], s)
      else (a ∷ [], check d a now s)

  -- What a handshake leaves.
  unfoldable pub maybe_reload :
      ℕ
      → Disk
      → Accesses
      → (looked locked now : ℕ) → (seen s : LoadedState CertifiedKey) → LoadedState CertifiedKey
  unfolding check_if_due
  maybe_reload reload_interval d a looked locked now seen s =
      (check_if_due reload_interval d a looked locked now seen s).1

-- The resolvers of the crate, and what a handshake gets from each: the reloading one after its
-- `maybe_reload`.
pub data Resolver (CertifiedKey : Type 0) : Type 0 where
  static : CertifiedKey → Resolver CertifiedKey
  reloading : ℕ → LoadedState CertifiedKey → Resolver CertifiedKey

unfoldable pub current : {K : Type 0} → LoadedState K → K
current s = s.loaded

pub record ServerConfig (CertifiedKey : Type 0) : Type 0 where
  pub resolver : Resolver CertifiedKey
  pub alpn_protocols : List String

module _ {Certs PrivateKey CertifiedKey : Type 0} (lib : Rustls Certs PrivateKey CertifiedKey) where
  unfoldable pub server_config :
      Resolver CertifiedKey → Result AdmissionError (ServerConfig CertifiedKey)
  server_config resolver = do
    _ ← map_err tls lib.safe_default_protocol_versions
    ok (record { resolver = resolver; alpn_protocols = "http/1.1" ∷ [] })

  -- The answer to a `ClientHello`, with the resolver after it. The handshake is alone.
  unfoldable pub resolve :
      Disk
      → Accesses
      → (looked locked now : ℕ) → Resolver CertifiedKey
      → Option CertifiedKey × Resolver CertifiedKey
  unfolding maybe_reload current
  resolve d a looked locked now (static k) = (some k, static k)
  resolve d a looked locked now (reloading interval s) =
      let s' = maybe_reload lib interval d a looked locked now s s in
      (some (current s'), reloading interval s')
