-- ===== src/Admission/Tls/Reloads.antt =====
-- crates/koprs-admission/src/tls.rs: any history of handshakes on a resolver that reloads.
use koprs.Prelude.{
  ℕ, ◌+◌, ◌≤◌, ◌≡◌, refl, inl, inr, ◌&&◌, true, Option, none, some, Bool-cases, Result, ok, err,
  arith, length,
}
use koprs.Admission.Tls.{
  Rustls, File, Disk, Accesses, LoadedState, mtime, same_mtime, load, new, on_load, check, is_early,
  check_if_due, maybe_reload,
}

pub same_mtime→eq : (a b : Option ℕ) → same_mtime a b ≡ true → a ≡ b
same_mtime→eq none none h = refl
same_mtime→eq none (some u) h = cc
same_mtime→eq (some t) none h = cc
same_mtime→eq (some t) (some u) h = ground arith

abbrev pub InOrder : ℕ → Accesses → ℕ → Type 0
InOrder from a until =
    (from ≤ a.cert_stat)
    × (a.cert_stat ≤ a.key_stat)
    × (a.key_stat ≤ a.cert_read)
    × (a.cert_read ≤ a.key_read)
    × (a.key_read ≤ until)

-- A file that shows the same modification time twice was not rewritten in between.
abbrev pub IsVersioned : (ℕ → File) → Type 0
IsVersioned f =
    (t u v x : ℕ)
    → t ≤ u
    → u ≤ v
    → mtime (f t) ≡ some x
    → mtime (f v) ≡ some x
    → File.content (f u) ≡ File.content (f v)

module _ {C P K : Type 0} (lib : Rustls C P K) (d : Disk) (interval start : ℕ) where
  -- The states that handshakes reach from the resolver built at `start`, with the number of checks
  -- of the files that they made and the moment. What a handshake saw under the read lock may be any
  -- older state; the write lock orders the rest.
  pub data Reach : ℕ → ℕ → LoadedState K → Type 0 where
    started :
        (a : Accesses) (s : LoadedState K)
        → InOrder 0 a start
        → new lib d a start ≡ ok s
        → Reach 0 start s
    handshake :
        {n t : ℕ} {s : LoadedState K}
        → Reach n t s
        → (a : Accesses) (looked locked now until : ℕ) (seen : LoadedState K) → t ≤ locked
        → locked ≤ now
        → InOrder now a until
        → Reach
            (n + length (check_if_due lib interval d a looked locked now seen s).0)
            until
            (maybe_reload lib interval d a looked locked now seen s)

  -- The certificate was loaded from what the files held after their modification times were read.
  pub record IsFrom (t : ℕ) (s : LoadedState K) : Type 0 where
    pub cert_seen : ℕ
    pub key_seen : ℕ
    pub cert_held : ℕ
    pub key_held : ℕ
    pub cert_order : cert_seen ≤ cert_held
    pub key_order : key_seen ≤ key_held
    pub cert_past : cert_held ≤ t
    pub key_past : key_held ≤ t
    pub parsed : load lib d cert_held key_held ≡ ok s.loaded
    pub cert_version : s.cert_mtime ≡ mtime (d.cert cert_seen)
    pub key_version : s.key_mtime ≡ mtime (d.key key_seen)

  later :
      {t u now : ℕ} {s : LoadedState K}
      → IsFrom t s
      → t ≤ u
      → IsFrom u (record s { last_check = now })
  later f h = record {
    cert_seen = f.cert_seen;
    key_seen = f.key_seen;
    cert_held = f.cert_held;
    key_held = f.key_held;
    cert_order = f.cert_order;
    key_order = f.key_order;
    cert_past = omega (arith, f.cert_past);
    key_past = omega (arith, f.key_past);
    parsed = f.parsed;
    cert_version = f.cert_version;
    key_version = f.key_version;
  }

  abbrev stamped : Accesses → ℕ → K → LoadedState K
  stamped a now loaded = record {
    loaded = loaded;
    cert_mtime = mtime (d.cert a.cert_stat);
    key_mtime = mtime (d.key a.key_stat);
    last_check = now;
  }

  stamped-IsFrom :
      (a : Accesses) (from until now : ℕ) (k : K)
      → InOrder from a until
      → load lib d a.cert_read a.key_read ≡ ok k
      → IsFrom until (stamped a now k)
  stamped-IsFrom a from until now k o l = record {
    cert_seen = a.cert_stat;
    key_seen = a.key_stat;
    cert_held = a.cert_read;
    key_held = a.key_read;
    cert_order = omega arith;
    key_order = omega arith;
    cert_past = omega arith;
    key_past = omega arith;
    parsed = l;
    cert_version = refl;
    key_version = refl;
  }

  pub new-stamped :
      (a : Accesses) (s : LoadedState K)
      → new lib d a start ≡ ok s
      → (load lib d a.cert_read a.key_read ≡ ok s.loaded) × (s ≡ stamped a start s.loaded)
  unfolding new
  new-stamped a s h = grind arith

  pub check-last_check :
      (a : Accesses) (now : ℕ) (s : LoadedState K) → (check lib d a now s).last_check ≡ now
  unfolding check
  check-last_check a now s = ground arith

  check-IsFrom :
      (a : Accesses) (t now until : ℕ) (s : LoadedState K)
      → t ≤ now
      → InOrder now a until
      → IsFrom t s
      → IsFrom until (check lib d a now s)
  unfolding check
  check-IsFrom a t now until s le o f =
      elim (Bool-cases (
        same_mtime (mtime (d.cert a.cert_stat)) s.cert_mtime
        && same_mtime (mtime (d.key a.key_stat)) s.key_mtime)) [
          | inl e ↦ rw e (later f (omega arith))
          | inr e ↦ rw e (on_load-IsFrom (load lib d a.cert_read a.key_read) refl)
        ]
    where
      on_load-IsFrom :
          (r : Result _ K)
          → load lib d a.cert_read a.key_read ≡ r
          → IsFrom until (
              on_load lib
                (record s { last_check = now })
                (mtime (d.cert a.cert_stat))
                (mtime (d.key a.key_stat))
                r)
      on_load-IsFrom (ok k) l = stamped-IsFrom a now until now k o l
      on_load-IsFrom (err e) l = later f (omega arith)

  maybe_reload-IsFrom :
      (a : Accesses) (t looked locked now until : ℕ) (seen s : LoadedState K)
      → t ≤ now
      → InOrder now a until
      → IsFrom t s
      → IsFrom until (maybe_reload lib interval d a looked locked now seen s)
  unfolding maybe_reload check_if_due
  maybe_reload-IsFrom a t looked locked now until seen s le o f =
      elim (Bool-cases (is_early lib interval looked seen)) [
        | inl e ↦ rw (maybe_reload, e) (later f (omega arith))
        | inr e ↦ elim (Bool-cases (is_early lib interval locked s)) [
          | inl e' ↦ rw (maybe_reload, e, e') (later f (omega arith))
          | inr e' ↦ rw (maybe_reload, e, e') (check-IsFrom a t now until s le o f)
        ]
      ]

  pub Reach-IsFrom : {n t : ℕ} {s : LoadedState K} → Reach n t s → IsFrom t s
  Reach-IsFrom (started a s o h) =
      let (l, e) = new-stamped a s h in rw e (stamped-IsFrom a 0 start start s.loaded o l)
  Reach-IsFrom (handshake {t = t} {s = s} r a looked locked now until seen le le' o) =
      maybe_reload-IsFrom a t looked locked now until seen s (omega arith) o (Reach-IsFrom r)
