-- ===== src/Admission/Tls/Rotation.antt =====
-- crates/koprs-admission/src/tls.rs: which certificate a handshake is given, and how often the disk
-- is looked at.
use koprs.Prelude.{
  ℕ, ◌+◌, ◌*◌, ◌≤◌, ◌≡◌, refl, sym, ◌∙◌, ap, ◌&&◌, Bool, true, false, some, Bool-cases, inl, inr,
  ok, arith, length,
}
use koprs.Admission.Tls.{
  Rustls, File, Disk, Accesses, LoadedState, mtime, same_mtime, load, check, is_early, check_if_due,
  maybe_reload, current,
}
use koprs.Admission.Tls.Loaded.{Served, load-Served}
use koprs.Admission.Tls.Reloads.{
  InOrder, IsVersioned, Reach, handshake, started, IsFrom, Reach-IsFrom, same_mtime→eq,
  check-last_check, new-stamped,
}

and_true : {a b : Bool} → (a && b) ≡ true → (a ≡ true) × (b ≡ true)
and_true h = ground arith

module _ {C P K : Type 0} (lib : Rustls C P K) (d : Disk) (interval start : ℕ) where
  -- Whatever the handshakes and the processes that write the files do, and in whatever order: the
  -- certificate that is served is what rustls made of a chain, which is not empty and which it read
  -- from what the certificate file held at some moment up to now, and of a private key, which it
  -- read from what the key file held at some moment up to now, and rustls accepted the two together.
  pub current-load :
      {n t : ℕ} {s : LoadedState K} → Reach lib d interval start n t s → Served lib d t (current s)
  unfolding current
  current-load r =
      let f = Reach-IsFrom lib d interval start r in
      load-Served lib d f.cert_held f.key_held _ _ f.cert_past f.key_past f.parsed

  checks-last_check :
      (a : Accesses) (t n looked locked now : ℕ) (seen s : LoadedState K)
      → t ≤ locked
      → locked ≤ now
      → start + n * interval ≤ s.last_check
      → s.last_check ≤ t
      → let s' = maybe_reload lib interval d a looked locked now seen s in
        (start + (n + length (check_if_due lib interval d a looked locked now seen s).0) * interval
          ≤ s'.last_check)
        × (s'.last_check ≤ now)
  unfolding maybe_reload check_if_due
  checks-last_check a t n looked locked now seen s le le' h past =
      ground (arith, check-last_check lib d interval start a now s)

  Reach-last_check :
      {n t : ℕ} {s : LoadedState K}
      → Reach lib d interval start n t s
      → (start + n * interval ≤ s.last_check) × (s.last_check ≤ t)
  Reach-last_check (started a s o h) =
      let (_, e) = new-stamped lib d interval start a s h in
      let at : s.last_check ≡ start = ap LoadedState.last_check e in (omega arith, omega arith)
  Reach-last_check (handshake {n = n} {t = t} {s = s} r a looked locked now until seen le le' o) =
      let (h, past) = Reach-last_check r in
      let (h', past') = checks-last_check a t n looked locked now seen s le le' h past in
      (h', omega arith)

  -- The files are checked at most once per interval, however many handshakes there are and however
  -- they interleave: from the start on, as many intervals have passed as there were checks.
  pub checks_rate :
      {n t : ℕ} {s : LoadedState K} → Reach lib d interval start n t s → start + n * interval ≤ t
  checks_rate r = omega (arith, Reach-last_check r)

module _ {C P K : Type 0} (lib : Rustls C P K) (d : Disk) where
  load-content :
      (c k c' k' : ℕ)
      → File.content (d.cert c) ≡ File.content (d.cert c')
      → File.content (d.key k) ≡ File.content (d.key k')
      → load lib d c k ≡ load lib d c' k'
  unfolding load
  load-content c k c' k' e e' = rw (e, e') refl

module _ {C P K : Type 0} (lib : Rustls C P K) (d : Disk) (interval start t now until : ℕ)
    (a : Accesses) (s : LoadedState K) (k : K) (x y : ℕ) (cert_versioned : IsVersioned d.cert)
    (key_versioned : IsVersioned d.key) (past : t ≤ now) (order : InOrder now a until)
    (cert_mtime : mtime (d.cert a.cert_stat) ≡ some x)
    (key_mtime : mtime (d.key a.key_stat) ≡ some y)
    (cert_steady : File.content (d.cert a.cert_stat) ≡ File.content (d.cert a.cert_read))
    (key_steady : File.content (d.key a.key_stat) ≡ File.content (d.key a.key_read))
    (loads : load lib d a.cert_read a.key_read ≡ ok k) where
  unchanged-load :
      IsFrom lib d interval start t s → s.cert_mtime ≡ some x → s.key_mtime ≡ some y → s.loaded ≡ k
  unchanged-load f ex ey =
      let cert : File.content (d.cert f.cert_held) ≡ File.content (d.cert a.cert_read) =
        cert_versioned f.cert_seen f.cert_held a.cert_stat x f.cert_order
          (omega (arith, f.cert_past)) (sym f.cert_version ∙ ex) cert_mtime
        ∙ cert_steady in
      let key : File.content (d.key f.key_held) ≡ File.content (d.key a.key_read) =
        key_versioned f.key_seen f.key_held a.key_stat y f.key_order (omega (arith, f.key_past))
          (sym f.key_version ∙ ey) key_mtime
        ∙ key_steady in
      let same : load lib d f.cert_held f.key_held ≡ load lib d a.cert_read a.key_read =
        load-content lib d f.cert_held f.key_held a.cert_read a.key_read cert key in
      cc (same, f.parsed, loads)

  check-load : IsFrom lib d interval start t s → (check lib d a now s).loaded ≡ k
  unfolding check
  check-load f =
      elim (Bool-cases (
        same_mtime (mtime (d.cert a.cert_stat)) s.cert_mtime
        && same_mtime (mtime (d.key a.key_stat)) s.key_mtime)) [
          | inl e ↦ rw e (
              unchanged-load f (sym (same_mtime→eq _ _ (and_true e).0) ∙ cert_mtime)
                (sym (same_mtime→eq _ _ (and_true e).1) ∙ key_mtime))
          | inr e ↦ rw (e, loads) refl
        ]

  -- Provided that a file shows another modification time once it is rewritten, and that both files
  -- have a modification time, stay as they are during a check and load: after any history of handshakes, a handshake that
  -- comes when the interval has passed serves what the files hold now, whether it had to reload or
  -- not.
  pub maybe_reload-load :
      {n : ℕ}
      → (looked locked : ℕ) (seen : LoadedState K) → Reach lib d interval start n t s
      → is_early lib interval looked seen ≡ false
      → is_early lib interval locked s ≡ false
      → current (maybe_reload lib interval d a looked locked now seen s) ≡ k
  unfolding maybe_reload check_if_due current
  maybe_reload-load looked locked seen r e e' =
      rw (maybe_reload, e, e') (check-load (Reach-IsFrom lib d interval start r))
