-- ===== src/Admission/Tls/Examples.antt =====
-- crates/koprs-admission/src/tls.rs: a certificate that is rotated at moment 100.
use koprs.Prelude.{
  false, ℕ, ◌+◌, ◌*◌, ◌≤◌, ◌≡◌, refl, String, some, [], ◌∷◌, str_eq, ltb, if◌then◌else◌, ok, err,
  arith,
}
use koprs.Admission.Tls.{
  Rustls, File, Disk, Accesses, LoadedState, mtime, load, new, is_early, check_if_due, maybe_reload,
  current, resolve, reloading,
}
use koprs.Admission.Tls.Loaded.{Served}
use koprs.Admission.Tls.Reloads.{IsVersioned, Reach, started, handshake}
use koprs.Admission.Tls.Rotation.{current-load, checks_rate, maybe_reload-load}

-- A key pair is accepted when both parts are the same.
abbrev lib : Rustls String String String
lib = record {
  certs = λ s. ok (s ∷ []);
  private_key = λ s. ok (some s);
  from_der = λ cs k. elim cs [
    | [] ↦ err "no certificate"
    | c ∷ rest ↦ if str_eq c k then ok k else err "the key does not match"
  ];
  safe_default_protocol_versions = ok tt;
}

abbrev file : ℕ → ℕ → File
file rotated t =
    if ltb t rotated
    then record { modified = ok 1; content = ok "old" }
    else record { modified = ok 90; content = ok "new" }

-- The certificate is rotated before its key.
abbrev disk : Disk
disk = record { cert = file 100; key = file 110 }

abbrev at_start : Accesses
at_start = record { cert_stat = 1; key_stat = 2; cert_read = 3; key_read = 4 }

abbrev between : Accesses
between = record { cert_stat = 101; key_stat = 102; cert_read = 103; key_read = 104 }

abbrev after : Accesses
after = record { cert_stat = 201; key_stat = 202; cert_read = 203; key_read = 204 }

abbrev first : LoadedState String
first = record { loaded = "old"; cert_mtime = some 1; key_mtime = some 1; last_check = 5 }

new-first : new lib disk at_start 5 ≡ ok first
unfolding new
new-first = refl

-- While only one of the files is rewritten, the old certificate is kept, and the next check retries.
abbrev kept : LoadedState String
kept = maybe_reload lib 50 disk between 100 100 100 first first

kept_old : kept ≡ record first { last_check = 100 }
unfolding maybe_reload
kept_old = refl

retried : resolve lib disk after 200 200 200 (reloading 50 kept) ≡ (
  some "new",
  reloading 50
      (record { loaded = "new"; cert_mtime = some 90; key_mtime = some 90; last_check = 200 }),
)
unfolding resolve
retried = refl

too_early : resolve lib disk after 149 149 149 (reloading 50 kept) ≡ (some "old", reloading 50 kept)
unfolding resolve
too_early = refl

file-IsVersioned : (rotated : ℕ) → IsVersioned (file rotated)
unfolding mtime
file-IsVersioned rotated t u v x le le' h h' = ground arith

history : Reach lib disk 50 5 1 104 kept
unfolding check_if_due
history =
    handshake
      (started at_start first (omega arith, omega arith, omega arith, omega arith, omega arith)
        new-first)
      between 100 100 100 104 first (omega arith) (omega arith)
      (omega arith, omega arith, omega arith, omega arith, omega arith)

current-load_example : Served lib disk 104 (current kept)
current-load_example = current-load lib disk 50 5 history

checks_rate_example : 5 + 1 * 50 ≤ 104
checks_rate_example = checks_rate lib disk 50 5 history

shown : mtime (file 100 201) ≡ some 90
unfolding mtime
shown = refl

loads : load lib disk 203 204 ≡ ok "new"
unfolding load
loads = refl

late : is_early lib 50 200 kept ≡ false
unfolding maybe_reload
late = refl

maybe_reload-load_example : current (maybe_reload lib 50 disk after 200 200 200 kept kept) ≡ "new"
maybe_reload-load_example =
    maybe_reload-load lib disk 50 5 104 200 204 after kept "new" 90 90 (file-IsVersioned 100)
      (file-IsVersioned 110) (omega arith)
      (omega arith, omega arith, omega arith, omega arith, omega arith) shown shown refl refl loads
      200 200 kept history late late
