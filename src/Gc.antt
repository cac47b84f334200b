-- ===== src/Gc.antt =====
-- crates/koprs/src/gc.rs: garbage collection of resources that are no more desired.
pub mod Orphans
pub mod Examples
use Prim.Native.Char.{code}
use Prim.Native.String
use koprs.Prelude.{
  ℕ, String, Bool, true, false, not, ◌&&◌, ◌||◌, Option, none, some, List, [], ◌∷◌, leb, ◌==◌,
  if◌then◌else◌, Result, ok, err, map_err, is_some,
}
use koprs.Prelude.Tasks.{Task, ◌>>=◌, ◌>>◌, done}
use koprs.Error.{KubeError, KubeGenericError, api, kube, config}
use koprs.Kube.{
  ObjectMeta, KubeResource, ApiServer, DeleteParams, Target, is_being_deleted, name_any,
}
use koprs.Scope.{Scope, into_api, object_api}

-- `char::is_whitespace`: the code points with the property White_Space.
unfoldable pub is_whitespace : ℕ → Bool
is_whitespace c =
    (leb 9 c && leb c 13)
    || c == 32
    || c == 133
    || c == 160
    || c == 5760
    || (leb 8192 c && leb c 8202)
    || c == 8232
    || c == 8233
    || c == 8239
    || c == 8287
    || c == 12288

-- `s.trim().is_empty()`.
unfoldable pub is_blank : String → Bool
unfolding is_whitespace
is_blank String.[] = true
is_blank (String.◌∷◌ c s) = is_whitespace (code c) && is_blank s

-- The result of one delete: 404 and 409 are passed over.
abbrev pub delete_outcome : Result KubeError (Unit {0}) → Result KubeGenericError (Unit {0})
delete_outcome (ok u) = ok tt
delete_outcome (err (api code)) =
    if code == 404 then ok tt else if code == 409 then ok tt else err (kube (api code))
delete_outcome (err e) = err (kube e)

module _ {W T : Type 0} (k : KubeResource T) (server : ApiServer W T) where
  unfoldable pub delete_orphan : Scope → T → Task W KubeGenericError (Unit {0})
  delete_orphan scope r w =
      let m = k.meta r in
      let answer =
        server.delete (object_api scope m.namespace) (name_any m)
          (record { background = true; uid_precondition = m.uid }) w in
      (delete_outcome answer.0, answer.1)

  unfoldable pub gc_loop : Scope → (T → Bool) → List T → Task W KubeGenericError (Unit {0})
  unfolding delete_orphan is_being_deleted
  gc_loop scope is_desired [] = done (ok tt)
  gc_loop scope is_desired (r ∷ rs) =
      let rest = gc_loop scope is_desired rs in
      if is_desired r
      then rest
      else if is_being_deleted k r
      then rest
      else (do delete_orphan scope r; rest)

  unfoldable pub gc_resources : Scope → String → (T → Bool) → Task W KubeGenericError (Unit {0})
  unfolding gc_loop
  gc_resources scope selector is_desired =
      if is_blank selector
      then done (err (config "gc_resources requires a non-empty label selector"))
      else (λ w.
          let listed = server.list (into_api scope) (some selector) w in
          elim listed.0 [
            | err e ↦ (err (kube e), listed.1)
            | ok existing ↦ gc_loop scope is_desired existing listed.1
          ])
