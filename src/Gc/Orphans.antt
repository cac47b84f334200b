-- ===== src/Gc/Orphans.antt =====
-- crates/koprs/src/gc.rs: a collection deletes the orphans, in the order of the list.
use koprs.Prelude.{
  Option, none, ◌||◌, ◌==◌, arith, Result, ◌≡◌, refl, String, Bool, true, false, not, ◌&&◌, some,
  List, [], ◌∷◌, if◌then◌else◌, ok, err, Bool-cases, inl, inr,
}
use koprs.Prelude.Tasks.{Task, ◌>>◌}
use koprs.Error.{KubeError, api, client, KubeGenericError, config, kube}
use koprs.Kube.{
  Target, all, namespaced, name_any, DeleteParams, KubeResource, ApiServer, is_being_deleted,
}
use koprs.Scope.{Scope, cluster, in_namespace, all_namespaces, object_api, into_api}
use koprs.Gc.{delete_outcome, is_blank, delete_orphan, gc_loop, gc_resources}

-- Where an object of a scope is deleted: in the namespace of the scope, or, if that is all
-- namespaces, in its own.
abbrev home : Scope → Option String → Target
home cluster own = all
home (in_namespace ns) own = namespaced ns
home all_namespaces none = all
home all_namespaces (some own) = namespaced own

object_api-home : (scope : Scope) (own : Option String) → object_api scope own ≡ home scope own
unfolding object_api
object_api-home cluster own = refl
object_api-home (in_namespace ns) own = refl
object_api-home all_namespaces none = refl
object_api-home all_namespaces (some own) = refl

module _ {W T : Type 0} (k : KubeResource T) (server : ApiServer W T) where
  -- Neither desired nor on its way out.
  unfoldable pub is_orphan : (T → Bool) → T → Bool
  is_orphan is_desired r = not (is_desired r) && not (is_being_deleted k r)

  pub orphans : (T → Bool) → List T → List T
  orphans is_desired [] = []
  orphans is_desired (r ∷ rs) =
      if is_orphan is_desired r then r ∷ orphans is_desired rs else orphans is_desired rs

  -- After the answer to a delete: an object that is gone (404) or was replaced by another (409) is
  -- as good as deleted, and any other error ends the collection.
  abbrev unless_failed :
      Result KubeError (Unit {0})
      → Result KubeGenericError (Unit {0}) × W
      → W
      → Result KubeGenericError (Unit {0}) × W
  unless_failed (ok u) rest w = rest
  unless_failed (err (api code)) rest w =
      if code == 404 || code == 409 then rest else (err (kube (api code)), w)
  unless_failed (err (client e)) rest w = (err (kube (client e)), w)

  -- Delete each resource of a list, until a call fails: where it lives, by its name, in the
  -- background, and only if it is still the object that was listed.
  pub delete_each : Scope → List T → Task W KubeGenericError (Unit {0})
  delete_each scope [] w = (ok tt, w)
  delete_each scope (r ∷ rs) w =
      let m = k.meta r in
      let params : DeleteParams = record { background = true; uid_precondition = m.uid } in
      let answer = server.delete (home scope m.namespace) (name_any m) params w in
      let rest = delete_each scope rs answer.1 in unless_failed answer.0 rest answer.1

  unless_failed_lem :
      (answer : Result KubeError (Unit {0})) (t t' : Task W KubeGenericError (Unit {0})) (w : W)
      → t w ≡ t' w
      → ((λ v. (delete_outcome answer, w)) >> t) w ≡ unless_failed answer (t' w) w
  unless_failed_lem (ok u) t t' w e = e
  unless_failed_lem (err (api code)) t t' w e = ground (arith, e)
  unless_failed_lem (err (client c)) t t' w e = refl

  gc_loop-orphans :
      (scope : Scope) (is_desired : T → Bool) (rs : List T) (w : W)
      → gc_loop k server scope is_desired rs w ≡ delete_each scope (orphans is_desired rs) w
  unfolding gc_loop orphans delete_each is_orphan delete_orphan
  gc_loop-orphans scope is_desired [] w = refl
  gc_loop-orphans scope is_desired (r ∷ rs) w = elim (Bool-cases (is_desired r)) [
    | inl want ↦ rw want (gc_loop-orphans scope is_desired rs w)
    | inr orphan ↦ elim (Bool-cases (is_being_deleted k r)) [
      | inl going ↦ rw (orphan, going) (gc_loop-orphans scope is_desired rs w)
      | inr here ↦
          let m = k.meta r in
          let params : DeleteParams = record { background = true; uid_precondition = m.uid } in
          let answer = server.delete (home scope m.namespace) (name_any m) params w in
          rw (orphan, here, object_api-home scope m.namespace)
            (unless_failed_lem answer.0 (gc_loop k server scope is_desired rs)
              (delete_each scope (orphans is_desired rs)) answer.1
              (gc_loop-orphans scope is_desired rs answer.1))
    ]
  ]

  -- A collection without a selector calls nothing and fails; one whose listing fails deletes
  -- nothing; any other deletes exactly the listed resources that are neither desired nor already
  -- being deleted, in the order of the list, each by its name in the namespace of the scope, or in its
  -- own if the scope is all namespaces, with its listed uid as the precondition, up to the first
  -- call that fails with anything but 404 or 409.
  pub gc_resources-deletes_orphans :
      (scope : Scope) (selector : String) (is_desired : T → Bool) (w : W)
      → let run = gc_resources k server scope selector is_desired w in
        let listed = server.list (into_api scope) (some selector) w in
        (is_blank selector ≡ true
          → run ≡ (err (config "gc_resources requires a non-empty label selector"), w))
        × ((e : KubeError)
            → is_blank selector ≡ false
            → listed.0 ≡ err e
            → run ≡ (err (kube e), listed.1))
        × ((existing : List T)
            → is_blank selector ≡ false
            → listed.0 ≡ ok existing
            → run ≡ delete_each scope (orphans is_desired existing) listed.1)
  unfolding gc_resources
  gc_resources-deletes_orphans scope selector is_desired w = (
    λ blank. rw blank,
    λ e named failed. rw (named, failed),
    λ existing named got.
        rw (named, got)
          (gc_loop-orphans scope is_desired existing
            (server.list (into_api scope) (some selector) w).1),
  )
