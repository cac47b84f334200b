-- ===== src/Gc/Examples.antt =====
-- crates/koprs/src/gc.rs: a collection over a small server. The environment lists the names that
-- were deleted.
use koprs.Prelude.{
  ◌≡◌, refl, String, Bool, true, false, none, some, List, [], ◌∷◌, ◌++◌, str_eq, ok, err,
}
use koprs.Error.{KubeError, api, kube, config}
use koprs.Kube.{ObjectMeta, default_meta, KubeResource, ApiServer}
use koprs.Scope.{cluster, into_api}
use koprs.Gc.{is_blank, gc_resources}
use koprs.Gc.Orphans.{orphans, delete_each, gc_resources-deletes_orphans}

abbrev resource : KubeResource ObjectMeta
resource = record { api_version = "v1"; kind = "ConfigMap"; meta = λ m. m; set_meta = λ r m. m }

abbrev named : String → ObjectMeta
named n = record default_meta { name = some n; uid = some n }

abbrev server : ApiServer (List String) ObjectMeta
server = record {
  list = λ t sel w. (ok (named "a" ∷ named "b" ∷ named "c" ∷ []), w);
  get = λ t n w. (err (api 404), w);
  delete = λ t n p w. (ok tt, w ++ n ∷ []);
  apply = λ t n r m w. (ok r, w);
}

abbrev wanted : ObjectMeta → Bool
wanted m = elim m.name [ none ↦ false | some n ↦ str_eq n "b" ]

deletes_two : gc_resources resource server cluster "app=x" wanted [] ≡ (ok tt, "a" ∷ "c" ∷ [])
unfolding gc_resources is_blank
deletes_two = refl

gc_resources-deletes_orphans_example :
    let run = gc_resources resource server cluster "app=x" wanted [] in
    let listed = server.list (into_api cluster) (some "app=x") [] in
    (is_blank "app=x" ≡ true
      → run ≡ (err (config "gc_resources requires a non-empty label selector"), []))
    × ((e : KubeError)
        → is_blank "app=x" ≡ false
        → listed.0 ≡ err e
        → run ≡ (err (kube e), listed.1))
    × ((existing : List ObjectMeta)
        → is_blank "app=x" ≡ false
        → listed.0 ≡ ok existing
        → run
          ≡ delete_each resource server cluster (orphans resource server wanted existing) listed.1)
gc_resources-deletes_orphans_example =
    gc_resources-deletes_orphans resource server cluster "app=x" wanted []
