-- ===== src/Resources/Outcomes.antt =====
-- crates/koprs/src/resources.rs: what `ensure_resource` reports.
use koprs.Prelude.{
  ℕ, ◌≡◌, refl, subst, ◌↔◌, String, false, Option, none, some, ◌==◌, Result, ok, err, arith,
  map_err, Bool-cases, inl, inr,
}
use koprs.Prelude.Tasks.{done, continue}
use koprs.Error.{KubeError, KubeGenericError, api, client, kube}
use koprs.Kube.{KubeResource, ApiServer}
use koprs.Scope.{Scope, into_api}
use koprs.Resources.{
  EnsureOutcome, into_resource, was_changed, classify, get_answer, version_of, ensure_resource,
}

classify_iff :
    {T : Type 0} (live applied : Option ℕ) (r : T)
    → (was_changed (classify live applied r) ≡ false)
      ↔ ((v : ℕ) × (live ≡ some v) × (applied ≡ some v))
unfolding was_changed
classify_iff none applied r = (λ h. absurd (ground arith), λ (v, p, q). absurd (ground arith))
classify_iff (some old) none r = (λ h. absurd (ground arith), λ (v, p, q). absurd (ground arith))
classify_iff (some old) (some new) r = (λ h. (old, refl, ground arith), λ (v, p, q). ground arith)

into_resource-classify :
    {T : Type 0} (live applied : Option ℕ) (r : T) → into_resource (classify live applied r) ≡ r
unfolding into_resource
into_resource-classify none applied r = refl
into_resource-classify (some old) applied r = ground arith

err_ok :
    {E A W : Type 0} {e : E} {a : A} {v w : W} → ◌≡◌ {A = Result E A × W} (err e, v) (ok a, w) → ⊥
err_ok h = cc

module _ {W T : Type 0} (k : KubeResource T) (server : ApiServer W T) where
  -- The version of the object that the server answers a GET with.
  abbrev pub version_answered : Result KubeError T → Option ℕ
  version_answered (ok r) = (k.meta r).resource_version
  version_answered (err e) = none

  abbrev Reported : Option ℕ → EnsureOutcome T → Type 0
  Reported live o =
      (was_changed o ≡ false)
      ↔ ((v : ℕ) × (live ≡ some v) × ((k.meta (into_resource o)).resource_version ≡ some v))

  classify-Reported :
      (live : Option ℕ) (a : T) → Reported live (classify live (k.meta a).resource_version a)
  classify-Reported live a =
      rw (into_resource-classify live (k.meta a).resource_version a)
        (classify_iff live (k.meta a).resource_version a)

  -- What follows the apply, and what follows the GET.
  abbrev after_apply :
      Option ℕ → Result KubeError T × W → Result KubeGenericError (EnsureOutcome T) × W
  after_apply live x =
      continue (map_err kube x.0) (λ a. done (ok (classify live (k.meta a).resource_version a))) x.1

  after_apply_lem :
      (live : Option ℕ) (x : Result KubeError T × W) (o : EnsureOutcome T) (w' : W)
      → after_apply live x ≡ (ok o, w')
      → (x ≡ (ok (into_resource o), w')) × Reported live o
  after_apply_lem live (ok a, v) o w' h =
      let e : classify live (k.meta a).resource_version a ≡ o = cc in
      let f : v ≡ w' = cc in
      (
        rw (← e, into_resource-classify live (k.meta a).resource_version a, f),
        subst (Reported live) e (classify-Reported live a),
      )
  after_apply_lem live (err x, v) o w' h = cc

  abbrev apply_now : Scope → T → String → String → W → Result KubeError T × W
  apply_now scope r name manager v = server.apply (into_api scope) name r manager v

  after_get_lem :
      (scope : Scope) (r : T) (name manager : String) (g : Result KubeError T) (v w' : W)
      (o : EnsureOutcome T)
      → continue
          (get_answer g)
          (λ live v'. after_apply (version_of k server live) (apply_now scope r name manager v'))
          v
        ≡ (ok o, w')
      → (apply_now scope r name manager v ≡ (ok (into_resource o), w'))
        × Reported (version_answered g) o
  after_get_lem scope r name manager (ok live) v w' o h = after_apply_lem _ _ o w' h
  after_get_lem scope r name manager (err (api code)) v w' o h = elim (Bool-cases (code == 404)) [
    | inl gone ↦ after_apply_lem none _ o w' (rw gone at h)
    | inr other ↦ absurd (err_ok (rw other at h))
  ]
  after_get_lem scope r name manager (err (client e)) v w' o h = cc

  -- When `ensure_resource` of a resource with a name succeeds, it carries the applied object, and it reports no change exactly
  -- if the object was there before with a version, and the applied object has that version.
  pub ensure_resource_reports :
      (scope : Scope) (r : T) (name manager : String) (w w' : W) (o : EnsureOutcome T)
      → (k.meta r).name ≡ some name
      → ensure_resource k server scope r manager w ≡ (ok o, w')
      → let got = server.get (into_api scope) name w in
        ((server.apply (into_api scope) name r manager got.1) ≡ (ok (into_resource o), w'))
        × ((was_changed o ≡ false) ↔ (
            (v : ℕ) × (version_answered got.0 ≡ some v)
            × ((k.meta (into_resource o)).resource_version ≡ some v)))
  unfolding ensure_resource
  ensure_resource_reports scope r name manager w w' o named h =
      after_get_lem scope r name manager (server.get (into_api scope) name w).0
        (server.get (into_api scope) name w).1 w' o (rw named at h)
