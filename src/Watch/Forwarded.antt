-- ===== src/Watch/Forwarded.antt =====
-- crates/koprs/src/watcher.rs: what the receivers of a watch get, and when its task ends.
use koprs.Prelude.{
  ℕ, zero, suc, ◌≡◌, refl, ap, ◌∙◌, map, String, Bool, true, false, Option, none, some, List, [],
  ◌∷◌, ◌++◌, Result, ok, err,
}
use koprs.Kube.{Target}
use koprs.Scope.{Scope, into_api}
use koprs.Watch.{
  RuntimeEvent, apply, delete, init_apply, init, init_done, WatchEvent, applied, deleted, message,
  send, try_for_each, watch_config, spawn_watcher, watch, watch_objects, watch_events,
}

-- What a stream yields before its first error.
abbrev pub before_error : {E A : Type 0} → List (Result E A) → List A
before_error [] = []
before_error (err e ∷ stream) = []
before_error (ok a ∷ stream) = a ∷ before_error stream

abbrev pub without_error : {E A : Type 0} → List (Result E A) → Bool
without_error [] = true
without_error (err e ∷ stream) = false
without_error (ok a ∷ stream) = without_error stream

abbrev pub cons_some : {B : Type 0} → Option B → List B → List B
cons_some none bs = bs
cons_some (some b) bs = b ∷ bs

abbrev pub filter_map : {A B : Type 0} → (A → Option B) → List A → List B
filter_map f [] = []
filter_map f (a ∷ rest) = cons_some (f a) (filter_map f rest)

-- The first messages, as many as the receivers take.
abbrev pub take : {B : Type 0} → Option ℕ → List B → List B
take none bs = bs
take (some n) [] = []
take (some zero) (b ∷ bs) = []
take (some (suc n)) (b ∷ bs) = b ∷ take (some n) bs

take-zero : {B : Type 0} (bs : List B) → take (some zero) bs ≡ []
take-zero [] = refl
take-zero (b ∷ bs) = refl

sent_lem :
    {B : Type 0} (o : Option B) (accepts : Option ℕ) (bs : List B)
    → (send o accepts).0 ++ take (send o accepts).1 bs ≡ take accepts (cons_some o bs)
sent_lem none accepts bs = refl
sent_lem (some b) none bs = refl
sent_lem (some b) (some zero) bs = take-zero bs
sent_lem (some b) (some (suc n)) bs = refl

module _ {E A B : Type 0} (f : A → Option B) where
  pub forwarded_lem :
      (accepts : Option ℕ) (stream : List (Result E A))
      → try_for_each f accepts stream
        ≡ (take accepts (filter_map f (before_error stream)), without_error stream)
  unfolding try_for_each
  forwarded_lem none [] = refl
  forwarded_lem (some n) [] = refl
  forwarded_lem none (err e ∷ stream) = refl
  forwarded_lem (some n) (err e ∷ stream) = refl
  forwarded_lem accepts (ok a ∷ stream) = rw (forwarded_lem (send (f a) accepts).1 stream) (
      ap (λ x. (x, without_error stream))
        (sent_lem (f a) accepts (filter_map f (before_error stream))))

-- What an event tells the receivers: an object that was applied, or observed at a restart, is
-- applied; one that was deleted is deleted; the start and the end of a restart tell nothing.
abbrev pub told : {T : Type 0} → RuntimeEvent T → List (WatchEvent T)
told (apply r) = applied r ∷ []
told (init_apply r) = applied r ∷ []
told (delete r) = deleted r ∷ []
told init = []
told init_done = []

abbrev pub all_told : {T : Type 0} → List (RuntimeEvent T) → List (WatchEvent T)
all_told [] = []
all_told (e ∷ es) = told e ++ all_told es

cons_some-told :
    {T : Type 0} (e : RuntimeEvent T) (es : List (WatchEvent T))
    → cons_some (message e) es ≡ told e ++ es
unfolding message
cons_some-told (apply r) es = refl
cons_some-told (delete r) es = refl
cons_some-told (init_apply r) es = refl
cons_some-told init es = refl
cons_some-told init_done es = refl

filter_map-message : {T : Type 0} (es : List (RuntimeEvent T)) → filter_map message es ≡ all_told es
filter_map-message [] = refl
filter_map-message (e ∷ es) = rw (filter_map-message es) (cons_some-told e (all_told es))

-- The settings of a watch: the default ones, restricted to the selector if there is one.
abbrev pub settings : {C : Type 0} → C → (C → String → C) → Option String → C
settings default labels selector = elim selector [ none ↦ default | some s ↦ labels default s ]

settings_lem :
    {C : Type 0} (default : C) (labels : C → String → C) (selector : Option String)
    → watch_config default labels selector ≡ settings default labels selector
unfolding watch_config
settings_lem default labels none = refl
settings_lem default labels (some s) = refl

abbrev pub unit_of : {T : Type 0} → T → Unit {0}
unit_of r = tt

module _ {Config E T : Type 0} (default : Config) (labels : Config → String → Config)
    (applied_objects : Target → Config → List (Result E T))
    (watcher : Target → Config → List (Result E (RuntimeEvent T))) where
  filter_map_units : (rs : List T) → filter_map (λ r. some tt) rs ≡ map unit_of rs
  filter_map_units [] = refl
  filter_map_units (r ∷ rs) = ap (◌∷◌ tt) (filter_map_units rs)

  filter_map_all : (rs : List T) → filter_map (λ r. some r) rs ≡ rs
  filter_map_all [] = refl
  filter_map_all (r ∷ rs) = ap (◌∷◌ r) (filter_map_all rs)

  -- Each watch asks for the target of its scope with its selector. Up to the first error of the
  -- stream, its receivers get, as long as they take messages and in order, a signal for each applied
  -- object (`watch`), the object (`watch_objects`), or an event for each object that was applied,
  -- observed at a restart or deleted (`watch_events`). The task ends at the first error and only
  -- there: it runs on when its receivers are gone.
  pub watches_forward :
      (scope : Scope) (selector : Option String) (accepts : Option ℕ)
      → let config = settings default labels selector in
        let objects = applied_objects (into_api scope) config in
        let events = watcher (into_api scope) config in
        (watch default labels applied_objects scope selector accepts
          ≡ (take accepts (map unit_of (before_error objects)), without_error objects))
        × (watch_objects default labels applied_objects scope selector accepts
            ≡ (take accepts (before_error objects), without_error objects))
        × (watch_events default labels watcher scope selector accepts
            ≡ (take accepts (all_told (before_error events)), without_error events))
  unfolding spawn_watcher watch watch_objects watch_events
  watches_forward scope selector accepts =
      let config = settings default labels selector in
      let objects = applied_objects (into_api scope) config in
      let all = before_error objects in
      let events = watcher (into_api scope) config in
      rw (settings_lem default labels selector) (
        forwarded_lem (λ r. some tt) accepts objects
            ∙ ap (λ x. (take accepts x, without_error objects)) (filter_map_units all),
        forwarded_lem (λ r. some r) accepts objects
            ∙ ap (λ x. (take accepts x, without_error objects)) (filter_map_all all),
        forwarded_lem message accepts events
            ∙ ap (λ x. (take accepts x, without_error events))
                (filter_map-message (before_error events)),
      )
