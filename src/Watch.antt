-- ===== src/Watch.antt =====
-- crates/koprs/src/watcher.rs: the tasks that forward a watch to a channel. The stream of
-- kube-runtime is a parameter: what it yields so far for a target and its settings, and likewise the
-- applied objects of it. The receivers take all messages, or some number of them until they are
-- dropped.
pub mod Forwarded
pub mod Examples
use koprs.Prelude.{
  ℕ, zero, suc, String, Bool, true, false, Option, none, some, List, [], ◌∷◌, ◌++◌, Result, ok, err,
}
use koprs.Kube.{Target}
use koprs.Scope.{Scope, into_api}

pub data WatchEvent (T : Type 0) : Type 0 where
  applied : T → WatchEvent T
  deleted : T → WatchEvent T

-- `kube_runtime::watcher::Event`.
pub data RuntimeEvent (T : Type 0) : Type 0 where
  apply : T → RuntimeEvent T
  delete : T → RuntimeEvent T
  init_apply : T → RuntimeEvent T
  init init_done : RuntimeEvent T

-- The match of `watch_events`.
unfoldable pub message : {T : Type 0} → RuntimeEvent T → Option (WatchEvent T)
message (apply r) = some (applied r)
message (delete r) = some (deleted r)
message (init_apply r) = some (applied r)
message init = none
message init_done = none

-- `tx.send(..).await.ok()`: what the receivers get, and how many messages they still take.
abbrev pub send : {A : Type 0} → Option A → Option ℕ → List A × Option ℕ
send none accepts = ([], accepts)
send (some a) none = (a ∷ [], none)
send (some a) (some zero) = ([], some zero)
send (some a) (some (suc n)) = (a ∷ [], some n)

module _ {E A B : Type 0} (f : A → Option B) where
  -- `try_for_each` over what the stream yields: what the receivers get, and whether the task still
  -- runs.
  unfoldable pub try_for_each : Option ℕ → List (Result E A) → List B × Bool
  try_for_each accepts [] = ([], true)
  try_for_each accepts (err e ∷ stream) = ([], false)
  try_for_each accepts (ok a ∷ stream) =
      let (sent, left) = send (f a) accepts in
      let (more, running) = try_for_each left stream in (sent ++ more, running)

-- The settings of a watch.
unfoldable pub watch_config :
    {Config : Type 0} → Config → (Config → String → Config) → Option String → Config
watch_config default labels none = default
watch_config default labels (some selector) = labels default selector

module _ {Config E T : Type 0} (default : Config) (labels : Config → String → Config) where
  module _ (applied_objects : Target → Config → List (Result E T)) where
    unfoldable pub spawn_watcher : Target → Config → Option ℕ → List (Unit {0}) × Bool
    unfolding try_for_each
    spawn_watcher api config accepts =
        try_for_each (λ r. some tt) accepts (applied_objects api config)

    unfoldable pub watch : Scope → Option String → Option ℕ → List (Unit {0}) × Bool
    unfolding spawn_watcher watch_config
    watch scope selector accepts =
        spawn_watcher (into_api scope) (watch_config default labels selector) accepts

    unfoldable pub watch_objects : Scope → Option String → Option ℕ → List T × Bool
    unfolding try_for_each watch_config
    watch_objects scope selector accepts =
        try_for_each (λ r. some r) accepts
          (applied_objects (into_api scope) (watch_config default labels selector))

  unfoldable pub watch_events :
      (Target → Config → List (Result E (RuntimeEvent T)))
      → Scope
      → Option String
      → Option ℕ
      → List (WatchEvent T) × Bool
  unfolding try_for_each message watch_config
  watch_events watcher scope selector accepts =
      try_for_each message accepts (watcher (into_api scope) (watch_config default labels selector))
