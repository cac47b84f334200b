-- ===== src/Operators/Model.antt =====
-- examples/*/src: a small API server for the runs of the reconcilers. It keeps whether the
-- resource carries the finalizer and whether the child is there; another child name is not its
-- concern.
use koprs.Prelude.{
  ◌≡◌, refl, ◌∙◌, String, Bool, true, false, Option, none, str_eq, eq_refl, str_eq-false, if_true,
  if_false, if◌then◌else◌, some, List, [], ◌∷◌, Result, ok, err,
}
use koprs.Error.{KubeError, api}
use koprs.Finalizers.{Patch, json, clear, test, add, remove, add_finalizer_patch}
use koprs.Operators.{Client}
use koprs.Operators.Laws.{Holds, Goes}
use koprs.Operators.Placed.{Places}

pub record Server : Type 0 where
  pub held : Bool
  pub child : Bool

-- A patch that adds a finalizer.
abbrev adds : Patch → Bool → Bool
adds (json (test p v ∷ add q u ∷ ops)) held = true
adds (json (test p v ∷ remove q ∷ ops)) held = false
adds clear held = false
adds _ held = held

abbrev answer_delete : Bool → Result KubeError (Unit {0})
answer_delete true = ok tt
answer_delete false = err (api 404)

-- The calls on a resource are answered with `cr`.
abbrev pub client_of : {CR C S : Type 0} → CR → Client Server CR C S
client_of cr = record {
  children = record {
    list = λ t s w. (ok [], w);
    get = λ t n w. (err (api 404), w);
    delete = λ t n p w. (answer_delete w.child, record w { child = false });
    apply = λ t n r m w. (ok r, record w { child = true });
  };
  patch_finalizers = λ t n p w. (ok cr, record w { held = adds p w.held });
  patch_metadata = λ t n p w. (ok cr, w);
  patch_status = λ t n p m w. (ok cr, w);
  create_event = λ t e w. (ok tt, w);
  process = record { now = λ w. 0; hex = λ n. "0"; pod_name = some "pod-0"; hostname = none };
  time_text = λ w. "2024-01-01T00:00:00Z";
}

abbrev pub Held : Server → Type 0
Held w = w.held ≡ true

abbrev pub Gone : Server → Type 0
Gone w = w.child ≡ false

adds_added :
    (l : List String) (f : String) (b : Bool) → adds (json (add_finalizer_patch l f)) b ≡ true
unfolding add_finalizer_patch
adds_added [] f b = refl
adds_added (x ∷ l) f b = refl

module _ {CR C S : Type 0} (cr : CR) where
  pub holds_of : (finalizer : String) → Holds {C = C} {S = S} (client_of cr) finalizer Held
  holds_of finalizer = record {
    list_keeps = λ t s. record { across = λ w h. h };
    get_keeps = λ t n. record { across = λ w h. h };
    delete_keeps = λ t n p. record { across = λ w h. h };
    apply_keeps = λ t n r m. record { across = λ w h. h };
    metadata_keeps = λ t n p. record { across = λ w h. h };
    status_keeps = λ t n p m. record { across = λ w h. h };
    event_keeps = λ t e. record { across = λ w h. h };
    add_keeps = λ t n l. record { across = λ w h. adds_added l finalizer w.held };
    add_ok = λ t n l w r e. adds_added l finalizer w.held;
  }

  pub goes_of : (namespace name : String) → Goes {C = C} {S = S} (client_of cr) namespace name Gone
  goes_of namespace name = record {
    delete_keeps = λ p. record { across = λ w h. refl };
    delete_ok = λ p w e. refl;
    delete_missing = λ p w e. refl;
    finalizers_keep = λ t n p. record { across = λ w h. h };
  }

-- A server that keeps the child of one name.
abbrev pub stores : {CR C S : Type 0} → CR → String → Client (Option C) CR C S
stores cr name = record {
  children = record {
    list = λ t s w. (ok [], w);
    get = λ t n w. (err (api 404), w);
    delete = λ t n p w. (ok tt, if str_eq n name then none else w);
    apply = λ t n r m w. (ok r, if str_eq n name then some r else w);
  };
  patch_finalizers = λ t n p w. (ok cr, w);
  patch_metadata = λ t n p w. (ok cr, w);
  patch_status = λ t n p m w. (ok cr, w);
  create_event = λ t e w. (ok tt, w);
  process = record { now = λ w. 0; hex = λ n. "0"; pod_name = some "pod-0"; hostname = none };
  time_text = λ w. "2024-01-01T00:00:00Z";
}

abbrev pub Stores : {C : Type 0} → C → Option C → Type 0
Stores child w = w ≡ some child

pub stores-Places :
    {CR C S : Type 0} (cr : CR) (name namespace : String) (child : C) (manager : String)
    → Places {S = S} (stores cr name) namespace name child manager (Stores child)
stores-Places cr name namespace child manager = record {
  apply_ok = λ w r e. if_true (str_eq name name) _ _ (eq_refl name);
  list_keeps = λ t s. record { across = λ w h. h };
  delete_keeps = λ t n p other. record {
    across = λ w h. if_false (str_eq n name) _ _ (str_eq-false n name other) ∙ h;
  };
  metadata_keeps = λ t n p. record { across = λ w h. h };
  status_keeps = λ t n p m. record { across = λ w h. h };
  event_keeps = λ t e. record { across = λ w h. h };
}
