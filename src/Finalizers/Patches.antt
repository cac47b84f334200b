-- ===== src/Finalizers/Patches.antt =====
-- crates/koprs/src/finalizers.rs: what the patches do to the finalizers of the live object.
use koprs.Prelude.{
  ℕ, suc, zero, ◌≡◌, ◌≢◌, refl, ap, ◌∙◌, String, Bool, true, false, Option, none, some, List, [],
  ◌∷◌, ◌++◌, str_eq, eq_iff, arith, if◌then◌else◌, opt_str_eq, opt_str_eq_iff, if_true, if_false,
}
use koprs.Finalizers.{
  Operation, test, add, remove, field, end, entry, null_value, strings, string, add_finalizer_patch,
  remove_finalizer_patch,
}

abbrev pub get_elem? : List String → ℕ → Option String
get_elem? [] i = none
get_elem? (x ∷ xs) zero = some x
get_elem? (x ∷ xs) (suc i) = get_elem? xs i

abbrev pub erase_at : List String → ℕ → List String
erase_at [] i = []
erase_at (x ∷ xs) zero = xs
erase_at (x ∷ xs) (suc i) = x ∷ erase_at xs i

abbrev pub list_eq : List String → List String → Bool
list_eq [] [] = true
list_eq (x ∷ xs) (y ∷ ys) = if str_eq x y then list_eq xs ys else false
list_eq _ _ = false

-- The API server leaves an empty list of finalizers out of the object.
abbrev pub stored : List String → Option (List String)
stored [] = none
stored (f ∷ fs) = some (f ∷ fs)

-- What RFC 6902 and the API server's implementation of it say of the operations that the module
-- uses: they run in order, the first that fails fails the patch, and `test` with null holds of a
-- field that is absent.
pub record JsonPatch : Type 0 where
  pub apply : List Operation → Option (List String) → Option (Option (List String))
  pub apply_nil : (l : Option (List String)) → apply [] l ≡ some l
  pub test_null :
      (ops : List Operation) (l : List String)
      → apply (test field null_value ∷ ops) (stored l)
        ≡ (if list_eq l [] then apply ops (stored l) else none)
  pub test_list :
      (ops : List Operation) (f : String) (fs l : List String)
      → apply (test field (strings (f ∷ fs)) ∷ ops) (stored l)
        ≡ (if list_eq l (f ∷ fs) then apply ops (stored l) else none)
  pub test_entry :
      (ops : List Operation) (i : ℕ) (f : String) (l : List String)
      → apply (test (entry i) (string f) ∷ ops) (stored l)
        ≡ (if opt_str_eq (get_elem? l i) (some f) then apply ops (stored l) else none)
  pub add_field :
      (ops : List Operation) (new : List String) (l : Option (List String))
      → apply (add field (strings new) ∷ ops) l ≡ apply ops (some new)
  pub add_end :
      (ops : List Operation) (new : String) (l : List String)
      → apply (add end (string new) ∷ ops) (some l) ≡ apply ops (some (l ++ new ∷ []))
  pub remove_entry :
      (ops : List Operation) (i : ℕ) (f : String) (l : List String)
      → get_elem? l i ≡ some f
      → apply (remove (entry i) ∷ ops) (some l) ≡ apply ops (some (erase_at l i))

list_eq-eq : (xs ys : List String) → list_eq xs ys ≡ true → xs ≡ ys
list_eq-eq [] [] h = refl
list_eq-eq [] (y ∷ ys) h = cc
list_eq-eq (x ∷ xs) [] h = cc
list_eq-eq (x ∷ xs) (y ∷ ys) h =
    let rest = λ (r : list_eq xs ys ≡ true). list_eq-eq xs ys r in
    ground (arith, eq_iff x y, list_eq-eq xs ys)

split_at :
    (l : List String) (i : ℕ) (f : String)
    → get_elem? l i ≡ some f
    → (before rest : List String) × (l ≡ before ++ f ∷ rest) × (erase_at l i ≡ before ++ rest)
split_at [] i f h = absurd (ground arith)
split_at (x ∷ xs) zero f h = ([], xs, cc, refl)
split_at (x ∷ xs) (suc i) f h =
    let (before, rest, e, r) = split_at xs i f h in (x ∷ before, rest, ap (◌∷◌ x) e, ap (◌∷◌ x) r)

stored_some : (l : List String) (i : ℕ) (f : String) → get_elem? l i ≡ some f → stored l ≡ some l
stored_some [] i f h = cc
stored_some (x ∷ xs) i f h = refl

opt_str_eq-false : (a b : Option String) → a ≢ b → opt_str_eq a b ≡ false
opt_str_eq-false a b h = ground (arith, opt_str_eq_iff a b)

module _ (patch : JsonPatch) where
  open patch use {
    apply, apply_nil, test_null, test_list, test_entry, add_field, add_end, remove_entry,
  }

  -- The patch of `add_finalizer`, made from the finalizers `seen` and applied to a live object with
  -- the finalizers `live`, appends the finalizer if the two lists are the same, and fails otherwise.
  pub apply-add_finalizer_patch :
      (seen live : List String) (finalizer : String)
      → apply (add_finalizer_patch seen finalizer) (stored live)
        ≡ (if list_eq live seen then some (some (live ++ finalizer ∷ [])) else none)
  unfolding add_finalizer_patch
  apply-add_finalizer_patch [] [] finalizer = rw (test_null, add_field, apply_nil)
  apply-add_finalizer_patch [] (l ∷ ls) finalizer = rw test_null
  apply-add_finalizer_patch (f ∷ fs) [] finalizer = rw test_list
  apply-add_finalizer_patch (f ∷ fs) (l ∷ ls) finalizer = rw (test_list, add_end, apply_nil)

  -- The patch of `remove_finalizer` for an index fails on a live object that does not have the
  -- finalizer there, and otherwise takes away that entry and no other.
  pub apply-remove_finalizer_patch :
      (index : ℕ) (live : List String) (finalizer : String)
      → let result = apply (remove_finalizer_patch index finalizer) (stored live) in
        (get_elem? live index ≢ some finalizer → result ≡ none)
        × (get_elem? live index ≡ some finalizer
            → (before rest : List String) × (live ≡ before ++ finalizer ∷ rest)
              × (result ≡ some (some (before ++ rest))))
  unfolding remove_finalizer_patch
  apply-remove_finalizer_patch index live finalizer = (
    λ other.
        test_entry _ index finalizer live
        ∙ if_false _ _ _ (opt_str_eq-false (get_elem? live index) (some finalizer) other),
    λ hit.
        let (before, rest, e, r) = split_at live index finalizer hit in
        (
          before,
          rest,
          e,
          test_entry _ index finalizer live
              ∙ if_true _ _ _ ((opt_str_eq_iff _ _).1 hit)
              ∙ ap (apply (remove (entry index) ∷ [])) (stored_some live index finalizer hit)
              ∙ remove_entry [] index finalizer live hit
              ∙ apply_nil _
              ∙ ap (λ l. some (some l)) r,
        ),
  )
