-- ===== src/External/Store/Maps.antt =====
-- crates/koprs-external/src/store.rs: the maps of the object store poller.
use koprs.Prelude.{
  ◌≡◌, refl, subst, ap, ◌∙◌, String, Bool, true, false, Option, none, some, List, [], ◌∷◌, str_eq,
  eq_iff, if◌then◌else◌, arith,
}
use koprs.Prelude.Maps.{get, insert, IsUnique, get-insert, insert-IsUnique}
use koprs.External.Store.{StoredObject, collect, remember}

-- The object of a path in a listing: the last one.
unfoldable pub latest : String → List StoredObject → Option StoredObject → Option StoredObject
latest path [] before = before
latest path (o ∷ os) before = latest path os (if str_eq o.path path then some o else before)

pub get-collect :
    (path : String) (os : List StoredObject) (m : List (String × StoredObject))
    → get path (collect os m) ≡ latest path os (get path m)
unfolding collect latest
get-collect path [] m = refl
get-collect path (o ∷ os) m =
    get-collect path os (insert o.path o m) ∙ ap (latest path os) (get-insert path o.path o m)

pub collect-IsUnique :
    (os : List StoredObject) (m : List (String × StoredObject))
    → IsUnique m
    → IsUnique (collect os m)
unfolding collect
collect-IsUnique [] m h = h
collect-IsUnique (o ∷ os) m h =
    collect-IsUnique os (insert o.path o m) (insert-IsUnique o.path o m h)

-- Each object stands under its path.
abbrev pub IsKeyed : List (String × StoredObject) → Type 0
IsKeyed [] = Unit {0}
IsKeyed ((k, o) ∷ m) = (o.path ≡ k) × IsKeyed m

insert-IsKeyed :
    (o : StoredObject) (m : List (String × StoredObject)) → IsKeyed m → IsKeyed (insert o.path o m)
unfolding insert
insert-IsKeyed o [] h = (refl, tt)
insert-IsKeyed o ((i, w) ∷ m) h = ground (arith, insert-IsKeyed o m h.1, eq_iff i o.path)

pub collect-IsKeyed :
    (os : List StoredObject) (m : List (String × StoredObject)) → IsKeyed m → IsKeyed (collect os m)
unfolding collect
collect-IsKeyed [] m h = h
collect-IsKeyed (o ∷ os) m h = collect-IsKeyed os (insert o.path o m) (insert-IsKeyed o m h)

abbrev pub etag_of : Option StoredObject → Option String
etag_of none = none
etag_of (some o) = o.etag

remember_one :
    (path k : String) (etag : Option String) (rest : List (String × String)) (found : Option String)
    → get path rest ≡ found
    → (k ≡ path → found ≡ none)
    → get path (elim etag [ none ↦ rest | some e ↦ (k, e) ∷ rest ])
      ≡ (if str_eq k path then etag else found)
unfolding get
remember_one path k none rest found h away = ground (arith, eq_iff k path)
remember_one path k (some e) rest found h away = ground (arith, eq_iff k path)

pub get-remember :
    (path : String) (m : List (String × StoredObject))
    → IsUnique m
    → get path (remember m) ≡ etag_of (get path m)
unfolding get remember
get-remember path [] h = refl
get-remember path ((k, o) ∷ m) (fresh, h) =
    remember_one path k o.etag (remember m) (etag_of (get path m)) (get-remember path m h)
      (λ e. subst (λ x. etag_of (get x m) ≡ none) e (ap etag_of fresh))
    ∙ etag_if (str_eq k path)
  where
    etag_if :
        (b : Bool)
        → (if b then o.etag else etag_of (get path m)) ≡ etag_of (if b then some o else get path m)
    etag_if true = refl
    etag_if false = refl

pub remember-IsUnique : (m : List (String × StoredObject)) → IsUnique m → IsUnique (remember m)
unfolding remember
remember-IsUnique [] h = tt
remember-IsUnique ((k, o) ∷ m) (fresh, h) =
    add_one o.etag (get-remember k m h ∙ ap etag_of fresh) (remember-IsUnique m h)
  where
    add_one :
        (etag : Option String)
        → get k (remember m) ≡ none
        → IsUnique (remember m)
        → IsUnique (elim etag [ none ↦ remember m | some e ↦ (k, e) ∷ remember m ])
    add_one none away u = u
    add_one (some e) away u = (away, u)
