-- ===== src/Admission/Json.antt =====
-- `serde_json::Value` and the accessors that crates/koprs-admission/src/review.rs uses. The order
-- of the fields of an object means nothing; a lookup takes the first one of its name.
use koprs.Prelude.{ℕ, String, Bool, Option, none, some, List, [], ◌∷◌, str_eq, if◌then◌else◌}

mutual
  pub data Json : Type 0 where
    null : Json
    boolean : Bool → Json
    number : ℕ → Json
    string : String → Json
    array : Items → Json
    object : Fields → Json

  pub data Items : Type 0 where
    nil : Items
    cons : Json → Items → Items

  pub data Fields : Type 0 where
    end : Fields
    field : String → Json → Fields → Fields

abbrev pub lookup : String → Fields → Option Json
lookup key end = none
lookup key (field k v fs) = if str_eq k key then some v else lookup key fs

-- `Value::get`.
abbrev pub get : Json → String → Option Json
get (object fs) key = lookup key fs
get _ key = none

abbrev pub as_str : Option Json → Option String
as_str (some (string s)) = some s
as_str _ = none

abbrev pub as_bool : Option Json → Option Bool
as_bool (some (boolean b)) = some b
as_bool _ = none

-- `filter(|v| !v.is_null())`.
abbrev pub non_null : Option Json → Option Json
non_null (some null) = none
non_null o = o

abbrev pub unwrap_or {ℓ} : {A : Type ℓ} → Option A → A → A
unwrap_or none d = d
unwrap_or (some a) d = a

abbrev pub strings : List String → Items
strings [] = nil
strings (s ∷ ss) = cons (string s) (strings ss)
