-- ===== src/Diff.antt =====
-- internal/diff/diff.go: two bodies compared by the paths into their data. encoding/json is a
-- parameter. A document is walked by what is to be done at each of its parts (`Visit`), which makes
-- the walk a recursion on the left document.
pub mod Walk
pub mod Alike
mod Keys
pub mod Headers
pub mod Identical
mod Complete
mod Sound
mod Ids
mod Quiet
use hooklens.Base.{
  ℕ, suc, ◌+◌, Bool, true, false, not, ◌&&◌, ◌||◌, Option, none, some, List, [], ◌∷◌, ◌++◌, map,
  Bytes, codes, bytes_eq, bytes_key, Map, lookup, keep, any_of, format_uint, if◌then◌else◌,
}
use hooklens.Capture.{bytes_less}

-- What `json.Decoder` with UseNumber makes of a text; a number is its token.
mutual
  pub data Json : Type 0 where
    null : Json
    boolean : Bool → Json
    number : Bytes → Json
    text : Bytes → Json
    array : Items → Json
    object : Fields → Json

  pub data Items : Type 0 where
    nil : Items
    item : Json → Items → Items

  pub data Fields : Type 0 where
    end : Fields
    field : Bytes → Json → Fields → Fields

-- `parse` is Decode, with what More says behind the value, and `encode` is json.Marshal.
pub record Library : Type 0 where
  pub parse : Bytes → Option (Json × Bool)
  pub encode : Json → Bytes

pub data Op : Type 0 where
  added removed changed : Op

pub record Change : Type 0 where
  pub path : Bytes
  pub op : Op
  pub old : Bytes
  pub new : Bytes

pub record Result : Type 0 where
  pub changes : List Change
  pub identical : Bool
  pub note : Bytes

-- A slice and a map as lists.
unfoldable pub items_of : Items → List Json
items_of nil = []
items_of (item v rest) = v ∷ items_of rest

unfoldable pub fields_of : Fields → Map Bytes Json
fields_of end = []
fields_of (field k v rest) = (k, v) ∷ fields_of rest

-- sort.Strings.
unfoldable pub insert_string : Bytes → List Bytes → List Bytes
insert_string s [] = s ∷ []
insert_string s (t ∷ rest) =
    let later = insert_string s rest in if bytes_less t s then t ∷ later else s ∷ t ∷ rest

unfoldable pub sort_strings : List Bytes → List Bytes
sort_strings [] = []
sort_strings (s ∷ rest) = insert_string s (sort_strings rest)

-- The keys of both maps: those of the first, and those of the second that are not among them.
unfoldable pub all_keys {ℓ κ} : {A : Type ℓ} {B : Type κ} → Map Bytes A → Map Bytes B → List Bytes
all_keys l r =
    let first = map (λ e. e.0) l in
    first ++ keep (λ k. not (any_of (bytes_eq k) first)) (map (λ e. e.0) r)

-- `concat (map f keys)`: a loop that appends to the output.
unfoldable pub over {ℓ κ} : {A : Type ℓ} {B : Type κ} → (A → List B) → List A → List B
over f [] = []
over f (k ∷ ks) = f k ++ over f ks

unfoldable pub join : Bytes → Bytes → Bytes
join path key = if bytes_eq path [] then key else path ++ (codes "." ++ key)

abbrev pub at_index : Bytes → ℕ → Bytes
at_index path i = path ++ (codes "[" ++ (format_uint i ++ codes "]"))

abbrev pub at_id : Bytes → Bytes → Bytes
at_id path id = path ++ (codes "[id=" ++ (id ++ codes "]"))

unfoldable pub scalar_string : Json → Option Bytes
scalar_string (text s) = some s
scalar_string (number s) = some s
scalar_string (boolean b) = some (if b then codes "true" else codes "false")
scalar_string _ = none

abbrev pub id_keys : List Bytes
id_keys = codes "id" ∷ codes "uuid" ∷ codes "key" ∷ codes "name" ∷ []

-- The first of the keys that has a scalar; empty where none has.
unfoldable pub scalar_at : Option Json → Option Bytes
scalar_at none = none
scalar_at (some v) = scalar_string v

unfoldable pub first_id : Map Bytes Json → List Bytes → Bytes
first_id obj [] = []
first_id obj (key ∷ keys) = elim (scalar_at (lookup key obj)) [
  | none ↦ first_id obj keys
  | some s ↦ s
]

-- The element's id, if it is an object with one.
unfoldable pub id_of : Json → Option Bytes
id_of (object fields) =
    let id = first_id (fields_of fields) id_keys in if bytes_eq id [] then none else some id
id_of _ = none

unfoldable pub collect_ids : List Json → List Bytes → Option (List Bytes)
collect_ids [] seen = some []
collect_ids (v ∷ rest) seen = elim (id_of v) [
  | none ↦ none
  | some id ↦
      if any_of (bytes_eq id) seen
      then none
      else elim (collect_ids rest (id ∷ seen)) [ none ↦ none | some ids ↦ some (id ∷ ids) ]
]

-- `elementIDs`.
unfoldable pub element_ids : List Json → Option (List Bytes)
element_ids [] = none
element_ids (v ∷ rest) = collect_ids (v ∷ rest) []

unfoldable pub pair_up {ℓ} : {A : Type ℓ} → List Bytes → List A → Map Bytes A
pair_up (id ∷ ids) (v ∷ vs) = (id, v) ∷ pair_up ids vs
pair_up _ _ = []
