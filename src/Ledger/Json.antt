-- ===== src/Ledger/Json.antt =====
-- JSON documents, as `json.dumps` takes them and `json.loads` returns them.
use full_shelf.Prelude.{
  ℕ, String, Bool, ◌≡◌, refl, ap, Option, none, some, List, [], ◌∷◌, ◌==◌, if◌then◌else◌,
}

mutual
  pub data Json : Type 0 where
    null : Json
    bool : Bool → Json
    num : ℕ → Json
    text : String → Json
    arr : Items → Json
    obj : Fields → Json

  pub data Items : Type 0 where
    nil : Items
    item : Json → Items → Items

  pub data Fields : Type 0 where
    end : Fields
    field : String → Json → Fields → Fields

-- A list of strings, and the list in an array whose every item is one.
unfoldable pub texts : List String → Items
texts [] = nil
texts (s ∷ rest) = item (text s) (texts rest)

abbrev push_text : Json → Option (List String) → Option (List String)
push_text (text s) (some rest) = some (s ∷ rest)
push_text _ _ = none

unfoldable pub item_texts : Items → Option (List String)
item_texts nil = some []
item_texts (item j rest) = push_text j (item_texts rest)

unfoldable pub as_texts : Json → Option (List String)
as_texts (arr items) = item_texts items
as_texts _ = none

-- `document.get(key)`, and `None` where the document is no object.
unfoldable pub find_field : String → Fields → Option Json
find_field k end = none
find_field k (field j v rest) = if j == k then some v else find_field k rest

unfoldable pub get : String → Json → Option Json
get k (obj fields) = find_field k fields
get k _ = none

abbrev as_text : Option Json → Option String
as_text (some (text s)) = some s
as_text _ = none

abbrev as_num : Option Json → Option ℕ
as_num (some (num n)) = some n
as_num _ = none

unfoldable pub get_text : String → Json → Option String
get_text k j = as_text (get k j)

unfoldable pub get_num : String → Json → Option ℕ
get_num k j = as_num (get k j)

-- A list of strings survives the way into a document and back.
pub as_texts-texts : (xs : List String) → as_texts (arr (texts xs)) ≡ some xs
unfolding as_texts item_texts texts
as_texts-texts [] = refl
as_texts-texts (x ∷ xs) = ap (push_text (text x)) (as_texts-texts xs)
