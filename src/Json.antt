-- ===== src/Json.antt =====
-- The JSON values that requests and stored state are made of, with Python's reading of them:
-- `dict.get`, item assignment, truth, `isinstance` and `str(value or "")`. A message is a `dict`.
pub mod Dicts
use text.Mathlib.Text.{◌==◌ as str_eq}
use shenyugateway.Common.{ℕ, String, Bool, true, false, not, List, [], ◌∷◌, ◌==◌, if◌then◌else◌}
use shenyugateway.Text.{Text, codes, text_eq, is_empty}

-- A number is a sign, the digits of its decimal notation, and how many stand after the point.
mutual
  pub data Json : Type 0 where
    null : Json
    boolean : Bool → Json
    number : Bool → ℕ → ℕ → Json
    str : Text → Json
    arr : Items → Json
    obj : Fields → Json

  pub data Items : Type 0 where
    nil : Items
    cons : Json → Items → Items

  pub data Fields : Type 0 where
    end : Fields
    field : String → Json → Fields → Fields

abbrev pub Message : Type 0
Message = Fields

-- `d.get(key)`: a missing key reads as `None`.
unfoldable pub get : String → Fields → Json
get key end = null
get key (field k v d) = if str_eq k key then v else get key d

-- `d[key] = value`: a new key goes to the end.
unfoldable pub put : String → Json → Fields → Fields
put key value end = field key value end
put key value (field k v d) = if str_eq k key then field k value d else field k v (put key value d)

abbrev pub truthy : Json → Bool
truthy null = false
truthy (boolean b) = b
truthy (number minus digits places) = not (digits == 0)
truthy (str t) = not (is_empty t)
truthy (arr nil) = false
truthy (arr (cons v vs)) = true
truthy (obj end) = false
truthy (obj (field k v d)) = true

abbrev pub is_str : Json → Bool
is_str (str t) = true
is_str _ = false

abbrev pub is_text : Text → Json → Bool
is_text t (str s) = text_eq s t
is_text t _ = false

-- A value as a `dict`, with an empty one for every other value.
abbrev pub dict_or_empty : Json → Fields
dict_or_empty (obj d) = d
dict_or_empty _ = end

abbrev pub is_dict : Json → Bool
is_dict (obj d) = true
is_dict _ = false

abbrev pub list_items : Items → List Json
list_items nil = []
list_items (cons v vs) = v ∷ list_items vs

-- `value or []` of a list; other values have no elements here.
abbrev pub list_of : Json → List Json
list_of (arr vs) = list_items vs
list_of _ = []

abbrev pub items : List Json → Items
items [] = nil
items (v ∷ vs) = cons v (items vs)

-- `message.get("role") == role`
unfoldable pub has_role : String → Message → Bool
has_role role message = is_text (codes role) (get "role" message)

-- What the code calls of the standard library: `repr` of a value that is no text, `json.dumps`
-- with sorted keys and no escapes, `hashlib.sha256(…).hexdigest()` of the UTF-8 bytes, `str.lower`,
-- and `re.sub` of a pattern under IGNORECASE and DOTALL.
pub record Stdlib : Type 0 where
  pub repr : Json → Text
  pub dumps : Json → Text
  pub sha256_hex : Text → Text
  pub lower : Text → Text
  pub regex_sub : Text → Text → Text → Text

module _ (std : Stdlib) where
  -- `str(value)`
  abbrev pub to_str : Json → Text
  to_str (str t) = t
  to_str value = std.repr value

  -- `str(value or "")`
  unfoldable pub str_or_empty : Json → Text
  str_or_empty value = if truthy value then to_str value else []
