-- ===== src/Payload.antt =====
-- The decoded JSON values that the console sends, with the Python built-ins that the code applies
-- to values of unknown type: `str`, `repr`, `bool`, `int`, `isinstance`, `dict.get`.
pub mod Facts
use Prim.Native.Char.{code}
use Prim.Native.String.{[], ◌∷◌}
use ha_unifi_drive.Prelude.{
  ℕ, String, Bool, true, false, not, ◌&&◌, ◌||◌, Option, none, some, List, [], ◌∷◌, ℤ, pos, Dict,
  lookup, text_eq, ◌⧺◌, contains, str_int, int_of_text, ◌==◌, if◌then◌else◌, is_some,
}

-- A finite float, by what the code observes of it.
pub record Float : Type 0 where
  pub text : String
  pub trunc : ℤ
  pub nonzero : Bool

mutual
  pub data Value : Type 0 where
    null : Value
    bool : Bool → Value
    int : ℤ → Value
    float : Float → Value
    str : String → Value
    list : Items → Value
    dict : Fields → Value

  pub data Items : Type 0 where
    nil : Items
    cons : Value → Items → Items

  pub data Fields : Type 0 where
    end : Fields
    field : String → Value → Fields → Fields

unfoldable pub items : Items → List Value
items nil = []
items (cons v vs) = v ∷ items vs

unfoldable pub entries : Fields → Dict Value
entries end = []
entries (field k v fs) = (k, v) ∷ entries fs

-- The dict with these entries, as a value.
unfoldable pub fields_of : Dict Value → Fields
fields_of [] = end
fields_of ((k, v) ∷ d) = field k v (fields_of d)

-- `isinstance(value, dict)` and `isinstance(value, list)`, with the contents.
unfoldable pub as_dict : Value → Option (Dict Value)
unfolding entries
as_dict (dict fs) = some (entries fs)
as_dict _ = none

unfoldable pub as_list : Value → Option (List Value)
unfolding items
as_list (list vs) = some (items vs)
as_list _ = none

-- `d.get(key)`
unfoldable pub get : Dict Value → String → Value
unfolding lookup
get d key = elim (lookup key d) [ none ↦ null | some v ↦ v ]

escaped : String → String
escaped [] = ""
escaped (c ∷ s) =
    (if code c == b'\\'
      then "\\\\"
      else if code c == 10
      then "\\n"
      else if code c == 13
      then "\\r"
      else if code c == 9
      then "\\t"
      else c ∷ "")
    ⧺ escaped s

quoted_by : ℕ → String → String
quoted_by q [] = ""
quoted_by q (c ∷ s) = (if code c == q then "\\'" else escaped (c ∷ "")) ⧺ quoted_by q s

pub repr_text : String → String
repr_text s =
    if contains s "'" && not (contains s "\"")
    then "\"" ⧺ escaped s ⧺ "\""
    else "'" ⧺ quoted_by 39 s ⧺ "'"

-- `repr(value)`
unfoldable mutual
  repr : Value → String
  repr null = "None"
  repr (bool true) = "True"
  repr (bool false) = "False"
  repr (int i) = str_int i
  repr (float x) = x.text
  repr (str s) = repr_text s
  repr (list vs) = "[" ⧺ repr_items vs
  repr (dict fs) = "{" ⧺ repr_fields fs

  repr_items : Items → String
  repr_items nil = "]"
  repr_items (cons v nil) = repr v ⧺ "]"
  repr_items (cons v (cons w vs)) = repr v ⧺ ", " ⧺ repr_items (cons w vs)

  repr_fields : Fields → String
  repr_fields end = "}"
  repr_fields (field k v end) = repr_text k ⧺ ": " ⧺ repr v ⧺ "}"
  repr_fields (field k v (field j w fs)) =
      repr_text k ⧺ ": " ⧺ repr v ⧺ ", " ⧺ repr_fields (field j w fs)

-- `str(value)`
unfoldable pub str_value : Value → String
unfolding repr repr_text escaped quoted_by
str_value (str s) = s
str_value v = repr v

-- `bool(value)`
unfoldable pub truthy : Value → Bool
truthy null = false
truthy (bool b) = b
truthy (int (pos n)) = not (n == 0)
truthy (int _) = true
truthy (float x) = x.nonzero
truthy (str s) = not (text_eq s "")
truthy (list nil) = false
truthy (list _) = true
truthy (dict end) = false
truthy (dict _) = true

-- `a or b`
unfoldable pub or_value : Value → Value → Value
unfolding truthy
or_value a b = if truthy a then a else b

-- `value in (None, "")`
unfoldable pub is_blank : Value → Bool
is_blank null = true
is_blank (str s) = text_eq s ""
is_blank _ = false

-- `int(value)`, where `none` is a `TypeError` or `ValueError`.
unfoldable pub int_of : Value → Option ℤ
unfolding int_of_text
int_of (bool true) = some (pos 1)
int_of (bool false) = some (pos 0)
int_of (int i) = some i
int_of (float x) = some x.trunc
int_of (str s) = int_of_text s
int_of _ = none
