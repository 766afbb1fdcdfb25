-- ===== src/Snapshot/Values.antt =====
-- snapshot_values.py: reads of single fields of a payload.
use ha_unifi_drive.Prelude.{
  String, Bool, true, false, Option, none, some, List, [], ◌∷◌, ℤ, Dict, in_texts, strip, lower,
  if◌then◌else◌,
}
use ha_unifi_drive.Payload.{
  Value, bool, int, float, as_dict, get, is_blank, str_value, int_of, truthy,
}

-- `_dict_from_item`
unfoldable pub dict_from_item : Dict Value → List String → Dict Value
unfolding as_dict get
dict_from_item value [] = []
dict_from_item value (key ∷ keys) =
    let rest = dict_from_item value keys in
    elim (as_dict (get value key)) [ some d ↦ d | none ↦ rest ]

-- `_value_from_dict`, after its test that the value is a dict.
unfoldable pub value_from_dict : Dict Value → List String → Option String
unfolding is_blank str_value get
value_from_dict value [] = none
value_from_dict value (key ∷ keys) =
    let rest = value_from_dict value keys in
    if is_blank (get value key) then rest else some (str_value (get value key))

-- `_int_value`
unfoldable pub int_value : Value → Option ℤ
unfolding int_of is_blank
int_value (bool _) = none
int_value v = if is_blank v then none else int_of v

-- `_first_int_value`
unfoldable pub first_int_value : Dict Value → List String → Option ℤ
unfolding int_value get
first_int_value value [] = none
first_int_value value (key ∷ keys) =
    let rest = first_int_value value keys in
    elim (int_value (get value key)) [ some i ↦ some i | none ↦ rest ]

abbrev truth_words : List String
truth_words = "true" ∷ "1" ∷ "yes" ∷ "on" ∷ "enabled" ∷ []

abbrev falsehood_words : List String
falsehood_words = "false" ∷ "0" ∷ "no" ∷ "off" ∷ "disabled" ∷ []

abbrev bool_of_word : String → Option Bool
bool_of_word word =
    if in_texts word truth_words
    then some true
    else if in_texts word falsehood_words
    then some false
    else none

-- `_bool_value`
unfoldable pub bool_value : Value → Option Bool
unfolding is_blank truthy str_value strip lower
bool_value (bool b) = some b
bool_value (int i) = some (truthy (int i))
bool_value (float x) = some (truthy (float x))
bool_value v = if is_blank v then none else bool_of_word (lower (strip (str_value v)))

-- `_first_bool_value`
unfoldable pub first_bool_value : Dict Value → List String → Option Bool
unfolding bool_value get
first_bool_value value [] = none
first_bool_value value (key ∷ keys) =
    let rest = first_bool_value value keys in
    elim (bool_value (get value key)) [ some b ↦ some b | none ↦ rest ]
