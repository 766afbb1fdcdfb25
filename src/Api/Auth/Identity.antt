-- ===== src/Api/Auth/Identity.antt =====
-- api_auth.py: what the login metadata says of the account.
use ha_unifi_drive.Prelude.{
  String, Bool, true, false, ◌||◌, Option, none, some, List, [], ◌∷◌, Dict, text_eq, if◌then◌else◌,
}
use ha_unifi_drive.Payload.{Value, str, bool, as_dict, as_list, get}

abbrev is_true : Value → Bool
is_true (bool b) = b
is_true _ = false

abbrev has_text : String → List Value → Bool
has_text t [] = false
has_text t (v ∷ vs) = (elim v [ str s ↦ text_eq s t | _ ↦ false ]) || has_text t vs

abbrev bool_only : Value → Option Bool
bool_only (bool b) = some b
bool_only _ = none

abbrev scope_hint : Dict Value → Option Bool
scope_hint login = elim (as_list (get login "scopes")) [
  | none ↦ none
  | some scopes ↦ some (has_text "edit:os-settings:poweroff" scopes)
]

abbrev ucore_hint : Dict Value → Option Bool
ucore_hint login = elim (as_dict (get login "ucorePermission")) [
  | none ↦ none
  | some permission ↦ bool_only (get permission "hasPoweroffConsolePermission")
]

-- One hint that allows wins over one that forbids.
abbrev pub joined_hint : Option Bool → Option Bool → Option Bool
joined_hint (some true) _ = some true
joined_hint _ (some true) = some true
joined_hint (some false) _ = some false
joined_hint _ (some false) = some false
joined_hint none none = none

-- `poweroff_permission_hint`
unfoldable pub poweroff_permission_hint : Option (Dict Value) → Option Bool
poweroff_permission_hint none = none
poweroff_permission_hint (some []) = none
poweroff_permission_hint (some (entry ∷ login)) =
    if is_true (get (entry ∷ login) "isSuperAdmin")
    then some true
    else joined_hint (scope_hint (entry ∷ login)) (ucore_hint (entry ∷ login))
