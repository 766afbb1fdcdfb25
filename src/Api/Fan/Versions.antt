-- ===== src/Api/Fan/Versions.antt =====
-- api_fan.py: dotted versions, and the hint that they give for the shape of a write.
pub mod Order
use Prim.Native.Char.{code}
use Prim.Native.String.{[], ◌∷◌}
use ha_unifi_drive.Prelude.{
  ℕ, zero, suc, ◌+◌, ◌-◌, ◌*◌, max, String, Bool, true, false, ◌&&◌, ◌||◌, Option, none, some, List,
  [], ◌∷◌, Dict, length, ltb, ◌==◌, text_eq, strip, lower, is_digit, if◌then◌else◌, ◌or_else◌,
}
use ha_unifi_drive.Payload.{Value, str, as_dict, as_list, get, str_value}

-- `[int(part) for part in re.findall(r"\d+", text)]`: the number that is open is the argument.
numbers_from : Option ℕ → String → List ℕ
numbers_from none [] = []
numbers_from (some n) [] = n ∷ []
numbers_from none (c ∷ s) =
    numbers_from (if is_digit (code c) then some (code c - b'0') else none) s
numbers_from (some n) (c ∷ s) =
    let more = numbers_from (some (n * 10 + (code c - b'0'))) s in
    let closed = numbers_from none s in if is_digit (code c) then more else n ∷ closed

unfoldable pub version_numbers : String → List ℕ
unfolding numbers_from
version_numbers = numbers_from none

-- `parts.extend([0] * (length - len(parts)))`
unfoldable pub padded : ℕ → List ℕ → List ℕ
padded zero parts = parts
padded (suc n) [] = 0 ∷ padded n []
padded (suc n) (part ∷ parts) = part ∷ padded n parts

-- Python's `<` on lists.
unfoldable pub list_lt : List ℕ → List ℕ → Bool
list_lt _ [] = false
list_lt [] (y ∷ ys) = true
list_lt (x ∷ xs) (y ∷ ys) = ltb x y || (x == y && list_lt xs ys)

unfoldable pub numbers_lt : List ℕ → List ℕ → Bool
unfolding padded list_lt
numbers_lt [] right = false
numbers_lt (part ∷ parts) right =
    let n = max (length (part ∷ parts)) (length right) in
    list_lt (padded n (part ∷ parts)) (padded n right)

-- `_version_lt`
unfoldable pub version_lt : String → String → Bool
unfolding version_numbers numbers_lt
version_lt left right = numbers_lt (version_numbers left) (version_numbers right)

-- A text that is not blank, stripped.
abbrev stripped_text : Value → Option String
stripped_text (str s) = if text_eq (strip s) "" then none else some (strip s)
stripped_text _ = none

abbrev or_no_entries : Option (Dict Value) → Dict Value
or_no_entries none = []
or_no_entries (some d) = d

-- `_read_version_string` for the path hardware, firmwareVersion.
unfoldable pub read_firmware_version : Dict Value → Option String
unfolding as_dict get strip
read_firmware_version system = elim (as_dict (get system "hardware")) [
  | none ↦ none
  | some hardware ↦ stripped_text (get hardware "firmwareVersion")
]

abbrev name_of : Dict Value → Value
name_of controller = get controller "name"

-- The loop of `_read_drive_controller_version`; a missing name is read as "".
unfoldable pub controller_version : List Value → Option String
unfolding as_dict get strip lower
controller_version [] = none
controller_version (v ∷ vs) =
    let rest = controller_version vs in
    elim (as_dict v) [
      | none ↦ rest
      | some controller ↦
          if text_eq (lower (strip (str_value (name_of controller)))) "drive"
          then stripped_text (get controller "versionRaw")
            or_else stripped_text (get controller "version")
            or_else rest
          else rest
    ]

-- `_read_drive_controller_version`
unfoldable pub read_drive_controller_version : Dict Value → Option String
unfolding as_dict as_list get controller_version
read_drive_controller_version system = elim (as_dict (get system "apps")) [
  | none ↦ none
  | some apps ↦ elim (as_list (get apps "controllers")) [
    | none ↦ none
    | some controllers ↦ controller_version controllers
  ]
]

abbrev is_below : Option String → String → Bool
is_below none bound = false
is_below (some version) bound = version_lt version bound

-- `_firmware_prefers_apply_payload`
unfoldable pub firmware_prefers_apply_payload : Option (Dict Value) → Bool
unfolding version_lt read_drive_controller_version read_firmware_version
firmware_prefers_apply_payload system_info =
    let system = or_no_entries system_info in
    is_below (read_drive_controller_version system) "4.2.0"
    || is_below (read_firmware_version system) "5.1.0"
