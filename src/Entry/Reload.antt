-- ===== src/Entry/Reload.antt =====
-- entry_reload.py: the part of a config entry whose change wants a reload.
pub mod Laws
use Prim.Native.Char.{code}
use Prim.Native.String.{[], ◌∷◌}
use ha_unifi_drive.Prelude.{
  String, Bool, true, false, not, ◌&&◌, ◌||◌, List, [], ◌∷◌, Dict, keep_keys, in_texts, ltb, ◌==◌,
  ◌⧺◌, if◌then◌else◌,
}
use ha_unifi_drive.Payload.{
  Value, null, bool, int, float, str, list, dict, Items, nil, cons, Fields, end, field, fields_of,
  str_value, repr_text,
}
use ha_unifi_drive.Entry.Options.{ConfigEntry}

abbrev pub metadata_only_keys : List String
metadata_only_keys =
    "discovery_confidence" ∷ "discovery_host_aliases" ∷ "discovery_identity_conflicts"
    ∷ "discovery_identity_source" ∷ "discovery_last_seen" ∷ "discovery_mac_address" ∷ []

-- A frozen value: a scalar, a tuple, or the tuple of pairs of a mapping.
mutual
  pub data Frozen : Type 0 where
    scalar : Value → Frozen
    tuple : Frozens → Frozen
    pairs : Pairs → Frozen

  pub data Frozens : Type 0 where
    none_left : Frozens
    next : Frozen → Frozens → Frozens

  pub data Pairs : Type 0 where
    no_pairs : Pairs
    pair : String → Frozen → Pairs → Pairs

-- The order of Python's texts.
unfoldable pub text_lt : String → String → Bool
text_lt s [] = false
text_lt [] (d ∷ t) = true
text_lt (c ∷ s) (d ∷ t) = ltb (code c) (code d) || (code c == code d && text_lt s t)

-- `repr` of frozen values.
unfoldable mutual
  repr_frozen : Frozen → String
  repr_frozen (scalar (str s)) = repr_text s
  repr_frozen (scalar v) = str_value v
  repr_frozen (tuple fs) = "(" ⧺ repr_tuple fs
  repr_frozen (pairs ps) = "(" ⧺ repr_pairs ps

  repr_tuple : Frozens → String
  repr_tuple none_left = ")"
  repr_tuple (next f none_left) = repr_frozen f ⧺ ",)"
  repr_tuple (next f (next g fs)) = repr_frozen f ⧺ ", " ⧺ repr_tuple_rest (next g fs)

  repr_tuple_rest : Frozens → String
  repr_tuple_rest none_left = ")"
  repr_tuple_rest (next f none_left) = repr_frozen f ⧺ ")"
  repr_tuple_rest (next f (next g fs)) = repr_frozen f ⧺ ", " ⧺ repr_tuple_rest (next g fs)

  repr_pairs : Pairs → String
  repr_pairs no_pairs = ")"
  repr_pairs (pair key f no_pairs) = "(" ⧺ repr_text key ⧺ ", " ⧺ repr_frozen f ⧺ "),)"
  repr_pairs (pair key f (pair key2 g ps)) =
      "(" ⧺ repr_text key ⧺ ", " ⧺ repr_frozen f ⧺ "), " ⧺ repr_pairs_rest (pair key2 g ps)

  repr_pairs_rest : Pairs → String
  repr_pairs_rest no_pairs = ")"
  repr_pairs_rest (pair key f no_pairs) = "(" ⧺ repr_text key ⧺ ", " ⧺ repr_frozen f ⧺ "))"
  repr_pairs_rest (pair key f (pair key2 g ps)) =
      "(" ⧺ repr_text key ⧺ ", " ⧺ repr_frozen f ⧺ "), " ⧺ repr_pairs_rest (pair key2 g ps)

abbrev repr_pair : String → Frozen → String
repr_pair key f = "(" ⧺ repr_text key ⧺ ", " ⧺ repr_frozen f ⧺ ")"

-- `sorted(..., key=repr)`, which is stable.
unfoldable pub insert_pair : String → Frozen → Pairs → Pairs
unfolding text_lt repr_frozen
insert_pair key f no_pairs = pair key f no_pairs
insert_pair key f (pair key2 g ps) =
    let rest = insert_pair key f ps in
    if text_lt (repr_pair key2 g) (repr_pair key f)
    then pair key2 g rest
    else pair key f (pair key2 g ps)

-- `_freeze_config_value`, on the values that an entry is stored with.
unfoldable mutual
  pub freeze : Value → Frozen
  freeze (dict fs) = pairs (freeze_fields fs)
  freeze (list vs) = tuple (freeze_items vs)
  freeze v = scalar v

  freeze_fields : Fields → Pairs
  freeze_fields end = no_pairs
  freeze_fields (field key v fs) = insert_pair key (freeze v) (freeze_fields fs)

  freeze_items : Items → Frozens
  freeze_items nil = none_left
  freeze_items (cons v vs) = next (freeze v) (freeze_items vs)

-- `_runtime_entry_data`
unfoldable pub runtime_entry_data : Dict Value → Dict Value
runtime_entry_data given = keep_keys (λ key. not (in_texts key metadata_only_keys)) given

-- `entry_reload_signature`
unfoldable pub entry_reload_signature : ConfigEntry → Frozen × Frozen
unfolding freeze runtime_entry_data fields_of
entry_reload_signature entry = (
  freeze (dict (fields_of (runtime_entry_data entry.entry_data))),
  freeze (dict (fields_of entry.options)),
)
