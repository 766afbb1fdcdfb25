-- ===== src/Entry/Reload/Laws.antt =====
-- A change of the metadata of an entry wants no reload.
use ha_unifi_drive.Prelude.{
  String, ◌≡◌, refl, ap, Bool, true, false, not, [], ◌∷◌, Dict, keep_keys, insert, remove, Option,
  none, some, text_eq, if◌then◌else◌, in_texts, eq_iff, arith, ◌∙◌, ◌&&◌,
}
use ha_unifi_drive.Payload.{Value, dict, fields_of}
use ha_unifi_drive.Entry.Options.{ConfigEntry}
use ha_unifi_drive.Entry.Reload.{
  freeze, runtime_entry_data, metadata_only_keys, entry_reload_signature,
}

insert-dropped :
    (p : String → Bool) (k : String) (v : Value) (d : Dict Value)
    → p k ≡ false
    → keep_keys p (insert k v d) ≡ keep_keys p d
unfolding keep_keys insert
insert-dropped p k v [] h = rw h refl
insert-dropped p k v ((j, w) ∷ d) h = ground (arith, insert-dropped p k v d, eq_iff j k, h)

kept-dropped :
    (p q : String → Bool) (d : Dict Value)
    → ((j : String) → q j ≡ false → p j ≡ false)
    → keep_keys p (keep_keys q d) ≡ keep_keys p d
unfolding keep_keys
kept-dropped p q [] h = refl
kept-dropped p q ((j, w) ∷ d) h = ground (arith, kept-dropped p q d h, h j)

remove-dropped :
    (p : String → Bool) (k : String) (d : Dict Value)
    → p k ≡ false
    → keep_keys p (remove k d) ≡ keep_keys p d
unfolding remove
remove-dropped p k d h =
    kept-dropped p (λ j. if text_eq j k then false else true) d
      λ j e. ground (arith, e, h, eq_iff j k)

-- Changes of a dict, one after another: a value that is set, or a key that is removed.
abbrev pub Changes : Type 0
Changes = Dict (Option Value)

abbrev changed_at : String → Option Value → Dict Value → Dict Value
changed_at k none d = remove k d
changed_at k (some v) d = insert k v d

abbrev pub changed : Dict Value → Changes → Dict Value
changed d [] = d
changed d ((k, change) ∷ changes) = changed (changed_at k change d) changes

abbrev pub only_metadata : Changes → Bool
only_metadata [] = true
only_metadata ((k, change) ∷ changes) = in_texts k metadata_only_keys && only_metadata changes

abbrev is_runtime : String → Bool
is_runtime key = not (in_texts key metadata_only_keys)

changed_at-dropped :
    (k : String) (change : Option Value) (d : Dict Value)
    → in_texts k metadata_only_keys ≡ true
    → keep_keys is_runtime (changed_at k change d) ≡ keep_keys is_runtime d
changed_at-dropped k none d h = remove-dropped is_runtime k d (ap not h)
changed_at-dropped k (some v) d h = insert-dropped is_runtime k v d (ap not h)

and-both : (a b : Bool) → (a && b) ≡ true → (a ≡ true) × (b ≡ true)
and-both a b h = ground (arith, h)

changed-runtime :
    (d : Dict Value) (changes : Changes)
    → only_metadata changes ≡ true
    → runtime_entry_data (changed d changes) ≡ runtime_entry_data d
unfolding runtime_entry_data
changed-runtime d [] h = refl
changed-runtime d ((k, change) ∷ changes) h =
    let both = and-both (in_texts k metadata_only_keys) (only_metadata changes) h in
    changed-runtime (changed_at k change d) changes both.1 ∙ changed_at-dropped k change d both.0

-- Changes of the entry's data that set or remove only metadata keys leave the reload signature as it
-- is.
pub entry_reload_signature-metadata :
    (entry : ConfigEntry) (changes : Changes)
    → only_metadata changes ≡ true
    → entry_reload_signature (record entry { entry_data = changed entry.entry_data changes })
      ≡ entry_reload_signature entry
unfolding entry_reload_signature
entry_reload_signature-metadata entry changes h =
    ap (λ d. (freeze (dict (fields_of d)), freeze (dict (fields_of entry.options))))
      (changed-runtime entry.entry_data changes h)
