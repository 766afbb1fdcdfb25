-- ===== src/Repairs/Laws.antt =====
-- Of the two kinds of an issue one at most stands, and a clean-up leaves none.
use text.Mathlib.TextLemmas.{append_cancel_left}
use text.Mathlib.TextEquality.{eq_iff}
use ha_unifi_drive.Prelude.{
  String, ◌≡◌, refl, ◌∙◌, inl, inr, Bool-cases, false, Option, none, some, text_eq, eq_refl, Dict,
  lookup, insert, remove, lookup-insert, lookup-remove, arith, if◌then◌else◌, ◌⧺◌,
}
use ha_unifi_drive.Repairs.{
  Issue, IssueRegistry, Entry, Kind, permission, unavailable, Capability, TargetType, shared,
  mydrive, issue_id, clear_kinds, clear_action, clear_other_kinds, issue_of, create_snapshot_issue,
  clear_snapshot_issues, capability_name, type_suffix,
}

-- What the code relies on of the registry: creating an issue puts it under its id in place of one
-- that stood there, and deleting takes it away.
pub record IsRegistry {State : Type 0} (registry : IssueRegistry State) : Type 0 where
  pub find-create :
      (i j : String) (x : Issue) (s : State)
      → registry.find j (registry.create i x s)
        ≡ (if text_eq i j then some x else registry.find j s)
  pub find-delete :
      (i j : String) (s : State)
      → registry.find j (registry.delete i s) ≡ (if text_eq i j then none else registry.find j s)

-- A registry that keeps its issues in a dict.
abbrev pub dict_registry : IssueRegistry (Dict Issue)
dict_registry = record { create = insert; delete = remove; find = lookup }

pub dict_registry-IsRegistry : IsRegistry dict_registry
dict_registry-IsRegistry = record {
  find-create = λ i j x s. lookup-insert i j x s;
  find-delete = λ i j s. lookup-remove i j s;
}

abbrev pub other_kind : Kind → Kind
other_kind permission = unavailable
other_kind unavailable = permission

suffixes-differ : (p u v : String) → text_eq u v ≡ false → text_eq (p ⧺ u) (p ⧺ v) ≡ false
suffixes-differ p u v h = elim (Bool-cases (text_eq (p ⧺ u) (p ⧺ v))) [
  | inr e ↦ e
  | inl e ↦
      let same = append_cancel_left p u v ((eq_iff (p ⧺ u) (p ⧺ v)).0 e) in
      cc (h, (eq_iff u v).1 same)
]

other-differs :
    (entry : Entry) (capability : Capability) (kind : Kind) (target_type : Option TargetType)
    → text_eq
        (issue_id entry capability kind target_type)
        (issue_id entry capability (other_kind kind) target_type)
      ≡ false
unfolding issue_id
other-differs entry capability permission target_type =
    suffixes-differ
      (entry.entry_id ⧺ "_snapshot_" ⧺ capability_name capability ⧺ type_suffix target_type)
      "_permission" "_unavailable" refl
other-differs entry capability unavailable target_type =
    suffixes-differ
      (entry.entry_id ⧺ "_snapshot_" ⧺ capability_name capability ⧺ type_suffix target_type)
      "_unavailable" "_permission" refl

module _ {State : Type 0} (registry : IssueRegistry State) (laws : IsRegistry registry) where
  found-create :
      (i : String) (x : Issue) (s : State) → registry.find i (registry.create i x s) ≡ some x
  found-create i x s = laws.find-create i i x s ∙ rw eq_refl refl

  gone-delete : (i : String) (s : State) → registry.find i (registry.delete i s) ≡ none
  gone-delete i s = laws.find-delete i i s ∙ rw eq_refl refl

  -- What is gone stays gone.
  gone-more :
      (i j : String) (s : State)
      → registry.find j s ≡ none
      → registry.find j (registry.delete i s) ≡ none
  gone-more i j s h = laws.find-delete i j s ∙ ground (arith, h)

  other-cleared :
      (entry : Entry) (capability : Capability) (kind : Kind) (target_type : Option TargetType)
      → (s : State)
      → registry.find
          (issue_id entry capability (other_kind kind) target_type)
          (clear_other_kinds registry entry capability kind target_type s)
        ≡ none
  unfolding clear_other_kinds
  other-cleared entry capability permission target_type s = gone-delete _ s
  other-cleared entry capability unavailable target_type s = gone-delete _ s

  -- Whatever the registry held, creating an issue leaves it there, and none of its other kind.
  pub create_snapshot_issue-exclusive :
      (safe_error_text : String → String) (entry : Entry) (capability : Capability) (kind : Kind)
      → (error : String) (target_type : Option TargetType) (name : Option String) (s : State)
      → (registry.find (issue_id entry capability kind target_type) (
            create_snapshot_issue safe_error_text registry entry capability kind error target_type
              name s)
          ≡ some (issue_of safe_error_text entry capability kind error target_type name))
        × (registry.find (issue_id entry capability (other_kind kind) target_type) (
              create_snapshot_issue safe_error_text registry entry capability kind error target_type
                name s)
            ≡ none)
  unfolding create_snapshot_issue
  create_snapshot_issue-exclusive safe_error_text entry capability kind error target_type name s = (
    found-create _ _ _,
    laws.find-create (issue_id entry capability kind target_type)
          (issue_id entry capability (other_kind kind) target_type) _ _
        ∙ rw (other-differs entry capability kind target_type)
            (other-cleared entry capability kind target_type s),
  )

  kinds-cleared :
      (entry : Entry) (capability : Capability) (kind : Kind) (target_type : Option TargetType)
      → (s : State)
      → registry.find
          (issue_id entry capability kind target_type)
          (clear_kinds registry entry capability target_type s)
        ≡ none
  unfolding clear_kinds
  kinds-cleared entry capability permission target_type s = gone-more _ _ _ (gone-delete _ _)
  kinds-cleared entry capability unavailable target_type s = gone-delete _ _

  kinds-stay :
      (j : String) (entry : Entry) (capability : Capability) (target_type : Option TargetType)
      → (s : State) → registry.find j s ≡ none
      → registry.find j (clear_kinds registry entry capability target_type s) ≡ none
  unfolding clear_kinds
  kinds-stay j entry capability target_type s h = gone-more _ _ _ (gone-more _ _ _ h)

  action-cleared :
      (entry : Entry) (action : Capability) (kind : Kind) (target_type : Option TargetType)
      → (s : State)
      → registry.find
          (issue_id entry action kind target_type)
          (clear_action registry entry action s)
        ≡ none
  action-cleared entry action kind none s = search (kinds-stay, kinds-cleared) depth 9
  action-cleared entry action kind (some shared) s = search (kinds-stay, kinds-cleared) depth 9
  action-cleared entry action kind (some mydrive) s =
      kinds-cleared entry action kind (some mydrive) _

  action-stays :
      (j : String) (entry : Entry) (action : Capability) (s : State)
      → registry.find j s ≡ none
      → registry.find j (clear_action registry entry action s) ≡ none
  action-stays j entry action s h = search (kinds-stay) depth 9

  -- Whatever the registry held, a clean-up of an entry leaves none of its issues about reading,
  -- creating or changing snapshots, of either kind and for either type of target or for none.
  pub clear_snapshot_issues-none :
      (entry : Entry) (kind : Kind) (target_type : Option TargetType) (s : State)
      → (registry.find
            (issue_id entry Capability.read kind none)
            (clear_snapshot_issues registry entry s)
          ≡ none)
        × (registry.find
              (issue_id entry Capability.create kind target_type)
              (clear_snapshot_issues registry entry s)
            ≡ none)
        × (registry.find
              (issue_id entry Capability.settings kind target_type)
              (clear_snapshot_issues registry entry s)
            ≡ none)
  unfolding clear_snapshot_issues
  clear_snapshot_issues-none entry kind target_type s = (
    action-stays _ _ _ _ (action-stays _ _ _ _ (kinds-cleared entry Capability.read kind none s)),
    action-stays _ _ _ _ (action-cleared entry Capability.create kind target_type _),
    action-cleared entry Capability.settings kind target_type _,
  )
