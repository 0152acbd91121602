-- ===== src/Revision/Policy.antt =====
-- src/cee_core/revision_policy.py: the default policy on the deltas of a revision.
use cognitive_execution_engi.Prelude.{
  String, Bool, true, false, ◌<>◌, List, [], ◌∷◌, ◌++◌, ◌≡◌, refl, arith, ◌↔◌, all_spaces,
  if◌then◌else◌,
}
use cognitive_execution_engi.World.Schema.{RevisionDelta, RevisionTargetKind, anchor_add}
use cognitive_execution_engi.World.State.{WorldState, is_fact_anchored}
use cognitive_execution_engi.Revision.{RevisionKind, confirmation, other_revision}

pub record RevisionPolicyDecision : Type 0 where
  pub allowed : Bool
  pub reason : String
  pub violated_rules : List String

-- the violations of the kind: only a text outside `ALLOWED_REVISION_KINDS` has one
unfoldable pub kind_violations : RevisionKind → List String
kind_violations (other_revision s) = ("revision_kind_not_allowed:" <> s) ∷ []
kind_violations confirmation = []
kind_violations _ = []

-- `not text.strip()`
abbrev pub is_blank : String → Bool
is_blank s = all_spaces s

module _ {F : Type 0} where
  re_anchor : WorldState F → RevisionTargetKind → RevisionDelta F → List String
  re_anchor state anchor_add delta =
      if is_fact_anchored state delta.after_summary
      then ("anchor_already_exists:" <> delta.delta_id) ∷ []
      else []
  re_anchor state _ delta = []

  unfoldable pub delta_violations : WorldState F → RevisionDelta F → List String
  unfolding re_anchor
  delta_violations state delta =
      (if is_blank delta.justification then ("empty_justification:" <> delta.delta_id) ∷ [] else [])
      ++ re_anchor state delta.target_kind delta

  unfoldable pub all_violations : WorldState F → List (RevisionDelta F) → List String
  unfolding delta_violations
  all_violations state [] = []
  all_violations state (delta ∷ deltas) =
      delta_violations state delta ++ all_violations state deltas

decide : List String → RevisionPolicyDecision
decide [] = record { allowed = true; reason = "revision policy satisfied"; violated_rules = [] }
decide (rule ∷ rules) = record {
  allowed = false;
  reason = "revision policy violated";
  violated_rules = rule ∷ rules;
}

append_nil : (xs ys : List String) → (xs ++ ys ≡ []) ↔ ((xs ≡ []) × (ys ≡ []))
append_nil [] ys = (λ h. (refl, h), λ h. h.1)
append_nil (x ∷ xs) ys = (λ h. cc, λ h. absurd (cc (h.0)))

listed :
    (kind : RevisionKind)
    → (kind_violations kind ≡ []) ↔ ((s : String) → ¬ (kind ≡ other_revision s))
unfolding kind_violations
listed (other_revision s) = (λ h. cc, λ h. absurd (h s refl))
listed confirmation = (λ h s. λ e. cc, λ h. refl)
listed _ = (λ h s. λ e. cc, λ h. refl)

decide_allows : (rules : List String) → ((decide rules).allowed ≡ true) ↔ (rules ≡ [])
unfolding decide
decide_allows [] = (λ h. refl, λ h. refl)
decide_allows (rule ∷ rules) = (λ h. cc, λ h. cc)

reported :
    (rules : List String) → ((decide rules).violated_rules ≡ []) ↔ ((decide rules).allowed ≡ true)
unfolding decide
reported [] = (λ h. refl, λ h. refl)
reported (rule ∷ rules) = (λ h. cc, λ h. cc)

module _ {F : Type 0} where
  -- `DefaultRevisionPolicy.evaluate`
  unfoldable pub evaluate :
      List (RevisionDelta F) → WorldState F → RevisionKind → RevisionPolicyDecision
  unfolding kind_violations all_violations decide
  evaluate deltas state kind = decide (kind_violations kind ++ all_violations state deltas)

  -- A delta that says why, and that does not anchor a fact again.
  abbrev pub IsSound : WorldState F → RevisionDelta F → Type 0
  IsSound state delta =
      (is_blank delta.justification ≡ false)
      × (delta.target_kind ≡ anchor_add → is_fact_anchored state delta.after_summary ≡ false)

  abbrev pub AllSound : WorldState F → List (RevisionDelta F) → Type 0
  AllSound state [] = Unit {0}
  AllSound state (delta ∷ deltas) = IsSound state delta × AllSound state deltas

  no_violation :
      (state : WorldState F) (delta : RevisionDelta F)
      → (delta_violations state delta ≡ []) ↔ IsSound state delta
  unfolding delta_violations
  no_violation state delta = (λ h. (ground arith, λ e. ground arith), λ h. ground arith)

  no_violations :
      (state : WorldState F) (deltas : List (RevisionDelta F))
      → (all_violations state deltas ≡ []) ↔ AllSound state deltas
  unfolding all_violations
  no_violations state [] = (λ h. tt, λ h. refl)
  no_violations state (delta ∷ deltas) =
      let parts = append_nil (delta_violations state delta) (all_violations state deltas) in
      (
        λ h. (
          (no_violation state delta).0 (parts.0 h).0,
          (no_violations state deltas).0 (parts.0 h).1,
        ),
        λ h. parts.1 ((no_violation state delta).1 h.0, (no_violations state deltas).1 h.1),
      )

  -- The default policy allows a revision exactly if its kind is a listed one and every delta has a
  -- justification that is not blank and anchors no fact that the state has anchored already; and
  -- it reports violated rules exactly if it does not allow.
  pub evaluate-AllSound :
      (deltas : List (RevisionDelta F)) (state : WorldState F) (kind : RevisionKind)
      → ((evaluate deltas state kind).allowed ≡ true
          ↔ ((s : String) → ¬ (kind ≡ other_revision s)) × AllSound state deltas)
        × ((evaluate deltas state kind).violated_rules ≡ []
            ↔ (evaluate deltas state kind).allowed ≡ true)
  unfolding evaluate
  evaluate-AllSound deltas state kind =
      let parts = append_nil (kind_violations kind) (all_violations state deltas) in
      let sound = no_violations state deltas in
      let choice = decide_allows (kind_violations kind ++ all_violations state deltas) in
      (
        (
          λ h. ((listed kind).0 (parts.0 (choice.0 h)).0, sound.0 (parts.0 (choice.0 h)).1),
          λ h. choice.1 (parts.1 ((listed kind).1 h.0, sound.1 h.1)),
        ),
        reported (kind_violations kind ++ all_violations state deltas),
      )
