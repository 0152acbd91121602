-- ===== src/Reality/Contacts.antt =====
-- src/cee_core/reality_interface.py: which commitments reach the world, and what comes back.
use cognitive_execution_engi.Prelude.{
  String, ◌≡◌, Bool, true, false, not, ◌&&◌, [], ◌<>◌, if◌then◌else◌,
}
use cognitive_execution_engi.Value.{Platform}
use cognitive_execution_engi.Outcome.{Outcome, ok, raise, value_error}
use cognitive_execution_engi.Exec.{Exec}
use cognitive_execution_engi.Commitment.{
  CommitmentEvent, CommitmentKind, observe, act, tool_contact, complete_commitment, kind_text,
}
use cognitive_execution_engi.Tools.{ToolRegistry}
use cognitive_execution_engi.Reality.{RealityFn, names_unknown}

-- the kinds of a contact
unfoldable pub is_contact : CommitmentKind → Bool
is_contact observe = true
is_contact act = true
is_contact tool_contact = true
is_contact _ = false

abbrev pub returned : {A : Type 0} → Outcome A → Bool
returned (ok a) = true
returned (raise e) = false

module _ {F : Type 0} where
  -- the commitment asks for no tool that the registry lacks
  unfoldable pub may_reach : ToolRegistry F → CommitmentEvent F → Bool
  unfolding names_unknown
  may_reach registry commitment = elim commitment.commitment_kind [
    | tool_contact ↦ not (names_unknown registry commitment)
    | _ ↦ true
  ]

  -- What the contact of a commitment is: completed in its four result fields, a success exactly if
  -- the world was reached and answered, with the answer; a failure has no observation and keeps the
  -- realized risk.
  pub record IsContact (reached : Bool) (before : CommitmentEvent F) (answer : Outcome String)
      (done : CommitmentEvent F) : Type 0 where
    pub same_rest :
        complete_commitment before done.success done.external_result_summary
          done.observation_summaries done.risk_realized
        ≡ done
    pub succeeded : done.success ≡ reached && returned answer
    pub answered : done.success ≡ true → answer ≡ ok done.external_result_summary
    pub kept_risk : done.success ≡ false → done.risk_realized ≡ before.risk_realized
    pub unobserved : done.success ≡ false → done.observation_summaries ≡ []

module _ {F W : Type 0} ⦃p : Platform F⦄ where
  -- the contact ended in the world that it reached, or, if it reached none, in the one before
  abbrev pub Contacts :
      Bool → CommitmentEvent F → RealityFn F W → W → Outcome (CommitmentEvent F) × W → Type 0
  Contacts reached commitment reality_fn w run =
      (done : CommitmentEvent F) × (run
        ≡ (ok done, if reached then (reality_fn commitment w).1 else w))
      × IsContact reached commitment (reality_fn commitment w).0 done

  abbrev pub unsupported :
      (String → String) → CommitmentEvent F → W → Outcome (CommitmentEvent F) × W
  unsupported repr commitment w = (
    raise (
        value_error (
          "unsupported commitment_kind: "
          <> repr (kind_text commitment.commitment_kind)
          <> "; expected one of ['observe', 'act', 'tool_contact']")),
    w,
  )
