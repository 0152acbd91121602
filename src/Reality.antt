-- ===== src/Reality.antt =====
-- src/cee_core/reality_interface.py: the contact of a commitment with the world. A contact is a
-- function that acts on a world `W` and may raise, and `repr` is Python's. The log lines on the
-- console are left out. `ByGateway` has the contact through the tool gateway, and the proofs are in
-- `Contacts` and `Guarded`.
pub mod ByGateway
pub mod Contacts
pub mod Guarded
use cognitive_execution_engi.Prelude.{
  String, Bool, true, false, not, ◌&&◌, List, [], ◌∷◌, Option, ◌<>◌, or_else, truthy, is_some,
  if◌then◌else◌,
}
use cognitive_execution_engi.Value.{Platform}
use cognitive_execution_engi.Outcome.{Outcome, ok, raise, value_error}
use cognitive_execution_engi.Exec.{Exec, return, throw}
use cognitive_execution_engi.Commitment.{
  CommitmentEvent, CommitmentKind, observe, act, tool_contact, kind_text, complete_commitment,
}
use cognitive_execution_engi.Tools.{ToolRegistry, get}
use cognitive_execution_engi.Gateway.{message}

abbrev pub RealityFn : Type 0 → Type 0 → Type 0
RealityFn F W = CommitmentEvent F → Exec W String

pub record RealityInterface (F W : Type 0) : Type 0 where
  pub observe : CommitmentEvent F → RealityFn F W → Exec W (CommitmentEvent F)
  pub act : CommitmentEvent F → RealityFn F W → Exec W (CommitmentEvent F)
  pub tool_contact : CommitmentEvent F → RealityFn F W → Exec W (CommitmentEvent F)

module _ {F : Type 0} ⦃p : Platform F⦄ where
  -- the commitment after the contact: its result, noted as an observation if `noted`, or its
  -- exception behind the given words
  unfoldable pub concluded : Bool → String → CommitmentEvent F → Outcome String → CommitmentEvent F
  unfolding complete_commitment
  concluded false words commitment (ok result) =
      complete_commitment commitment true result [] (p.decimal 0 0)
  concluded true words commitment (ok result) =
      complete_commitment commitment true result (result ∷ []) (p.decimal 0 0)
  concluded noted words commitment (raise e) =
      complete_commitment commitment false (words <> message e) [] commitment.risk_realized

  -- the `try` of the three methods
  unfoldable pub attempt :
      {W : Type 0} → Bool → String → CommitmentEvent F → RealityFn F W → Exec W (CommitmentEvent F)
  unfolding concluded
  attempt noted words commitment reality_fn w =
      let (result, after) = reality_fn commitment w in
      (ok (concluded noted words commitment result), after)

module _ {F : Type 0} where
  -- a tool is named that the registry does not have
  unfoldable pub names_unknown : ToolRegistry F → CommitmentEvent F → Bool
  unfolding get
  names_unknown registry commitment =
      truthy commitment.action_summary && not (is_some (get registry commitment.action_summary))

  -- the result for an unknown tool
  unfoldable pub unknown_tool : CommitmentEvent F → CommitmentEvent F
  unfolding complete_commitment
  unknown_tool commitment =
      complete_commitment commitment false ("unknown tool: " <> commitment.action_summary) []
        commitment.risk_realized

module _ (repr : String → String) {F W : Type 0} ⦃p : Platform F⦄ where
  -- the guard of a method
  unfoldable pub wrong_kind : String → CommitmentKind → Exec W (CommitmentEvent F)
  unfolding kind_text
  wrong_kind method kind = throw (
      value_error (
        method
        <> " called with commitment_kind="
        <> repr (kind_text kind)
        <> "; expected '"
        <> method
        <> "'"))

  unfoldable pub default_observe : CommitmentEvent F → RealityFn F W → Exec W (CommitmentEvent F)
  unfolding wrong_kind attempt
  default_observe commitment reality_fn = elim commitment.commitment_kind [
    | observe ↦ attempt true "observation failed: " commitment reality_fn
    | _ ↦ wrong_kind "observe" commitment.commitment_kind
  ]

  unfoldable pub default_act : CommitmentEvent F → RealityFn F W → Exec W (CommitmentEvent F)
  unfolding wrong_kind attempt
  default_act commitment reality_fn = elim commitment.commitment_kind [
    | act ↦ attempt false "action failed: " commitment reality_fn
    | _ ↦ wrong_kind "act" commitment.commitment_kind
  ]

  unfoldable pub default_tool_contact :
      ToolRegistry F → CommitmentEvent F → RealityFn F W → Exec W (CommitmentEvent F)
  unfolding wrong_kind names_unknown unknown_tool attempt
  default_tool_contact registry commitment reality_fn = elim commitment.commitment_kind [
    | tool_contact ↦
        if names_unknown registry commitment
        then return (unknown_tool commitment)
        else attempt true "tool contact failed: " commitment reality_fn
    | _ ↦ wrong_kind "tool_contact" commitment.commitment_kind
  ]

  -- `DefaultRealityInterface`
  unfoldable pub default_interface : ToolRegistry F → RealityInterface F W
  unfolding default_observe default_act default_tool_contact
  default_interface registry = record {
    observe = default_observe;
    act = default_act;
    tool_contact = default_tool_contact registry;
  }

  -- `_KIND_DISPATCH` with `getattr`
  unfoldable pub dispatch :
      CommitmentKind
      → RealityInterface F W
      → CommitmentEvent F
      → RealityFn F W
      → Exec W (CommitmentEvent F)
  unfolding kind_text
  dispatch observe interface commitment reality_fn = interface.observe commitment reality_fn
  dispatch act interface commitment reality_fn = interface.act commitment reality_fn
  dispatch tool_contact interface commitment reality_fn =
      interface.tool_contact commitment reality_fn
  dispatch kind interface commitment reality_fn = throw (
      value_error (
        "unsupported commitment_kind: "
        <> repr (kind_text kind)
        <> "; expected one of ['observe', 'act', 'tool_contact']"))

  unfoldable pub execute_commitment :
      CommitmentEvent F → RealityFn F W → Option (RealityInterface F W) → Exec W (CommitmentEvent F)
  unfolding dispatch default_interface
  execute_commitment commitment reality_fn interface =
      dispatch commitment.commitment_kind (or_else interface (default_interface [])) commitment
        reality_fn
