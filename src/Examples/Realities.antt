-- ===== src/Examples/Realities.antt =====
-- Contacts with the world on concrete inputs: the world counts the contacts.
use cognitive_execution_engi.Prelude.{ℕ, ◌+◌, String, refl, [], ◌∷◌, none, ◌<>◌}
use cognitive_execution_engi.Outcome.{ok}
use cognitive_execution_engi.Commitment.{CommitmentEvent, tool_contact, blank}
use cognitive_execution_engi.Tools.{evaluate_tool_call_policy, get}
use cognitive_execution_engi.EventLog.{EventLog}
use cognitive_execution_engi.Gateway.{check_approval}
use cognitive_execution_engi.Gateway.Access.{permission}
use cognitive_execution_engi.Reality.{RealityFn}
use cognitive_execution_engi.Reality.ByGateway.{
  ContactDraws, contact_call, execute_commitment_via_gateway,
}
use cognitive_execution_engi.Reality.Contacts.{Contacts}
use cognitive_execution_engi.Reality.Guarded.{Barred, execute_commitment_via_gateway-Barred}
use cognitive_execution_engi.Examples.{fixed_point, draws, gateway_of, counting, commitment_record}

abbrev quoted : String → String
quoted s = "'" <> s <> "'"

abbrev answering : RealityFn ℕ ℕ
answering commitment n = (ok "done", n + 1)

abbrev contact_of : String → CommitmentEvent ℕ
contact_of tool = record (blank "ce1" "ws_4" tool_contact "use a tool") { action_summary = tool }

abbrev old_log : EventLog ℕ
old_log = commitment_record ∷ []

abbrev contact_draws : ContactDraws
contact_draws = record {
  gateway = draws;
  call_id = "tc_1";
  trace_id = "tr_1";
  created_at = "2026-01-01";
}

execute_commitment_via_gateway-Barred_example : Barred (contact_of "write_file") old_log 7 (
    execute_commitment_via_gateway quoted contact_draws
      (contact_of "write_file")
      (gateway_of counting)
      none
      none
      "ws_4"
      (old_log, 7))
unfolding permission evaluate_tool_call_policy check_approval get contact_call
execute_commitment_via_gateway-Barred_example =
    execute_commitment_via_gateway-Barred quoted contact_draws (contact_of "write_file")
      (gateway_of counting) none none "ws_4" old_log 7 7 refl refl refl
