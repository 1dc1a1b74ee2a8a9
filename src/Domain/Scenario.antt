-- ===== src/Domain/Scenario.antt =====
-- crates/core/src/scenario.rs: scenarios, their verdicts, and the checks on Given/When/Then, on
-- dependencies and on claimed resources. JSON is read by serde_json, so the reading of a list of
-- texts is a parameter.
pub mod Checks
use sdi_plugin.Prelude.{
  String, Bool, true, false, not, ◌||◌, Option, List, [], ◌∷◌, ◌==◌, if◌then◌else◌, nat_eq, any,
}
use sdi_plugin.Prelude.Text.{◌⧺◌, is_blank, trim, any_char}
use sdi_plugin.Domain.Error.{validation, gwt_empty, Result, ok, err, ◌>>=◌, ◌>>◌, accept, refuse_if}
use sdi_plugin.Domain.Ids.{EntityId, Timestamp}
use Prim.Native.Char.{Char, code}
use sdi_plugin.Domain.Pattern.{ClaimStatus}

-- `ScenarioStatus`.
pub data ScenarioStatus : Type 0 where
  draft confirmed : ScenarioStatus

unfoldable pub show_scenario_status : ScenarioStatus → String
show_scenario_status ScenarioStatus.draft = "draft"
show_scenario_status ScenarioStatus.confirmed = "confirmed"

unfoldable pub parse_scenario_status : String → Result ScenarioStatus
parse_scenario_status s =
    if s == "draft"
    then ok ScenarioStatus.draft
    else if s == "confirmed"
    then ok ScenarioStatus.confirmed
    else err (validation ("unknown scenario status: " ⧺ s))

abbrev pub scenario_status_eq : ScenarioStatus → ScenarioStatus → Bool
scenario_status_eq ScenarioStatus.draft ScenarioStatus.draft = true
scenario_status_eq ScenarioStatus.confirmed ScenarioStatus.confirmed = true
scenario_status_eq _ _ = false

-- The verdict of one scenario in one round; `needs_verification` is assigned by the daemon only.
pub data ScenarioResult : Type 0 where
  passing failing impacted retired needs_verification : ScenarioResult

unfoldable pub show_scenario_result : ScenarioResult → String
show_scenario_result ScenarioResult.passing = "passing"
show_scenario_result ScenarioResult.failing = "failing"
show_scenario_result ScenarioResult.impacted = "impacted"
show_scenario_result ScenarioResult.retired = "retired"
show_scenario_result ScenarioResult.needs_verification = "needs_verification"

unfoldable pub parse_scenario_result : String → Result ScenarioResult
parse_scenario_result s =
    if s == "passing"
    then ok ScenarioResult.passing
    else if s == "failing"
    then ok ScenarioResult.failing
    else if s == "impacted"
    then ok ScenarioResult.impacted
    else if s == "retired"
    then ok ScenarioResult.retired
    else if s == "needs_verification"
    then ok ScenarioResult.needs_verification
    else err (validation ("unknown scenario result: " ⧺ s))

abbrev pub scenario_result_eq : ScenarioResult → ScenarioResult → Bool
scenario_result_eq ScenarioResult.passing ScenarioResult.passing = true
scenario_result_eq ScenarioResult.failing ScenarioResult.failing = true
scenario_result_eq ScenarioResult.impacted ScenarioResult.impacted = true
scenario_result_eq ScenarioResult.retired ScenarioResult.retired = true
scenario_result_eq ScenarioResult.needs_verification ScenarioResult.needs_verification = true
scenario_result_eq _ _ = false

unfoldable pub is_daemon_assigned : ScenarioResult → Bool
is_daemon_assigned ScenarioResult.needs_verification = true
is_daemon_assigned _ = false

pub record Scenario : Type 0 where
  pub id : EntityId
  pub plan_id : EntityId
  pub short_code : String
  pub given : String
  pub when_clause : String
  pub then_clause : String
  pub tags : List String
  pub origin_round_id : Option EntityId
  pub status : ScenarioStatus
  pub depends_on : List String
  pub produced_by : Option String
  pub verified_by : Option String
  pub claimed_resources_json : String
  pub claim_status : ClaimStatus
  pub produced_via_pattern_id : Option String
  pub retired_at : Option Timestamp
  pub belongs_to_flow_id : Option String
  pub covers_flow_step : Option String
  pub created_at : Timestamp
  pub updated_at : Timestamp

-- D5: no field is blank; the first that is names the error.
unfoldable pub validate_gwt : String → String → String → Result (Unit {0})
validate_gwt given when_clause then_clause = do
  refuse_if (is_blank given) (gwt_empty "given")
  refuse_if (is_blank when_clause) (gwt_empty "when")
  refuse_if (is_blank then_clause) (gwt_empty "then")

unfoldable pub validate_depends_on : String → List String → Result (Unit {0})
validate_depends_on short_code depends_on =
    refuse_if (any (λ d. d == short_code) depends_on)
      (validation ("scenario " ⧺ (short_code ⧺ " depends_on cannot include itself")))

-- A character other than `*`, `?`, `/` and `.`.
abbrev pub is_literal : Char → Bool
is_literal c =
    not
      (nat_eq (code c) b'*' || nat_eq (code c) b'?' || nat_eq (code c) b'/' || nat_eq (code c) b'.')

-- The loop over the parsed entries.
unfoldable pub check_claims : List String → Result (Unit {0})
check_claims [] = accept
check_claims (entry ∷ rest) = do
  refuse_if (is_blank entry) (validation "claimed_resources entry must be non-empty")
  refuse_if (not (any_char is_literal (trim entry)))
      (validation ("claimed_resources entry has no literal path component: " ⧺ entry))
  check_claims rest

-- What the JSON reader answers: the entries, or the text of its error.
pub data Parsed : Type 0 where
  entries : List String → Parsed
  unreadable : String → Parsed

-- `.map_err(..)?`
abbrev pub read_claims : Parsed → Result (List String)
read_claims (entries es) = ok es
read_claims (unreadable e) = err (validation ("claimed_resources parse error: " ⧺ e))

unfoldable pub validate_claimed_resources : (String → Parsed) → String → Result (List String)
unfolding check_claims
validate_claimed_resources from_json s = do
  parsed ← read_claims (from_json s)
  check_claims parsed
  ok parsed
