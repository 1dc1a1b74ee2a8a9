-- ===== src/Domain/Ids.antt =====
-- crates/core/src/ids.rs: entity ids and the prefixes of the generated ones. An id is its text
-- (`Id(pub String)`); a generated id is a prefix, a dash and a ULID, and the ULID is the caller's.
-- A timestamp is a number, in the order of time.
use sdi_plugin.Prelude.{ℕ, String}
use sdi_plugin.Prelude.Text.{◌⧺◌}

abbrev pub EntityId : Type 0
EntityId = String

abbrev pub Timestamp : Type 0
Timestamp = ℕ

pub data IdKind : Type 0 where
  project plan requirement decision scenario round task knowledge event disruption_review : IdKind
  comment question activity run task_relation usage_record autonomy_policy agent_note : IdKind
  agent_spec pattern ssot_node ssot_edge user_flow decision_question question_option : IdKind
  question_answer : IdKind

unfoldable pub prefix : IdKind → String
prefix IdKind.project = "PROJ"
prefix IdKind.plan = "PLAN"
prefix IdKind.requirement = "REQ"
prefix IdKind.decision = "DEC"
prefix IdKind.scenario = "SCN"
prefix IdKind.round = "ROUND"
prefix IdKind.task = "TASK"
prefix IdKind.knowledge = "KN"
prefix IdKind.event = "EVT"
prefix IdKind.disruption_review = "DRV"
prefix IdKind.comment = "CMT"
prefix IdKind.question = "QST"
prefix IdKind.activity = "ACT"
prefix IdKind.run = "RUN"
prefix IdKind.task_relation = "TREL"
prefix IdKind.usage_record = "USG"
prefix IdKind.autonomy_policy = "APOL"
prefix IdKind.agent_note = "ANOTE"
prefix IdKind.agent_spec = "ASPEC"
prefix IdKind.pattern = "CP"
prefix IdKind.ssot_node = "SN"
prefix IdKind.ssot_edge = "SE"
prefix IdKind.user_flow = "UF"
prefix IdKind.decision_question = "DQ"
prefix IdKind.question_option = "QOPT"
prefix IdKind.question_answer = "QANS"

-- `Id::new`, with the ULID that it draws.
unfoldable pub new_id : IdKind → String → EntityId
unfolding prefix
new_id kind ulid = prefix kind ⧺ ("-" ⧺ ulid)
