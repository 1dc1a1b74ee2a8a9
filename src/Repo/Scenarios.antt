-- ===== src/Repo/Scenarios.antt =====
-- crates/db/src/repo/scenario.rs: look-up, retirement, resolution of references and counts.
use sdi_plugin.Prelude.{
  ℕ, String, Bool, true, false, ◌&&◌, ◌||◌, Option, none, some, ◌==◌, is_some, is_none, find,
  update, count,
}
use sdi_plugin.Domain.Error.{not_found, Result, ok, err, ◌>>=◌}
use sdi_plugin.Domain.Ids.{EntityId, Timestamp}
use sdi_plugin.Domain.Scenario.{Scenario, ScenarioStatus, scenario_status_eq}
use sdi_plugin.Repo.Db.{Db}

unfoldable pub get : Db → EntityId → Result Scenario
get db id = elim (find (λ s. s.id == id) db.scenarios) [ none ↦ err (not_found id) | some s ↦ ok s ]

abbrev pub is_live : EntityId → Scenario → Bool
is_live plan_id s =
    s.plan_id == plan_id
    && scenario_status_eq s.status ScenarioStatus.confirmed
    && is_none s.retired_at

-- #8: a retired scenario does not count.
unfoldable pub count_confirmed : Db → EntityId → ℕ
count_confirmed db plan_id = count (is_live plan_id) db.scenarios

-- `LIMIT 1` with no `ORDER BY`: the first row of the table.
unfoldable pub resolve_ref : Db → EntityId → String → Option EntityId
resolve_ref db plan_id reference =
    elim (find (λ s. s.plan_id == plan_id && (s.id == reference || s.short_code == reference))
      db.scenarios) [ none ↦ none | some s ↦ some s.id ]

abbrev pub retire_mark : Bool → Timestamp → Option Timestamp
retire_mark true now = some now
retire_mark false now = none

unfoldable pub set_retired : EntityId → Bool → Timestamp → Db → Result Db
unfolding get
set_retired id retire now db = do
  s ← get db id
  ok (record db {
    scenarios =
        update (λ s. s.id == id)
          (λ s. record s { retired_at = retire_mark retire now; updated_at = now }) db.scenarios;
  })

-- `get(..).map(|s| s.retired_at.is_some()).unwrap_or(true)`
unfoldable pub is_retired_now : Db → EntityId → Bool
unfolding get
is_retired_now db id = elim (get db id) [ ok s ↦ is_some s.retired_at | err _ ↦ true ]
