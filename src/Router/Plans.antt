-- ===== src/Router/Plans.antt =====
-- crates/daemon/src/router/plan.rs: the approval of a plan that targets no user flow, and its
-- completion.
use sdi_plugin.Prelude.{none, some, leb}
use sdi_plugin.Domain.Error.{◌>>=◌}
use sdi_plugin.Domain.Ids.{EntityId, Timestamp}
use sdi_plugin.Domain.Plan.{Plan, PlanStatus, plan_status_eq}
use sdi_plugin.Domain.Plan
use sdi_plugin.Repo.Plans
use sdi_plugin.Repo.Action.{Action, ◌▸◌, exec, query}

-- `approve` where `list_flow_ids_for_plan` is empty.
unfoldable pub approve : EntityId → Timestamp → Action Plan
unfolding Plans.get Plans.set_status Plans.count_confirmed_scenarios Plan.check_can_approve
approve id now =
    query (λ db. do
      plan ← Plans.get db id
      Plan.check_can_approve plan (leb 1 (Plans.count_confirmed_scenarios db id)))
    ▸ (exec (Plans.set_status id PlanStatus.active (some now) none now)
        ▸ query (λ db. Plans.get db id))

unfoldable pub complete : EntityId → Timestamp → Action Plan
unfolding Plans.get Plans.set_status Plan.check_can_complete
complete id now =
    query (λ db. do plan ← Plans.get db id; Plan.check_can_complete plan)
    ▸ (exec (Plans.set_status id PlanStatus.completed none (some now) now)
        ▸ query (λ db. Plans.get db id))
