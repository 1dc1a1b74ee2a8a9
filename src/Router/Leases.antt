-- ===== src/Router/Leases.antt =====
-- crates/daemon/src/router/run.rs: the handlers of leases.
use sdi_plugin.Prelude.{String, Bool, not, Option}
use sdi_plugin.Domain.Error.{validation, Result, ok, ◌>>◌, refuse_if}
use sdi_plugin.Domain.Ids.{EntityId, Timestamp}
use sdi_plugin.Repo.Db.{Db}
use sdi_plugin.Repo.Action.{Action, ◌▹◌, query}
use sdi_plugin.Prelude.Int.{ℤ, pos}
use sdi_plugin.Domain.Run.{TaskLease}
use sdi_plugin.Repo
use sdi_plugin.Repo.Leases
use sdi_plugin.Repo.Leases.{get_lease}

abbrev pub default_ttl : ℤ
default_ttl = pos 120

pub record LeaseAnswer : Type 0 where
  pub acquired : Bool
  pub lease : Option TaskLease

abbrev pub answer_with : EntityId → Bool → Db → Result LeaseAnswer
answer_with task_id acquired db = ok (record { acquired = acquired; lease = get_lease db task_id })

unfoldable pub acquire_lease : EntityId → String → ℤ → Timestamp → Action LeaseAnswer
unfolding Repo.Leases.acquire_lease get_lease
acquire_lease task_id holder ttl_seconds now =
    Repo.Leases.acquire_lease task_id holder ttl_seconds now ▹ λ acquired.
    query (answer_with task_id acquired)

abbrev pub held_or_refused : Bool → Option TaskLease → Result (Option TaskLease)
held_or_refused kept lease = do refuse_if (not kept) (validation "not the lease holder"); ok lease

unfoldable pub heartbeat_lease : EntityId → String → ℤ → Timestamp → Action (Option TaskLease)
unfolding Repo.Leases.heartbeat_lease get_lease
heartbeat_lease task_id holder ttl_seconds now =
    Repo.Leases.heartbeat_lease task_id holder ttl_seconds now ▹ λ kept.
    query (λ db. held_or_refused kept (get_lease db task_id))
