-- ===== src/Repo/Db.antt =====
-- The tables of the SQLite store (crates/db/src/migrations) that the modelled operations read and
-- write, as lists of rows in the order of insertion, and the errors of their constraints
-- (crates/db/src/lib.rs). Columns hold values, not texts, so the decoding of a row cannot fail.
pub mod Order
use sdi_plugin.Prelude.{
  ℕ, ◌+◌, String, Bool, true, false, not, ◌&&◌, ◌||◌, Option, none, some, List, [], ◌∷◌, ◌==◌,
  if◌then◌else◌, nat_eq, any,
}
use sdi_plugin.Prelude.Text.{◌⧺◌}
use sdi_plugin.Domain.Error.{DomainError, validation, conflict}
use sdi_plugin.Domain.Ids.{EntityId, Timestamp}
use sdi_plugin.Domain.Round.{Round}
use sdi_plugin.Domain.Plan.{Plan}
use sdi_plugin.Domain.Project.{Project}
use sdi_plugin.Domain.Scenario.{Scenario, ScenarioResult}
use sdi_plugin.Domain.Task.{Task}
use sdi_plugin.Domain.Decision.{Decision}
use sdi_plugin.Domain.Autonomy.{AutonomyPolicy}
use sdi_plugin.Domain.Verification.{FailureClass}
use sdi_plugin.Domain.Run.{Run, TaskRelation, TaskLease}
use sdi_plugin.Domain.Disruption.{DisruptionReview}
use Prim.Native.Char.{Char, code}
use sdi_plugin.Domain.Pattern.Shape.{CollaborationPattern}

-- A row of `rounds`: the round and its baseline columns.
pub record RoundRow : Type 0 where
  pub round : Round
  pub baseline_json : Option String
  pub baseline_commit : Option String
  pub baseline_snapshot : Option (List (EntityId × String × String))
  pub baseline_recorded_at : Option Timestamp
  pub baseline_decision_id : Option EntityId

-- A row of `scenario_results`.
pub record ResultRow : Type 0 where
  pub round_id : EntityId
  pub scenario_id : EntityId
  pub result : ScenarioResult
  pub note : Option String
  pub evidence_ref : Option String
  pub updated_at : Timestamp

-- A row of `retry_budgets`.
pub record BudgetRow : Type 0 where
  pub plan_id : EntityId
  pub scenario_id : EntityId
  pub failure_class : FailureClass
  pub failure_signature : String
  pub count : ℕ
  pub total_failures : ℕ
  pub first_run_id : Option EntityId
  pub last_run_id : Option EntityId
  pub last_failed_at : Timestamp
  pub released_by_decision_id : Option EntityId
  pub released_at : Option Timestamp

-- A row of `project_cwds`.
pub record CwdRow : Type 0 where
  pub project_id : EntityId
  pub cwd : String
  pub created_at : Timestamp

pub record Db : Type 0 where
  pub plans : List Plan
  pub patterns : List CollaborationPattern
  pub scenarios : List Scenario
  pub rounds : List RoundRow
  pub results : List ResultRow
  pub tasks : List Task
  pub runs : List Run
  pub budgets : List BudgetRow
  pub decisions : List Decision
  pub policies : List AutonomyPolicy
  pub reviews : List DisruptionReview
  pub relations : List TaskRelation
  pub leases : List TaskLease
  pub projects : List Project
  pub project_cwds : List CwdRow

-- The upper case of an ASCII letter: `LIKE` does not tell the cases apart.
abbrev pub same_letter : ℕ → Char → Bool
same_letter upper c = nat_eq (code c) upper || nat_eq (code c) (upper + 32)

-- `short_code NOT LIKE 'CHORE%'`
unfoldable pub not_like_chore : String → Bool
not_like_chore (String.◌∷◌ c (String.◌∷◌ h (String.◌∷◌ o (String.◌∷◌ r (String.◌∷◌ e _))))) = not (
    same_letter b'C' c
    && same_letter b'H' h
    && same_letter b'O' o
    && same_letter b'R' r
    && same_letter b'E' e)
not_like_chore _ = true

abbrev pub join : String → List String → String
join sep [] = ""
join sep (w ∷ []) = w
join sep (w ∷ v ∷ ws) = w ⧺ (sep ⧺ join sep (v ∷ ws))

abbrev pub noun : String → String
noun scope =
    if scope == "project_id" then "project" else if scope == "plan_id" then "plan" else scope

-- `humanize_unique_violation`, of the table and the columns that SQLite's message names.
unfoldable pub humanize : String → List String → String
humanize table (single ∷ []) = table ⧺ (": " ⧺ (single ⧺ " already exists"))
humanize table (scope ∷ last ∷ []) =
    if last == "short_code"
    then table
      ⧺ (": short_code already used within this "
          ⧺ (noun scope
              ⧺ (" (cancelled/terminal " ⧺ (table ⧺ " keep their code — choose a new suffix)"))))
    else table ⧺ (": duplicate value for unique (" ⧺ (join ", " (scope ∷ last ∷ []) ⧺ ")"))
humanize table cols = table ⧺ (": duplicate value for unique (" ⧺ (join ", " cols ⧺ ")"))

-- `map_sqlite_err` of a UNIQUE failure.
unfoldable pub unique_violation : String → List String → DomainError
unfolding humanize
unique_violation table cols = conflict (humanize table cols)

-- `map_sqlite_err` of a PRIMARY KEY failure, which is another extended code.
abbrev pub primary_key_violation : String → DomainError
primary_key_violation table = validation ("sqlite: UNIQUE constraint failed: " ⧺ (table ⧺ ".id"))

abbrev pub foreign_key_violation : DomainError
foreign_key_violation = validation "sqlite: FOREIGN KEY constraint failed"

insert_by {ℓ} : {A : Type ℓ} → (A → A → Bool) → A → List A → List A
insert_by le x [] = x ∷ []
insert_by le x (y ∷ ys) = let later = insert_by le x ys in if le x y then x ∷ y ∷ ys else y ∷ later

-- `ORDER BY`, with ties in the table's order.
unfoldable pub order_by {ℓ} : {A : Type ℓ} → (A → A → Bool) → List A → List A
unfolding insert_by
order_by le [] = []
order_by le (x ∷ xs) = insert_by le x (order_by le xs)

abbrev pub known_pattern : Db → Option String → Bool
known_pattern db none = true
known_pattern db (some id) = any (λ p. p.id == id) db.patterns

-- A nullable column against a text.
abbrev pub opt_eq : Option String → String → Bool
opt_eq none s = false
opt_eq (some t) s = t == s
