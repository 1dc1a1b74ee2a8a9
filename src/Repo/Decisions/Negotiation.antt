-- ===== src/Repo/Decisions/Negotiation.antt =====
-- crates/db/src/repo/decision.rs: the log is append-only, and consensus follows critique.
use sdi_plugin.Prelude.{
  ◌≡◌, refl, sym, ap, Bool, true, false, not, ◌&&◌, ◌||◌, Option, none, some, List, [], ◌∷◌, ◌++◌,
  map, arith, ◌==◌, if◌then◌else◌, leb, is_some, any, select, update, All, Bool-cases,
}
use sdi_plugin.Domain.Error.{validation, Result, ok, ◌>>◌, accept, refuse_if}
use sdi_plugin.Domain.Ids.{EntityId}
use sdi_plugin.Repo.Db.{Db, opt_eq, order_by}
use sdi_plugin.Repo.Db.Order.{any-order_by, any-select, any-map, any-append}
use sdi_plugin.Repo.Decisions
use sdi_plugin.Domain.Decision.{
  Decision, DecisionStatus, DecisionKind, decision_kind_eq, validate_blast_radius_score,
  validate_stage_transition, check_reply,
}
use sdi_plugin.Domain.Results.{>>-ok, refuse_if-ok, not-false, ok-injective}
use sdi_plugin.Prelude.{◌∙◌}
use mathlib.Core.Path.{subst}

-- A critique of the proposal is in the log.
abbrev is_critique_of : EntityId → Decision → Bool
is_critique_of proposal_id e =
    opt_eq e.proposal_id proposal_id && decision_kind_eq e.kind DecisionKind.critique

abbrev critiqued : List Decision → Option EntityId → Bool
critiqued ds none = false
critiqued ds (some proposal_id) = any (is_critique_of proposal_id) ds

-- A consensus that is no rollback answers a proposal that was criticised.
abbrev justified : List Decision → Decision → Bool
justified ds d =
    is_some d.reversal_of
    || (not (decision_kind_eq d.kind DecisionKind.consensus) || critiqued ds d.proposal_id)

abbrev pub IsNegotiated : List Decision → Type 0
IsNegotiated ds = All (λ d. justified ds d ≡ true) ds

-- A decision but for its status.
abbrev pub text_of : Decision → Decision
text_of d = record d { status = DecisionStatus.proposed }

critiqued-texts :
    (before after : List Decision) (p : Option EntityId)
    → map text_of before ≡ map text_of after
    → critiqued before p ≡ critiqued after p
critiqued-texts before after none h = refl
critiqued-texts before after (some p) h =
    sym (any-map (is_critique_of p) text_of before)
    ∙ (ap (any (is_critique_of p)) h ∙ any-map (is_critique_of p) text_of after)

All-texts :
    (P : Decision → Type 0)
    → ((d : Decision) → P (text_of d) → P d)
    → ((d : Decision) → P d → P (text_of d))
    → (before after : List Decision) → map text_of before ≡ map text_of after
    → All P before
    → All P after
All-texts P from to before after h all = back after (subst (All P) h (forth before all))
  where
    forth : (cs : List Decision) → All P cs → All P (map text_of cs)
    forth [] a = tt
    forth (c ∷ cs) a = (to c a.0, forth cs a.1)

    back : (cs : List Decision) → All P (map text_of cs) → All P cs
    back [] a = tt
    back (c ∷ cs) a = (from c a.0, back cs a.1)

All-justified :
    (before after rows : List Decision)
    → ((p : Option EntityId) → critiqued before p ≡ true → critiqued after p ≡ true)
    → All (λ d. justified before d ≡ true) rows
    → All (λ d. justified after d ≡ true) rows
All-justified before after [] more all = tt
All-justified before after (r ∷ rs) more all = (
  ground (
    arith,
    more r.proposal_id,
    all.0,
    Bool-cases (is_some r.reversal_of),
    Bool-cases (decision_kind_eq r.kind DecisionKind.consensus),
  ),
  All-justified before after rs more all.1,
)

-- Only the texts matter.
IsNegotiated-texts :
    (before after : List Decision)
    → map text_of before ≡ map text_of after
    → IsNegotiated before
    → IsNegotiated after
IsNegotiated-texts before after h all =
    All-texts (λ d. justified after d ≡ true) (λ d j. j) (λ d j. j) before after h
      (All-justified before after before (λ p c. sym (critiqued-texts before after p h) ∙ c) all)

map-update :
    (p : Decision → Bool) (f : Decision → Decision) (ds : List Decision)
    → ((d : Decision) → text_of (f d) ≡ text_of d)
    → map text_of (update p f ds) ≡ map text_of ds
map-update p f [] keeps = refl
map-update p f (d ∷ ds) keeps = head (p d) (map-update p f ds keeps)
  where
    head :
        (b : Bool)
        → map text_of (update p f ds) ≡ map text_of ds
        → text_of (if b then f d else d) ∷ map text_of (update p f ds) ≡ text_of d ∷ map text_of ds
    head true ih = ap (λ x. x ∷ map text_of (update p f ds)) (keeps d) ∙ ap (λ l. text_of d ∷ l) ih
    head false ih = ap (λ l. text_of d ∷ l) ih

mark_superseded-texts :
    (o : Option EntityId) (ds : List Decision)
    → map text_of (Decisions.mark_superseded o ds) ≡ map text_of ds
mark_superseded-texts none ds = refl
mark_superseded-texts (some prev) ds =
    map-update (λ e. e.id == prev) (λ e. record e { status = DecisionStatus.superseded }) ds
      (λ _. refl)

map-snoc :
    (ds : List Decision) (d : Decision)
    → map text_of (ds ++ d ∷ []) ≡ map text_of ds ++ text_of d ∷ []
map-snoc [] d = refl
map-snoc (e ∷ es) d = ap (λ l. text_of e ∷ l) (map-snoc es d)

insert-written :
    (d : Decision) (db db' : Db)
    → Decisions.insert d db ≡ ok db'
    → (Decisions.check_gate db d ≡ accept)
      × (db'.decisions ≡ Decisions.mark_superseded d.supersedes_id (db.decisions ++ d ∷ []))
unfolding Decisions.insert
insert-written d db db' h =
    let written : Result Db = ok (record db {
      decisions = Decisions.mark_superseded d.supersedes_id (db.decisions ++ d ∷ []);
    }) in
    let (_, h1) =
      >>-ok (validate_blast_radius_score d.blast_radius_score)
        (Decisions.check_gate db d >> (Decisions.check_row db d >> written)) db' h in
    let (gate, h2) =
      >>-ok (Decisions.check_gate db d) (Decisions.check_row db d >> written) db' h1 in
    let (_, h3) = >>-ok (Decisions.check_row db d) written db' h2 in
    (
      gate,
      sym (
          ap (λ x. x.decisions)
            (ok-injective
              (record db {
                decisions = Decisions.mark_superseded d.supersedes_id (db.decisions ++ d ∷ []);
              })
              db' h3)),
    )

-- An insertion appends its decision to the log; of the earlier decisions, nothing but a status may
-- change.
pub insert-appends :
    (d : Decision) (db db' : Db)
    → Decisions.insert d db ≡ ok db'
    → map text_of db'.decisions ≡ map text_of db.decisions ++ text_of d ∷ []
insert-appends d db db' h =
    ap (map text_of) (insert-written d db db' h).1
    ∙ (mark_superseded-texts d.supersedes_id (db.decisions ++ d ∷ []) ∙ map-snoc db.decisions d)

check_reply-critiqued :
    (db : Db) (proposal_id : EntityId) (p : Option EntityId)
    → p ≡ some proposal_id
    → check_reply DecisionKind.consensus (Decisions.list_kinds_by_proposal db proposal_id) p
      ≡ accept
    → critiqued db.decisions p ≡ true
unfolding Decisions.list_kinds_by_proposal
check_reply-critiqued db proposal_id none e h = ground arith
check_reply-critiqued db proposal_id (some q) e h =
    let listed =
      any-map (λ k. decision_kind_eq k DecisionKind.critique) (λ d. d.kind)
        (order_by (λ a b. leb a.created_at b.created_at)
          (select (Decisions.answers proposal_id) db.decisions)) in
    let ordered =
      any-order_by (λ d. decision_kind_eq d.kind DecisionKind.critique)
        (λ a b. leb a.created_at b.created_at)
        (select (Decisions.answers proposal_id) db.decisions) in
    let found =
      any-select (λ d. decision_kind_eq d.kind DecisionKind.critique)
        (Decisions.answers proposal_id) db.decisions in
    subst (λ o. critiqued db.decisions o ≡ true) (sym e)
      (sym found ∙ (sym ordered ∙ (sym listed ∙ not-false _ (refuse_if-ok _ _ h))))

check_stage-critiqued :
    (db : Db) (d : Decision) (p : Option EntityId)
    → d.proposal_id ≡ p
    → d.kind ≡ DecisionKind.consensus
    → Decisions.check_stage db d p ≡ accept
    → critiqued db.decisions d.proposal_id ≡ true
unfolding validate_stage_transition
check_stage-critiqued db d none e k h = ground arith
check_stage-critiqued db d (some p) e k h = check_reply-critiqued db p d.proposal_id e (
    subst
      (λ kind.
        validate_stage_transition kind (Decisions.list_kinds_by_proposal db p) d.proposal_id
        ≡ accept)
      k h)

is_consensus :
    (k : DecisionKind)
    → decision_kind_eq k DecisionKind.consensus ≡ true
    → k ≡ DecisionKind.consensus
is_consensus DecisionKind.consensus h = refl
is_consensus DecisionKind.proposal h = ground arith
is_consensus DecisionKind.critique h = ground arith
is_consensus DecisionKind.dissensus h = ground arith

gate-justified :
    (db : Db) (d : Decision) → Decisions.check_gate db d ≡ accept → justified db.decisions d ≡ true
unfolding Decisions.check_gate
gate-justified db d h =
    after (is_some d.reversal_of) (decision_kind_eq d.kind DecisionKind.consensus) refl refl
  where
    stage :
        d.kind ≡ DecisionKind.consensus
        → is_some d.reversal_of ≡ false
        → Decisions.check_stage db d d.proposal_id ≡ accept
    stage k e =
        sym (
          ap
            (λ b.
              if b
              then Decisions.check_rollback d
              else if not (decision_kind_eq d.kind DecisionKind.proposal)
              then Decisions.check_stage db d d.proposal_id
              else refuse_if (is_some d.proposal_id)
                  (validation "proposal decision must not carry proposal_id"))
            e
          ∙ ap
              (λ kind.
                if not (decision_kind_eq kind DecisionKind.proposal)
                then Decisions.check_stage db d d.proposal_id
                else refuse_if (is_some d.proposal_id)
                    (validation "proposal decision must not carry proposal_id"))
              k)
        ∙ h

    after :
        (b c : Bool)
        → is_some d.reversal_of ≡ b
        → decision_kind_eq d.kind DecisionKind.consensus ≡ c
        → justified db.decisions d ≡ true
    after true c e k = ground (arith, e)
    after false false e k = ground (arith, e, k)
    after false true e k =
        let consent = is_consensus d.kind k in
        ground
          (arith, e, k, check_stage-critiqued db d d.proposal_id refl consent (stage consent e))

critiqued-more :
    (ds : List Decision) (d : Decision) (p : Option EntityId)
    → critiqued ds p ≡ true
    → critiqued (ds ++ d ∷ []) p ≡ true
critiqued-more ds d none h = ground arith
critiqued-more ds d (some p) h =
    any-append (is_critique_of p) ds (d ∷ []) ∙ ap (λ b. b || any (is_critique_of p) (d ∷ [])) h

justified-more :
    (ds : List Decision) (d e : Decision)
    → justified ds e ≡ true
    → justified (ds ++ d ∷ []) e ≡ true
justified-more ds d e h = ground (
  arith,
  critiqued-more ds d e.proposal_id,
  Bool-cases (is_some e.reversal_of),
  Bool-cases (decision_kind_eq e.kind DecisionKind.consensus),
)

All-snoc :
    (P : Decision → Type 0) (ds : List Decision) (d : Decision)
    → All P ds
    → P d
    → All P (ds ++ d ∷ [])
All-snoc P [] d all h = (h, tt)
All-snoc P (e ∷ es) d all h = (all.0, All-snoc P es d all.1 h)

-- If every consensus of the log that is not a rollback answers a proposal that has a critique in the
-- log, then so it is after an insertion.
pub insert-IsNegotiated :
    (d : Decision) (db db' : Db)
    → IsNegotiated db.decisions
    → Decisions.insert d db ≡ ok db'
    → IsNegotiated db'.decisions
insert-IsNegotiated d db db' all h =
    let (gate, written) = insert-written d db db' h in
    let longer = db.decisions ++ d ∷ [] in
    let kept = All-justified db.decisions longer db.decisions (critiqued-more db.decisions d) all in
    IsNegotiated-texts longer db'.decisions
      (sym (ap (map text_of) written ∙ mark_superseded-texts d.supersedes_id longer))
      (All-snoc (λ e. justified longer e ≡ true) db.decisions d kept
        (justified-more db.decisions d d (gate-justified db d gate)))
