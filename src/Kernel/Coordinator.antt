-- ===== src/Kernel/Coordinator.antt =====
-- packages/gkos-kernel/src/actions.ts: the coordinator that carries out decisions on queued actions.
-- What an `await` lets in is part of a turn: the changes that other tasks make to the database and
-- the log, and how the awaited call ends. `stringify`, JSON.parse and the schema checks are the
-- platform's. An operation returns the world that it leaves, beside the error that it throws.
pub mod Laws
pub mod Once
pub mod Draining
pub mod Overlap
use gatekeeper_os.Kernel.Store.State.{Store}
use gatekeeper_os.Kernel.Audit.{write}
use gatekeeper_os.Kernel.Store.Actions.{list_actions, decide_action, get_action, claim_action}
use gatekeeper_os.Prelude.{
  map, leb, sort, includes, filter, string_eq, ltb, any, ◌||◌, [], ◌&&◌, not, some, ◌∷◌, none, ◌++◌,
  List, if◌then◌else◌, ◌==◌, true, false, Bool, String, ℕ, Option,
}
use gatekeeper_os.Kernel.Queue.{Os}
use gatekeeper_os.Shared.{
  is_set, action_status_eq, AuditRecord, ActionDescription, AuditKind, PendingAction, ActionStatus,
  pending, applied, rejected, reverted, failed,
}

pub data Verb : Type 0 where
  apply reject revert : Verb

-- One call of applyAction, rejectAction or revertAction on a gatekeeper.
pub record Effect : Type 0 where
  pub verb : Verb
  pub gatekeeper_instance : String
  pub action_id : ℕ

pub record World : Type 0 where
  pub os : Os
  pub effects : List Effect
  -- the actions whose sessions were asked to restart
  pub restarts : List ℕ

pub data PerformError : Type 0 where
  not_eligible earlier_undecided unresolved revert_unavailable authority_changed already_decided
        unconfirmed not_audited no_such_action unavailable :
      PerformError

-- What the resolver of an action's authority gives: whether its gatekeeper implements revertAction,
-- and the synchronous final check.
pub record Authority : Type 0 where
  pub has_revert : Bool
  pub authorize : Os → Bool

-- The surroundings of one task: whether the coordinator has been stopped, what ran before it on the
-- same instance, what other tasks do while the authority is resolved and while the effect is
-- awaited, and how the two end.
pub record Turn : Type 0 where
  pub stopped : Bool
  pub queued : Os → Os
  pub resolving : Os → Os
  pub resolve : Option Authority
  pub during : Os → Os
  pub succeeds : Bool
  pub restart : Bool
  pub now : ℕ

pub record Host : Type 0 where
  pub cell : String
  pub valid_record : AuditRecord → Bool
  -- JSON.parse followed by the check of ActionDescriptionSchema
  pub description : String → Option ActionDescription

abbrev pub is_apply : Verb → Bool
is_apply apply = true
is_apply _ = false

abbrev pub is_reject : Verb → Bool
is_reject reject = true
is_reject _ = false

abbrev pub is_revert : Verb → Bool
is_revert revert = true
is_revert _ = false

abbrev pub expected : Verb → ActionStatus
expected apply = pending
expected reject = pending
expected revert = applied

abbrev pub outcome : Verb → ActionStatus
outcome apply = applied
outcome reject = rejected
outcome revert = reverted

abbrev pub verb_text : Verb → String
verb_text apply = "apply"
verb_text reject = "reject"
verb_text revert = "revert"

abbrev pub completed_kind : Verb → AuditKind
completed_kind apply = AuditKind.action_apply
completed_kind reject = AuditKind.action_decide
completed_kind revert = AuditKind.action_revert

abbrev pub action_record :
    String → AuditKind → ℕ → String → String → String → Bool → ℕ → AuditRecord
action_record cell kind id title decision by ok now = record {
  ts = now;
  cell = cell;
  agent_id = none;
  session_key = none;
  kind = kind;
  vendor = none;
  resource_type = none;
  handle = none;
  action_id = some id;
  title = title;
  decision = some decision;
  by = some by;
  duration_ms = none;
  ok = some ok;
}

-- An earlier action of the instance that nobody has settled.
abbrev pub blocks : PendingAction → PendingAction → Bool
blocks action a =
    a.gatekeeper_instance == action.gatekeeper_instance
    && ltb a.id action.id
    && (a.status == pending || a.status == failed)

-- The log with one more record, where the schema takes it.
abbrev logged : Host → Os → AuditRecord → Option Os
logged h s r = elim (write h.valid_record s.log r) [
  | none ↦ none
  | some log ↦ some (record s { log = log })
]

module _ (h : Host) (t : Turn) (action : PendingAction) (verb : Verb) (operator : String) where
  -- The catch clause around the effect: the record may be refused too, and an error is thrown anyway.
  unconfirmed_outcome : World → World × Option PerformError
  unconfirmed_outcome w =
      elim (logged h w.os (
        action_record h.cell AuditKind.action_decide action.id
          "Action outcome unconfirmed; automatic retry disabled" "failed" operator false t.now)) [
            | none ↦ (w, some not_audited)
            | some os ↦ (record w { os = os }, some unconfirmed)
          ]

  completed : World → World × Option PerformError
  unfolding unconfirmed_outcome
  completed w =
      let decided_os = record w.os {
        store = (decide_action w.os.store action.id (outcome verb) operator none t.now).0;
      } in
      elim (logged h decided_os (
        action_record h.cell (completed_kind verb) action.id "Action completed" (verb_text verb)
          operator true t.now)) [
            | none ↦ unconfirmed_outcome (record w { os = decided_os })
            | some os ↦ (
              record w {
                os = os;
                restarts =
                    if t.restart && is_reject verb
                    then w.restarts ++ action.id ∷ []
                    else w.restarts;
              },
              none,
            )
          ]

  -- From the effect on: the call is made, other tasks run while it is awaited, and it ends.
  pub effect : World → World × Option PerformError
  unfolding completed
  effect w =
      let after = record w {
        os = t.during w.os;
        effects =
            w.effects
            ++ record {
              verb = verb;
              gatekeeper_instance = action.gatekeeper_instance;
              action_id = action.action_id;
            }
              ∷ [];
      } in
      if t.succeeds then completed after else unconfirmed_outcome after

  -- The intent is stored before the effect, and recorded.
  claim : World → World × Option PerformError
  unfolding effect
  claim w =
      let (store, claimed) = claim_action w.os.store action.id (expected verb) operator t.now in
      let w' = record w { os = record w.os { store = store } } in
      if not claimed
      then (w', some already_decided)
      else elim (logged h w'.os (
          action_record h.cell AuditKind.action_decide action.id "Action decision" (verb_text verb)
            operator true t.now)) [
              | none ↦ (w', some not_audited)
              | some os ↦ effect (record w' { os = os })
            ]

  -- The checks that follow without a wait once the authority is resolved.
  pub with_authority : Option Authority → World → World × Option PerformError
  unfolding claim
  with_authority none w = (w, some unresolved)
  with_authority (some a) w =
      if is_revert verb && not a.has_revert
      then (w, some revert_unavailable)
      else if not (a.authorize w.os)
      then (w, some authority_changed)
      else claim w

  -- Other tasks run while the authority is resolved.
  authorized : World → World × Option PerformError
  unfolding with_authority
  authorized w = with_authority t.resolve (record w { os = t.resolving w.os })

abbrev may_revert : Verb → Option ActionDescription → Bool
may_revert verb none = false
may_revert verb (some d) = not (is_revert verb) || d.implements_revert

perform_action :
    Host → Turn → Verb → String → World → Option PendingAction → World × Option PerformError
perform_action h t verb operator w none = (w, some not_eligible)
perform_action h t verb operator w (some action) =
    if not (action.status == expected verb)
    then (w, some not_eligible)
    else if is_apply verb && any (blocks action) (list_actions w.os.store false)
    then (w, some earlier_undecided)
    else if not (may_revert verb (h.description action.description_json))
    then (w, some not_eligible)
    else authorized h t action verb operator w

unfoldable pub perform : Host → Turn → ℕ → Verb → String → World → World × Option PerformError
unfolding perform_action authorized
perform h t id verb operator w = perform_action h t verb operator w (get_action w.os.store id)

-- A task of an instance runs when the tasks before it have ended.
unfoldable pub serial :
    Turn → (World → World × Option PerformError) → World → World × Option PerformError
serial t task w =
    if t.stopped then (w, some unavailable) else task (record w { os = t.queued w.os })

-- The loop of decide: the first error ends it. Each action has a turn of its own.
decide_each : Host → (ℕ → Turn) → Verb → String → List ℕ → World → World × Option PerformError
decide_each h turns verb operator [] w = (w, none)
decide_each h turns verb operator (id ∷ ids) w = elim (get_action w.os.store id) [
  | none ↦ (w, some no_such_action)
  | some action ↦
      let (w', error) = serial (turns id) (perform h (turns id) id verb operator) w in
      elim error [ some e ↦ (w', some e) | none ↦ decide_each h turns verb operator ids w' ]
]

-- What an operator names: listed ids, or all.
pub data Selection : Type 0 where
  ids : List ℕ → Selection
  everything : Selection

unfoldable pub selected : Store → Verb → Selection → List ℕ
selected s verb (ids listed) = sort leb listed
selected s verb everything =
    map (λ (a : PendingAction). a.id)
      (filter (λ a. a.status == expected verb) (list_actions s false))

unfoldable pub decide :
    Host → (ℕ → Turn) → Selection → Verb → String → World → World × Option PerformError
unfolding decide_each
decide h turns which verb operator w =
    decide_each h turns verb operator (selected w.os.store verb which) w

-- The description allows the kernel to apply the action by itself under these tags.
abbrev pub is_automatic : List String → Option ActionDescription → Bool
is_automatic tags none = false
is_automatic tags (some d) =
    is_set d.auto_approvable
    && not (is_set d.await_decision)
    && (elim d.action_kind [ none ↦ false | some kind ↦ includes tags kind.tag ])

abbrev pub auto_approval : String
auto_approval = "auto-approval"

-- The loop over the rows of one instance, as they were listed when the task began.
drain_each : Host → (ℕ → Turn) → List String → List PendingAction → World → World
drain_each h turns tags [] w = w
drain_each h turns tags (action ∷ rest) w =
    let next = drain_each h turns tags rest in
    if (turns action.id).stopped || action.status == failed
    then w
    else if not (action.status == pending)
    then next w
    else if not (is_automatic tags (h.description action.description_json))
    then w
    else let (w', error) = perform h (turns action.id) action.id apply auto_approval w in
      elim error [ some e ↦ w' | none ↦ next w' ]

unfoldable pub drain_instance : Host → (ℕ → Turn) → List String → String → World → World
unfolding drain_each
drain_instance h turns tags gatekeeper_instance w =
    drain_each h turns tags
      (filter (λ a. a.gatekeeper_instance == gatekeeper_instance) (list_actions w.os.store false)) w

-- `new Set(…)` of the instances with a pending action, in the order of their first occurrence.
distinct_instances : List String → List PendingAction → List String
distinct_instances seen [] = []
distinct_instances seen (a ∷ rest) =
    let i = a.gatekeeper_instance in
    let later = distinct_instances (i ∷ seen) rest in
    let same = distinct_instances seen rest in if includes seen i then same else i ∷ later

drain_instances : Host → (ℕ → Turn) → (String → Turn) → List String → List String → World → World
drain_instances h turns starts tags [] w = w
drain_instances h turns starts tags (i ∷ rest) w = drain_instances h turns starts tags rest (
    if (starts i).stopped
    then w
    else drain_instance h turns tags i (record w { os = (starts i).queued w.os }))

-- Independent instances are drained side by side; what one lets in is in the others' turns.
unfoldable pub drain : Host → (ℕ → Turn) → (String → Turn) → Bool → List String → World → World
unfolding drain_instances distinct_instances
drain h turns starts stopped tags w =
    if stopped
    then w
    else drain_instances h turns starts tags (distinct_instances [] (list_actions w.os.store true))
        w
