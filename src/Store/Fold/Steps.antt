-- ===== src/Store/Fold/Steps.antt =====
-- fold.rs, 357-485: the events that enter a step and carry it to its judgment.
use pointlock.Prelude.{
  ℕ, String, not, Option, none, some, List, [], ◌∷◌, Result, ok, err, if◌then◌else◌, str_eq, lookup,
  insert, remove, push, last?, modify_last, any,
}
use pointlock.Ir.Vocab.{StepId, ActionName, Hash, ActChannel, StepState, VerdictStatus, status_eq}
use pointlock.Ir.Json.{Value}
use pointlock.Ir.RunPath.{RunPath}
use pointlock.Ir.Record.{
  ActionOutcome, ObservationRecord, EvidenceRef, AssertionOutcomeRecord, PendingIntent,
}
use pointlock.Store.Fold.State.{
  FoldError, InFlightStep, DispatchIdentity, FoldState, with_frontier, with_step_state,
}
use pointlock.Store.Fold.Attempts.{attempt_record}

abbrev pub Folded : Type 0
Folded = Result FoldState FoldError

-- `stepEntered`.
unfoldable pub step_entered : FoldState → RunPath → StepId → Hash → Hash → Value → FoldState
step_entered s run_path step_id effect_hash judge_hash resolved_inputs =
    with_frontier
      (record s {
        in_flight = push s.in_flight (record {
          run_path = run_path;
          step_id = step_id;
          effect_hash = effect_hash;
          judge_hash = judge_hash;
          resolved_inputs = resolved_inputs;
          attempts = [];
          call_outputs = none;
          observations = [];
          evidence = [];
          assertion_outcomes = [];
          verdict = none;
        });
      })
      (record { run_path = run_path; state = StepState.ready; pending_intent = none })

-- `preflightProbed`: an empty list is a note that nothing was probed.
unfoldable pub preflight_probed : FoldState → List AssertionOutcomeRecord → FoldState
preflight_probed s [] = s
preflight_probed s (outcome ∷ outcomes) = with_step_state s (
    if any (λ probe. not (status_eq probe.result VerdictStatus.pass)) (outcome ∷ outcomes)
    then StepState.drifted
    else StepState.probing)

-- `actionIntent`: the frontier records the hanging intent.
unfoldable pub action_intent :
    FoldState → String → Value → Option ℕ → Option ActChannel → Option ActionName → FoldState
action_intent s call_id args_snapshot chain_index channel action_name = record s {
  intent_dispatch =
      insert call_id
        (record { chain_index = chain_index; channel = channel; action_name = action_name })
        s.intent_dispatch;
  view = record (s.view) {
    frontier = record (s.view.frontier) {
      state = StepState.acting;
      pending_intent = some (record { call_id = call_id; args_snapshot = args_snapshot });
    };
  };
}

-- `unwrap_or_default` of a removed dispatch identity.
abbrev pub or_default : Option DispatchIdentity → DispatchIdentity
or_default (some dispatch) = dispatch
or_default none = record { chain_index = none; channel = none; action_name = none }

-- The pending intent after a terminal of `call_id`: only a matching one is cleared.
abbrev pub settle_intent : String → Option PendingIntent → Option PendingIntent
settle_intent call_id none = none
settle_intent call_id (some intent) = if str_eq intent.call_id call_id then none else some intent

-- A write to the innermost step in flight, or the error that there is none.
abbrev pub in_step : FoldState → FoldError → (InFlightStep → InFlightStep) → Folded
in_step s outside f = elim (last? s.in_flight) [
  | none ↦ err outside
  | some _ ↦ ok (record s { in_flight = modify_last f s.in_flight })
]

-- `actionSettled`.
unfoldable pub action_settled : FoldState → FoldError → String → ActionOutcome → Folded
action_settled s outside call_id outcome =
    let dispatch = or_default (lookup call_id s.intent_dispatch) in
    in_step
      (record s {
        intent_dispatch = remove call_id s.intent_dispatch;
        view = record (s.view) {
          frontier = record (s.view.frontier) {
            state = StepState.settling;
            pending_intent = settle_intent call_id s.view.frontier.pending_intent;
          };
        };
      })
      outside
      (λ step. record step {
        attempts = push step.attempts (attempt_record call_id outcome dispatch);
      })

abbrev pub push_some : List EvidenceRef → Option EvidenceRef → List EvidenceRef
push_some evidence none = evidence
push_some evidence (some entry) = push evidence entry

-- `observationRecorded`.
unfoldable pub observation_recorded : FoldState → FoldError → ObservationRecord → Folded
observation_recorded s outside observation =
    in_step (with_step_state s StepState.observing) outside (λ step. record step {
      evidence = push_some (push_some step.evidence observation.screenshot) observation.ui_snapshot;
      observations = push step.observations observation;
    })

-- `assertionEvaluated`.
unfoldable pub assertion_evaluated : FoldState → FoldError → AssertionOutcomeRecord → Folded
assertion_evaluated s outside outcome =
    in_step (with_step_state s StepState.asserting) outside
      (λ step. record step { assertion_outcomes = push step.assertion_outcomes outcome })
