-- ===== src/Store/Fold/Exits.antt =====
-- fold.rs, 486-610 and 908-916: the events that judge and leave a step.
use pointlock.Prelude.{
  ℕ, ◌+◌, Bool, false, Option, none, some, List, ok, err, if◌then◌else◌, or_option, push, last?,
  init, modify_at, modify_last, rposition,
}
use pointlock.Ir.Vocab.{StepState}
use pointlock.Ir.Json.{Value}
use pointlock.Ir.RunPath.{RunPath, path_eq}
use pointlock.Ir.Record.{Verdict, StepVerdict, EvidenceRef, StepRecord, CallFrame, HumanPending}
use pointlock.Store.Fold.Sites.{same_instance, direct_body_child, merge_evidence}
use pointlock.Store.Fold.State.{FoldError, InFlightStep, FoldState, with_step_state}
use pointlock.Store.Fold.Steps.{Folded}

-- `project_verdict`.
unfoldable pub project_verdict : Verdict → StepVerdict
project_verdict verdict = record {
  status = verdict.status;
  degraded = verdict.degraded;
  supersedes = verdict.supersedes;
}

-- What a recorded verdict writes to a step in flight, and to a completed record.
abbrev pub judge_step : Verdict → List EvidenceRef → InFlightStep → InFlightStep
judge_step verdict localized step = record step {
  evidence = merge_evidence step.evidence localized;
  verdict = some (project_verdict verdict);
}

abbrev pub judge_record : Verdict → List EvidenceRef → StepRecord → StepRecord
judge_record verdict localized step = record step {
  evidence = merge_evidence step.evidence localized;
  verdict = some (project_verdict verdict);
}

-- `verdictRecorded`: the target is chosen by the event's own run path, first among the steps in
-- flight, then among the completed records, the latest first.
unfoldable pub verdict_recorded : FoldState → ℕ → RunPath → Verdict → List EvidenceRef → Folded
verdict_recorded s seq run_path verdict localized =
    elim (rposition (λ step. same_instance step.run_path run_path) s.in_flight) [
      | some index ↦ ok (
          with_step_state
            (record s { in_flight = modify_at index (judge_step verdict localized) s.in_flight })
            StepState.judged)
      | none ↦ elim (rposition (λ done. same_instance done.run_path run_path) s.view.completed) [
        | some index ↦ ok (record s {
          view = record (s.view) {
            completed = modify_at index (judge_record verdict localized) s.view.completed;
          };
        })
        | none ↦ err (FoldError.verdict_without_target seq)
      ]
    ]

-- A terminal exit of the awaiting step settles its pending request.
abbrev pub settle_human : RunPath → Option HumanPending → Option HumanPending
settle_human run_path none = none
settle_human run_path (some pending) =
    if path_eq pending.run_path run_path then none else some pending

abbrev pub complete_step : InFlightStep → List EvidenceRef → Option Value → StepRecord
complete_step step localized output = record {
  run_path = step.run_path;
  step_id = step.step_id;
  effect_hash = step.effect_hash;
  judge_hash = step.judge_hash;
  attempts = step.attempts;
  resolved_inputs = step.resolved_inputs;
  output = or_option output step.call_outputs;
  observations = step.observations;
  evidence = merge_evidence step.evidence localized;
  assertion_outcomes = step.assertion_outcomes;
  verdict = step.verdict;
}

-- Whether the exit at `run_path` moves the body cursor of the innermost frame.
abbrev pub moves_cursor : Option RunPath → RunPath → Bool
moves_cursor none run_path = false
moves_cursor (some prefix) run_path = direct_body_child prefix run_path

abbrev pub advance_cursor : CallFrame → CallFrame
advance_cursor frame = record frame { next_index = frame.next_index + 1 }

-- `stepExited`.
unfoldable pub step_exited :
    FoldState → ℕ → RunPath → StepState → Option Value → List EvidenceRef → Folded
step_exited s seq run_path state output localized = elim (last? s.in_flight) [
  | none ↦ err (FoldError.step_exited_without_entry seq)
  | some step ↦ elim (last? s.view.frames) [
    | none ↦ err (FoldError.no_active_frame seq)
    | some _ ↦ ok (record s {
      in_flight = init s.in_flight;
      view = record (s.view) {
        human_pending = settle_human run_path s.view.human_pending;
        completed = push s.view.completed (complete_step step localized output);
        frames =
            (if moves_cursor (last? s.frame_paths) run_path
              then modify_last advance_cursor s.view.frames
              else s.view.frames);
        frontier = record { run_path = run_path; state = state; pending_intent = none };
      };
    })
  ]
]
