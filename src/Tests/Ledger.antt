-- ===== src/Tests/Ledger.antt =====
-- A run of two steps: the first fails its action and is judged, the second asks a human.
use pointlock.Prelude.{ℕ, ◌+◌, ◌≡◌, refl, String, false, none, some, List, [], ◌∷◌, ◌++◌, ok, err}
use pointlock.Ir.Vocab.{HumanPurpose, StepState, VerdictStatus}
use pointlock.Ir.Json.{Value, Fields}
use pointlock.Ir.RunPath.{PathFrame, RunPath}
use pointlock.Ir.Record.{ActionOutcome, EvidenceRef, Verdict, BindingState}
use pointlock.Ir.RunLog.{RunLogPayload, RunLogEvent, HumanRequest}
use pointlock.Store.Fold.State.{RunMeta, RunStatus, FoldState, seed, root_path}
use pointlock.Store.Fold.Steps.{Folded}
use pointlock.Store.Fold.Apply.{fold_state, fold_from, fold_step, apply}
use pointlock.Store.Fold.Sites.{same_instance, same_site}

abbrev pub binding : BindingState
binding = record {
  device_id = "device-1";
  session_lineage = "session-1" ∷ [];
  event_cursor = record { session_id = "session-1"; last_sequence = 0 };
}

abbrev pub meta : RunMeta
meta = record {
  run_id = "run-1";
  flow_id = "login";
  ir_hash = "h0";
  lockfile_digest = "d0";
  params_snapshot = Value.null;
  binding = binding;
  created_at_ms = 1;
}

abbrev pub step_path : String → RunPath
step_path id = PathFrame.flow "login" "h0" ∷ PathFrame.step id ∷ []

abbrev pub event : ℕ → RunPath → RunLogPayload → RunLogEvent
event seq run_path payload = record {
  run_id = "run-1";
  seq = seq;
  at_ms = 100 + seq;
  run_path = run_path;
  payload = payload;
}

abbrev pub proof : EvidenceRef
proof = record {
  asset = record { id = "asset-1"; media_type = "image/png"; uri = "asset://1"; sha256 = none };
  sha256 = "e1";
  local_path = "evidence/e1";
}

abbrev pub verdict : VerdictStatus → Verdict
verdict status = record {
  status = status;
  degraded = false;
  summary = "";
  evidence = [];
  supersedes = none;
}

abbrev pub failure : ActionOutcome
failure =
    ActionOutcome.failed
      (record { code = "tap"; message = "no element"; retryable = false; details = none })

abbrev pub request : HumanRequest
request = record {
  request_id = "request-1";
  purpose = HumanPurpose.supervision;
  mode = none;
  prompt = "go on?";
  presents = Value.null;
  decisions = none;
  output_schema = none;
  deadline_at_ms = some 500;
}

-- The payloads by run path, in order.
abbrev pub first_step : List RunLogEvent
first_step =
    event 1 (root_path "login" "h0") (RunLogPayload.run_started "h0" "d0" Value.null none)
    ∷ event 2 (step_path "tap") (RunLogPayload.step_entered "tap" "eh" "jh" Value.null)
    ∷ event 3 (step_path "tap") (RunLogPayload.action_intent "call-1" Value.null none none none)
    ∷ event 4 (step_path "tap") (RunLogPayload.action_settled "call-1" failure)
    ∷ event 5 (step_path "tap")
        (RunLogPayload.verdict_recorded (verdict VerdictStatus.fail) (proof ∷ []) [] none)
    ∷ event 6 (step_path "tap") (RunLogPayload.step_exited StepState.judged none none [] [])
    ∷ []

abbrev pub second_step : List RunLogEvent
second_step =
    event 7 (step_path "tap")
      (RunLogPayload.verdict_recorded (verdict VerdictStatus.pass) [] [] none)
    ∷ event 8 (step_path "type") (RunLogPayload.step_entered "type" "eh2" "jh2" Value.null)
    ∷ event 9 (step_path "type")
        (RunLogPayload.action_intent "call-2" (Value.string "hello") none none none)
    ∷ []

abbrev pub decision : String → Value
decision label = Value.object (Fields.field "decision" (Value.string label) Fields.end_fields)

-- A request by which the run stops.
abbrev pub stop : List RunLogEvent
stop =
    event 7 (step_path "tap") (RunLogPayload.human_requested request)
    ∷ event 8 (step_path "tap") (
        RunLogPayload.human_responded "request-1" HumanPurpose.supervision (decision "proceed")
          "ada")
    ∷ event 9 (step_path "tap") (RunLogPayload.run_suspended none none)
    ∷ []

abbrev or_seed : Folded → FoldState
or_seed (ok s) = s
or_seed (err x) = seed meta

abbrev pub after_first : FoldState
after_first = or_seed (fold_state meta first_step)

abbrev pub after_second : FoldState
after_second = or_seed (fold_from meta (some 6) after_first second_step)

abbrev pub after_stop : FoldState
after_stop = or_seed (fold_state meta (first_step ++ stop))

pub after_first_lem : fold_state meta first_step ≡ ok after_first
unfolding fold_state fold_from fold_step apply seed same_instance same_site
after_first_lem = refl

pub after_second_lem : fold_from meta (some 6) after_first second_step ≡ ok after_second
unfolding fold_state fold_from fold_step apply seed same_instance same_site
after_second_lem = refl

pub whole_lem : fold_state meta (first_step ++ second_step) ≡ ok after_second
unfolding fold_state fold_from fold_step apply seed same_instance same_site
whole_lem = refl

pub after_stop_lem : fold_state meta (first_step ++ stop) ≡ ok after_stop
unfolding fold_state fold_from fold_step apply seed same_instance same_site
after_stop_lem = refl

pub stopped_lem : after_stop.status ≡ RunStatus.suspended
unfolding fold_state fold_from fold_step apply seed same_instance same_site
stopped_lem = refl
