-- ===== src/Store/Fold/Apply.antt =====
-- fold.rs, 139-171 and 301-783: one event, and the fold of a whole ledger.
use pointlock.Prelude.{
  ℕ, Bool, true, false, Option, none, some, List, [], ◌∷◌, ok, err, ◌>>=◌, not, ◌&&◌, if◌then◌else◌,
  str_eq, leb,
}
use pointlock.Ir.RunLog.{RunLogPayload, RunLogEvent, event_type}
use pointlock.Store.Fold.State.{FoldError, RunMeta, FoldState, seed}
use pointlock.Store.Fold.Steps.{
  Folded, step_entered, preflight_probed, action_intent, action_settled, observation_recorded,
  assertion_evaluated,
}
use pointlock.Store.Fold.Exits.{verdict_recorded, step_exited}
use pointlock.Store.Fold.Frames.{run_started, call_frame_pushed, call_frame_popped}
use pointlock.Store.Fold.Humans.{
  human_requested, human_responded, run_suspended, run_resumed, run_finished,
}

abbrev pub is_run_started : RunLogPayload → Bool
is_run_started (RunLogPayload.run_started _ _ _ _) = true
is_run_started _ = false

-- The `match` of `apply` over the payload.
unfoldable pub dispatch : FoldState → RunLogEvent → RunLogPayload → Folded
unfolding step_entered preflight_probed action_intent action_settled observation_recorded
    assertion_evaluated verdict_recorded step_exited run_started call_frame_pushed call_frame_popped
    human_requested human_responded run_suspended run_resumed run_finished
dispatch s e (RunLogPayload.run_started ir_hash lockfile_digest params_snapshot _) =
    run_started s e.seq ir_hash lockfile_digest params_snapshot
dispatch s e (RunLogPayload.step_entered step_id effect_hash judge_hash resolved_inputs) =
    ok (step_entered s e.run_path step_id effect_hash judge_hash resolved_inputs)
dispatch s e (RunLogPayload.preflight_probed outcomes) = ok (preflight_probed s outcomes)
dispatch s e (RunLogPayload.action_intent call_id args_snapshot chain_index channel action_name) =
    ok (action_intent s call_id args_snapshot chain_index channel action_name)
dispatch s e (RunLogPayload.action_settled call_id outcome) =
    action_settled s (FoldError.event_outside_step e.seq (event_type e.payload)) call_id outcome
dispatch s e (RunLogPayload.observation_recorded observation) =
    observation_recorded s (FoldError.event_outside_step e.seq (event_type e.payload)) observation
dispatch s e (RunLogPayload.assertion_evaluated outcome) =
    assertion_evaluated s (FoldError.event_outside_step e.seq (event_type e.payload)) outcome
dispatch s e (RunLogPayload.verdict_recorded verdict localized _ _) =
    verdict_recorded s e.seq e.run_path verdict localized
dispatch s e (RunLogPayload.step_exited state output _ localized _) =
    step_exited s e.seq e.run_path state output localized
dispatch s e (RunLogPayload.call_frame_pushed frame rebase) =
    call_frame_pushed s e.seq e.run_path frame rebase
dispatch s e (RunLogPayload.call_frame_popped outputs) = call_frame_popped s e.seq outputs
dispatch s e (RunLogPayload.handler_triggered _ _ _) = ok s
dispatch s e (RunLogPayload.human_requested request) = ok (human_requested s e.run_path request)
dispatch s e (RunLogPayload.human_responded request_id purpose response _) =
    human_responded s e.seq request_id purpose response
dispatch s e (RunLogPayload.run_suspended _ _) = ok (run_suspended s)
dispatch s e (RunLogPayload.run_resumed _ _ event_cursor) = ok (run_resumed s event_cursor)
dispatch s e (RunLogPayload.run_finished _ _) = ok (run_finished s)

-- `FoldState::apply`. An error has no state: a caller drops the half-changed one.
unfoldable pub apply : FoldState → RunLogEvent → Folded
unfolding dispatch
apply s e =
    if not s.started && not (is_run_started e.payload)
    then err (FoldError.event_before_run_started e.seq (event_type e.payload))
    else dispatch s e e.payload

-- Whether `seq` fails to increase over the previous event's.
abbrev pub is_stale : Option ℕ → ℕ → Bool
is_stale none seq = false
is_stale (some prev) seq = leb seq prev

abbrev pub prev_or_zero : Option ℕ → ℕ
prev_or_zero none = 0
prev_or_zero (some prev) = prev

-- The body of the loop of `fold_state`.
unfoldable pub fold_step : RunMeta → Option ℕ → FoldState → RunLogEvent → Folded
fold_step meta prev s e =
    if not (str_eq e.run_id meta.run_id)
    then err (FoldError.run_id_mismatch e.seq meta.run_id e.run_id)
    else if is_stale prev e.seq
    then err (FoldError.non_monotonic_seq (prev_or_zero prev) e.seq)
    else apply s e

unfoldable pub fold_from : RunMeta → Option ℕ → FoldState → List RunLogEvent → Folded
fold_from meta prev s [] = ok s
fold_from meta prev s (e ∷ events) =
    fold_step meta prev s e >>= λ next. fold_from meta (some e.seq) next events

-- `fold_state`.
unfoldable pub fold_state : RunMeta → List RunLogEvent → Folded
fold_state meta events = fold_from meta none (seed meta) events
