-- ===== src/Tests/Resume.antt =====
-- The theorems on the harvest of a ledger, at the run of Ledger.
use pointlock.Prelude.{
  strip_prefix, ◌≡◌, refl, true, false, none, some, List, [], ◌∷◌, ◌++◌, map, ok, err, push,
}
use pointlock.Ir.Vocab.{HumanPurpose}
use pointlock.Ir.Record.{HumanPending}
use pointlock.Ir.RunPath.{PathFrame, RunPath}
use pointlock.Ir.RunLog.{RunLogPayload, RunLogEvent}
use pointlock.Store.Fold.State.{FoldState, seed}
use pointlock.Store.Fold.Steps.{Folded}
use pointlock.Store.Fold.Apply.{fold_state, fold_from, fold_step, apply}
use pointlock.Store.Fold.Sites.{same_instance, same_site}
use pointlock.Runner.Descent.{
  is_instance_descendant, is_instance_descendant_below, live_frame_pins, pins_of,
}
use pointlock.Runner.Keys.{
  instance_key, key_text, key_segment, trimmed, is_attempt_suffix, attempt_of,
}
use pointlock.Runner.Facts.{no_facts}
use pointlock.Runner.Harvest.{
  attempt_or_one, harvest, harvest_from, harvest_payload, harvest_entered, harvest_intent,
  harvest_settled, harvest_result, harvest_verdict,
}
use pointlock.Runner.Spans.{span_path, above_root}
use pointlock.Runner.Resume.{harvest-open}
use pointlock.Runner.Waits.{Awaits, harvest-Awaits}
use pointlock.Runner.Watermark.{Covers, is_intent, harvest-Covers}
use pointlock.Tests.Ledger.{
  meta, event, request, decision, step_path, first_step, second_step, after_second, whole_lem,
}

harvest-open_example :
    ((harvest (first_step ++ second_step)).open_spans ≡ map span_path after_second.in_flight)
    × ((harvest (first_step ++ second_step)).live_frames ≡ above_root after_second.frame_paths)
harvest-open_example = harvest-open meta (first_step ++ second_step) after_second whole_lem

-- The step that the run was in when it stopped.
open_runs : (harvest (first_step ++ second_step)).open_spans ≡ step_path "type" ∷ []
unfolding harvest harvest_from harvest_payload harvest_entered harvest_intent harvest_settled
    harvest_result harvest_verdict
open_runs = refl

-- A key drops the hashes and the attempt at the end, and keeps an attempt inside.
abbrev called : RunPath
called =
    PathFrame.flow "login" "h0"
    ∷ PathFrame.step "pay"
    ∷ PathFrame.attempt 2
    ∷ PathFrame.iteration 3 (some "cart")
    ∷ PathFrame.attempt 4
    ∷ []

key_runs : instance_key called ≡ "/pay#2[3:cart]"
unfolding instance_key key_text key_segment trimmed is_attempt_suffix
key_runs = refl

-- A supervision request that was answered with a suspension.
abbrev suspended : List RunLogEvent
suspended =
    event 7 (step_path "tap") (RunLogPayload.human_requested request)
    ∷ event 8 (step_path "tap") (
        RunLogPayload.human_responded "request-1" HumanPurpose.supervision (decision "suspend")
          "ada")
    ∷ []

abbrev or_seed : Folded → FoldState
or_seed (ok s) = s
or_seed (err x) = seed meta

abbrev after_suspended : FoldState
after_suspended = or_seed (fold_state meta (first_step ++ suspended))

after_suspended_lem : fold_state meta (first_step ++ suspended) ≡ ok after_suspended
unfolding fold_state fold_from fold_step apply seed same_instance same_site
after_suspended_lem = refl

abbrev asked : HumanPending
asked = record {
  run_path = step_path "tap";
  request_id = "request-1";
  purpose = HumanPurpose.supervision;
  mode = none;
  prompt = "go on?";
  deadline_at_ms = some 500;
}

asked_lem : after_suspended.view.human_pending ≡ some asked
unfolding fold_state fold_from fold_step apply seed same_instance same_site
asked_lem = refl

harvest-Awaits_example : Awaits asked (harvest (first_step ++ suspended)).human_requests
harvest-Awaits_example =
    harvest-Awaits meta (first_step ++ suspended) after_suspended asked after_suspended_lem
      asked_lem

abbrev third_attempt : RunLogEvent
third_attempt =
    event 9 (push (step_path "type") (PathFrame.attempt 3))
      (RunLogPayload.action_intent "call-3" (decision "x") none none none)

intent_lem : is_intent third_attempt.payload ≡ true
unfolding is_intent
intent_lem = refl

harvest-Covers_example :
    Covers
      (instance_key third_attempt.run_path)
      (attempt_or_one (attempt_of third_attempt.run_path))
      (harvest (first_step ++ third_attempt ∷ second_step)).max_attempt
harvest-Covers_example = harvest-Covers first_step second_step third_attempt intent_lem

inside_test : is_instance_descendant "/login" "/login/tap" ≡ true
unfolding is_instance_descendant strip_prefix
inside_test = refl

round_test : is_instance_descendant "/login/tap" "/login/tap[2]" ≡ true
unfolding is_instance_descendant strip_prefix
round_test = refl

-- A longer name is no place inside.
longer_name_test : is_instance_descendant "/login" "/loginTwice" ≡ false
unfolding is_instance_descendant strip_prefix
longer_name_test = refl

abbrev whole_path : RunPath
whole_path = PathFrame.flow "login" "h0" ∷ PathFrame.step "pay" ∷ []

whole_path_lem : trimmed whole_path ≡ whole_path
unfolding trimmed is_attempt_suffix
whole_path_lem = refl

is_instance_descendant_below_example :
    is_instance_descendant (instance_key whole_path) (
      instance_key (
        whole_path
        ++ PathFrame.iteration 3 (some "cart") ∷ PathFrame.step "tap" ∷ PathFrame.attempt 2 ∷ []))
    ≡ true
is_instance_descendant_below_example =
    is_instance_descendant_below whole_path (PathFrame.step "tap" ∷ PathFrame.attempt 2 ∷ [])
      (PathFrame.iteration 3 (some "cart")) whole_path_lem refl

abbrev called_frame : RunPath
called_frame = PathFrame.flow "login" "h0" ∷ PathFrame.call (some "pay") "checkout" "h7" ∷ []

-- The pin of an open call frame is the hash at the end of its path.
pins_test :
    live_frame_pins (record (no_facts.facts) { live_frames = called_frame ∷ [] })
    ≡ ("/pay", "h7") ∷ []
unfolding live_frame_pins pins_of instance_key key_text key_segment trimmed is_attempt_suffix
pins_test = refl
