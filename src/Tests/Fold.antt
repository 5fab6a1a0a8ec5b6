-- ===== src/Tests/Fold.antt =====
-- The theorems on the fold, at the run of two steps.
use pointlock.Prelude.{map, true, ◌+◌, ◌≡◌, ◌≢◌, ◌↔◌, none, some, List, [], ◌∷◌, ◌++◌, err, length}
use pointlock.Ir.Vocab.{VerdictStatus}
use pointlock.Ir.Json.{Value}
use pointlock.Ir.Record.{PendingIntent, EvidenceRef}
use pointlock.Ir.RunLog.{RunLogEvent, RunLogPayload}
use pointlock.Store.Fold.State.{FoldError}
use pointlock.Ir.RunPath.{PathFrame, RunPath}
use pointlock.Store.Fold.Instances.{without_hash, same_instance_iff}
use pointlock.Store.Fold.Sites.{same_instance, merge_evidence}
use pointlock.Store.Fold.Apply.{fold_state}
use pointlock.Store.Fold.Tally.{enters, exits, opens, pops}
use pointlock.Store.Fold.Ledger.{tally, fold_state-IsTallied, fold_state-ne-no_active_frame}
use pointlock.Store.Fold.Replay.{IsNumbered, StartsOnce, fold_state-IsNumbered}
use pointlock.Store.Fold.Records.{AllKept, fold_from-AllKept}
use pointlock.Store.Fold.Evidence.{IsDistinct, Covers, merge_evidence-dedups}
use pointlock.Store.Fold.Intents.{HangsIn, pending_intent-HangsIn}
use pointlock.Store.Fold.Quiet.{fold_state-IsQuiet}
use pointlock.Tests.Ledger.{
  meta, event, step_path, proof, verdict, first_step, second_step, stop, after_first, after_second,
  after_stop, after_first_lem, after_second_lem, whole_lem, after_stop_lem, stopped_lem,
}

abbrev typing : PendingIntent
typing = record { call_id = "call-2"; args_snapshot = Value.string "hello" }

pending_intent-HangsIn_example :
    (after_second.view.frontier.pending_intent ≡ some typing)
    ↔ HangsIn typing (first_step ++ second_step)
pending_intent-HangsIn_example =
    pending_intent-HangsIn meta (first_step ++ second_step) after_second typing whole_lem

fold_from-AllKept_example :
    AllKept second_step after_first.view.completed after_second.view.completed
fold_from-AllKept_example =
    fold_from-AllKept meta (some 6) after_first after_second second_step after_second_lem

fold_state-IsTallied_example :
    (length after_second.in_flight + tally exits (first_step ++ second_step)
      ≡ tally enters (first_step ++ second_step))
    × (length after_second.view.completed ≡ tally exits (first_step ++ second_step))
    × (length after_second.view.frames + tally pops (first_step ++ second_step)
        ≡ tally opens (first_step ++ second_step))
    × (length after_second.view.frames ≡ length after_second.frame_paths)
fold_state-IsTallied_example =
    fold_state-IsTallied meta (first_step ++ second_step) after_second whole_lem

fold_state-ne-no_active_frame_example :
    fold_state meta first_step ≢ err (FoldError.no_active_frame 6)
fold_state-ne-no_active_frame_example = fold_state-ne-no_active_frame meta first_step 6

abbrev late_verdict : RunLogEvent
late_verdict =
    event 7 (step_path "tap")
      (RunLogPayload.verdict_recorded (verdict VerdictStatus.pass) [] [] none)

fold_state-IsNumbered_example : IsNumbered meta none first_step × StartsOnce first_step
fold_state-IsNumbered_example = fold_state-IsNumbered meta first_step after_first after_first_lem

fold_state-IsQuiet_example : after_stop.view.human_pending ≡ none
fold_state-IsQuiet_example =
    fold_state-IsQuiet meta (first_step ++ stop) after_stop after_stop_lem stopped_lem

abbrev other_proof : EvidenceRef
other_proof = record proof { sha256 = "e2" }

merge_evidence-dedups_example :
    ((added : List EvidenceRef) × (merge_evidence (proof ∷ []) (other_proof ∷ proof ∷ [])
        ≡ (proof ∷ []) ++ added)
      × IsDistinct (proof ∷ []) added)
    × Covers (merge_evidence (proof ∷ []) (other_proof ∷ proof ∷ [])) (other_proof ∷ proof ∷ [])
    × (merge_evidence
          (merge_evidence (proof ∷ []) (other_proof ∷ proof ∷ []))
          (other_proof ∷ proof ∷ [])
        ≡ merge_evidence (proof ∷ []) (other_proof ∷ proof ∷ []))
merge_evidence-dedups_example = merge_evidence-dedups (proof ∷ []) (other_proof ∷ proof ∷ [])

-- The same step under a repaired flow, whose hash is another.
abbrev repaired_path : RunPath
repaired_path = PathFrame.flow "login" "h1" ∷ PathFrame.step "tap" ∷ []

same_instance_iff_example :
    (same_instance (step_path "tap") repaired_path ≡ true)
    ↔ (map without_hash (step_path "tap") ≡ map without_hash repaired_path)
same_instance_iff_example = same_instance_iff (step_path "tap") repaired_path
