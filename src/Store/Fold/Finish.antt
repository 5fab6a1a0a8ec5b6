-- ===== src/Store/Fold/Finish.antt =====
-- fold.rs, 139-141 and 244-299: the view that a folded state stands for.
use pointlock.Prelude.{
  ℕ, String, ◌&&◌, Option, none, some, List, [], ◌∷◌, Result, map, map_ok, if◌then◌else◌, leb,
  length, get_elem?, push, modify_at, rposition, zip_all,
}
use pointlock.Ir.Json.{get_str}
use pointlock.Ir.RunPath.{PathFrame, RunPath}
use pointlock.Ir.Record.{IterState, CallFrame}
use pointlock.Ir.RunLog.{RunLogEvent}
use pointlock.Store.Fold.Sites.{same_site}
use pointlock.Store.Fold.State.{FoldError, RunMeta, FoldedRun, InFlightStep, FoldState}
use pointlock.Store.Fold.Apply.{fold_state}

abbrev pub clear_iters : CallFrame → CallFrame
clear_iters frame = record frame { iter_stack = [] }

abbrev pub push_iter : IterState → CallFrame → CallFrame
push_iter iter frame = record frame { iter_stack = push frame.iter_stack iter }

-- The iteration that a span's `as` name and the successor's next frame make, if both are there.
iter_state : Option PathFrame → Option String → Option IterState
iter_state (some (PathFrame.iteration index key)) (some var) =
    some (record { var = var; index = index; key = key })
iter_state _ _ = none

-- The live foreach round that a span and its successor in flight show.
live_round : InFlightStep → InFlightStep → Option IterState
unfolding iter_state
live_round parent child =
    if leb (length child.run_path) (length parent.run_path)
    then none
    else if zip_all same_site parent.run_path child.run_path
    then iter_state (get_elem? child.run_path (length parent.run_path))
        (get_str "as" parent.resolved_inputs)
    else none

-- The innermost frame whose prefix covers the span.
owner_of : List RunPath → RunPath → Option ℕ
owner_of frame_paths run_path =
    rposition (λ prefix. leb (length prefix) (length run_path) && zip_all same_site prefix run_path)
      frame_paths

-- One pair of `windows(2)`.
unfoldable pub add_round :
    List RunPath → InFlightStep → InFlightStep → List CallFrame → List CallFrame
unfolding live_round owner_of
add_round frame_paths parent child frames = elim (live_round parent child) [
  | none ↦ frames
  | some iter ↦ elim (owner_of frame_paths parent.run_path) [
    | none ↦ frames
    | some owner ↦ modify_at owner (push_iter iter) frames
  ]
]

unfoldable pub add_rounds : List RunPath → List InFlightStep → List CallFrame → List CallFrame
unfolding add_round
add_rounds frame_paths [] frames = frames
add_rounds frame_paths (parent ∷ []) frames = frames
add_rounds frame_paths (parent ∷ child ∷ rest) frames =
    add_rounds frame_paths (child ∷ rest) (add_round frame_paths parent child frames)

-- `FoldState::finish`.
unfoldable pub finish : FoldState → FoldedRun
finish s = record {
  view = record (s.view) {
    frames = add_rounds s.frame_paths s.in_flight (map clear_iters s.view.frames);
  };
  status = s.status;
}

-- `fold_checkpoint`.
unfoldable pub fold_checkpoint : RunMeta → List RunLogEvent → Result FoldedRun FoldError
unfolding fold_state finish
fold_checkpoint meta events = map_ok finish (fold_state meta events)
