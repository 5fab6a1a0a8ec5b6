-- ===== src/Ir/RunPath.antt =====
-- crates/pointlock-ir/src/run_path.rs: the frames of a run path and their derived equality.
pub mod Frames
pub mod Parse
pub mod Canonical
pub mod Shown
pub mod Names
pub mod Suffixes
pub mod Pieces
pub mod Segments
pub mod Openings
pub mod Joins
pub mod Sites
pub mod RoundTrip
pub mod Apart
pub mod Sound
pub mod Accepted
pub mod Anchors
pub mod Grammar
pub mod Fuel
use pointlock.Prelude.{
  ℕ, String, Bool, false, ◌&&◌, Option, List, ◌==◌, str_eq, option_eq, length, zip_all,
}
use pointlock.Ir.Vocab.{FlowId, StepId, AssertId, Hash, HandlerHook, Phase, hook_eq, phase_eq}

pub data PathFrame : Type 0 where
  flow : FlowId → Hash → PathFrame
  step : StepId → PathFrame
  -- The call step's id, which a handler-launched flow lacks, the callee and its hash.
  call : Option StepId → FlowId → Hash → PathFrame
  iteration : ℕ → Option String → PathFrame
  hook : HandlerHook → ℕ → PathFrame
  attempt : ℕ → PathFrame
  phase : Phase → PathFrame
  assertion : AssertId → PathFrame

abbrev pub RunPath : Type 0
RunPath = List PathFrame

-- `#[derive(PartialEq)]` of `PathFrame`.
unfoldable pub frame_eq : PathFrame → PathFrame → Bool
frame_eq (PathFrame.flow f h) (PathFrame.flow g k) = str_eq f g && str_eq h k
frame_eq (PathFrame.step s) (PathFrame.step t) = str_eq s t
frame_eq (PathFrame.call s f h) (PathFrame.call t g k) =
    option_eq str_eq s t && (str_eq f g && str_eq h k)
frame_eq (PathFrame.iteration i a) (PathFrame.iteration j b) = i == j && option_eq str_eq a b
frame_eq (PathFrame.hook a i) (PathFrame.hook b j) = hook_eq a b && i == j
frame_eq (PathFrame.attempt i) (PathFrame.attempt j) = i == j
frame_eq (PathFrame.phase p) (PathFrame.phase q) = phase_eq p q
frame_eq (PathFrame.assertion a) (PathFrame.assertion b) = str_eq a b
frame_eq _ _ = false

-- Equality of run paths, the `==` of the vectors.
unfoldable pub path_eq : RunPath → RunPath → Bool
unfolding frame_eq
path_eq p q = length p == length q && zip_all frame_eq p q
