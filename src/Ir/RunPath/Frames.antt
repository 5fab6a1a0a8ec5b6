-- ===== src/Ir/RunPath/Frames.antt =====
-- run_path.rs: the frames that the text of a path holds, and their rendering.
use pointlock.Prelude.{
  ℕ, zero, suc, List, [], ◌∷◌, ◌++◌, Option, none, some, map, Text, codes, decimal,
}
use pointlock.Ir.Vocab.{Hash, HandlerHook, Phase}
use pointlock.Ir.RunPath.{PathFrame, RunPath}

-- A frame with the first eight digits of a hash in its place.
pub data ParsedPathFrame : Type 0 where
  flow : Text → Text → ParsedPathFrame
  step : Text → ParsedPathFrame
  call : Option Text → Text → Text → ParsedPathFrame
  iteration : ℕ → Option Text → ParsedPathFrame
  hook : HandlerHook → ℕ → ParsedPathFrame
  attempt : ℕ → ParsedPathFrame
  phase : Phase → ParsedPathFrame
  assertion : Text → ParsedPathFrame

unfoldable pub take : ℕ → Text → Text
take zero s = []
take (suc n) [] = []
take (suc n) (c ∷ s) = c ∷ take n s

unfoldable pub drop : ℕ → Text → Text
drop zero s = s
drop (suc n) [] = []
drop (suc n) (c ∷ s) = drop n s

-- Behind `sha256:`.
unfoldable pub hex_prefix8 : Hash → Text
hex_prefix8 h = take 8 (drop 7 (codes h))

-- `ParsedPathFrame::from`.
unfoldable pub parsed_frame : PathFrame → ParsedPathFrame
parsed_frame (PathFrame.flow f h) = ParsedPathFrame.flow (codes f) (hex_prefix8 h)
parsed_frame (PathFrame.step s) = ParsedPathFrame.step (codes s)
parsed_frame (PathFrame.call none f h) = ParsedPathFrame.call none (codes f) (hex_prefix8 h)
parsed_frame (PathFrame.call (some s) f h) =
    ParsedPathFrame.call (some (codes s)) (codes f) (hex_prefix8 h)
parsed_frame (PathFrame.iteration i none) = ParsedPathFrame.iteration i none
parsed_frame (PathFrame.iteration i (some key)) = ParsedPathFrame.iteration i (some (codes key))
parsed_frame (PathFrame.hook h n) = ParsedPathFrame.hook h n
parsed_frame (PathFrame.attempt n) = ParsedPathFrame.attempt n
parsed_frame (PathFrame.phase p) = ParsedPathFrame.phase p
parsed_frame (PathFrame.assertion a) = ParsedPathFrame.assertion (codes a)

unfoldable pub hook_wire_name : HandlerHook → Text
hook_wire_name HandlerHook.on_fail = codes "onFail"
hook_wire_name HandlerHook.on_unknown = codes "onUnknown"
hook_wire_name HandlerHook.on_error = codes "onError"
hook_wire_name HandlerHook.on_resume_drift = codes "onResumeDrift"

unfoldable pub phase_wire_name : Phase → Text
phase_wire_name Phase.preflight = codes "preflight"
phase_wire_name Phase.act = codes "act"
phase_wire_name Phase.observe = codes "observe"
phase_wire_name Phase.assert = codes "assert"

abbrev pub call_arrow : Text
call_arrow = codes "call→"

abbrev pub hook_mark : Text
hook_mark = codes "hook:"

-- The held-back arrow segment goes out.
unfoldable pub flush_pending_call : Text → Option Text → Text
flush_pending_call out none = out
flush_pending_call out (some segment) = out ++ b'/' ∷ segment

-- The slash in front of a flow root, unless it opens the text.
unfoldable pub flow_slash : Text → Text
flow_slash [] = []
flow_slash (c ∷ out) = (c ∷ out) ++ b'/' ∷ []

-- One round of the loop for a frame that is neither an attempt nor a phase, with no segment held back.
unfoldable pub render_frame : Text → ParsedPathFrame → Text × Option Text
render_frame out (ParsedPathFrame.flow f h) = (flow_slash out ++ (f ++ b'@' ∷ h), none)
render_frame out (ParsedPathFrame.step s) = (out ++ b'/' ∷ s, none)
render_frame out (ParsedPathFrame.call none f h) = (out, some (call_arrow ++ (f ++ b'@' ∷ h)))
render_frame out (ParsedPathFrame.call (some s) f h) =
    (out ++ b'/' ∷ s, some (call_arrow ++ (f ++ b'@' ∷ h)))
render_frame out (ParsedPathFrame.iteration i none) = (out ++ b'[' ∷ (decimal i ++ b']' ∷ []), none)
render_frame out (ParsedPathFrame.iteration i (some key)) =
    (out ++ b'[' ∷ (decimal i ++ b':' ∷ (key ++ b']' ∷ [])), none)
render_frame out (ParsedPathFrame.hook h n) =
    (out ++ b'/' ∷ (hook_mark ++ (hook_wire_name h ++ b':' ∷ decimal n)), none)
render_frame out (ParsedPathFrame.attempt n) = (out ++ b'#' ∷ decimal n, none)
render_frame out (ParsedPathFrame.phase p) = (out ++ b':' ∷ phase_wire_name p, none)
render_frame out (ParsedPathFrame.assertion a) = (out ++ b'!' ∷ a, none)

-- The loop: `pending` is the arrow segment held back for the attempts of its step.
unfoldable pub render_loop : Text → Option Text → List ParsedPathFrame → Text
render_loop out pending [] = flush_pending_call out pending
render_loop out pending (ParsedPathFrame.attempt n ∷ path) =
    render_loop (render_frame out (ParsedPathFrame.attempt n)).0 pending path
render_loop out pending (ParsedPathFrame.phase p ∷ path) =
    render_loop (render_frame out (ParsedPathFrame.phase p)).0 pending path
render_loop out pending (frame ∷ path) =
    let (more, held) = render_frame (flush_pending_call out pending) frame in
    render_loop more held path

unfoldable pub render_parsed_run_path : List ParsedPathFrame → Text
render_parsed_run_path = render_loop [] none

unfoldable pub render_run_path : RunPath → Text
render_run_path path = render_parsed_run_path (map parsed_frame path)
