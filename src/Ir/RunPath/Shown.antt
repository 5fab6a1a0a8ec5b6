-- ===== src/Ir/RunPath/Shown.antt =====
-- The rendering of a path without its buffer: what each frame puts in front of the rest.
use mathlib.Core.List.{append-nil, append_assoc}
use pointlock.Prelude.{
  ℕ, ◌≡◌, refl, ap, ◌∙◌, List, [], ◌∷◌, ◌++◌, Option, none, some, Text, decimal,
}
use pointlock.Ir.RunPath.Frames.{
  ParsedPathFrame, call_arrow, hook_mark, hook_wire_name, phase_wire_name, flush_pending_call,
  flow_slash, render_frame, render_loop, render_parsed_run_path,
}

abbrev pub arrow : Text → Text → Text
arrow f h = call_arrow ++ (f ++ b'@' ∷ h)

abbrev pub frame_text : ParsedPathFrame → Text
frame_text (ParsedPathFrame.flow f h) = b'/' ∷ (f ++ b'@' ∷ h)
frame_text (ParsedPathFrame.step s) = b'/' ∷ s
frame_text (ParsedPathFrame.call none f h) = []
frame_text (ParsedPathFrame.call (some s) f h) = b'/' ∷ s
frame_text (ParsedPathFrame.iteration i none) = b'[' ∷ (decimal i ++ b']' ∷ [])
frame_text (ParsedPathFrame.iteration i (some key)) =
    b'[' ∷ (decimal i ++ b':' ∷ (key ++ b']' ∷ []))
frame_text (ParsedPathFrame.hook h n) = b'/' ∷ (hook_mark ++ (hook_wire_name h ++ b':' ∷ decimal n))
frame_text (ParsedPathFrame.attempt n) = b'#' ∷ decimal n
frame_text (ParsedPathFrame.phase p) = b':' ∷ phase_wire_name p
frame_text (ParsedPathFrame.assertion a) = b'!' ∷ a

abbrev pub held : ParsedPathFrame → Option Text
held (ParsedPathFrame.call s f h) = some (arrow f h)
held _ = none

abbrev pub flushed : Option Text → Text
flushed none = []
flushed (some segment) = b'/' ∷ segment

unfoldable pub shown : Option Text → List ParsedPathFrame → Text
shown pending [] = flushed pending
shown pending (ParsedPathFrame.attempt n ∷ path) = b'#' ∷ (decimal n ++ shown pending path)
shown pending (ParsedPathFrame.phase p ∷ path) = b':' ∷ (phase_wire_name p ++ shown pending path)
shown pending (frame ∷ path) = flushed pending ++ (frame_text frame ++ shown (held frame) path)

flush-flushed :
    (c : ℕ) (out : Text) (pending : Option Text)
    → flush_pending_call (c ∷ out) pending ≡ c ∷ (out ++ flushed pending)
unfolding flush_pending_call
flush-flushed c out none = rw append-nil refl
flush-flushed c out (some segment) = refl

render_frame-text :
    (c : ℕ) (out : Text) (frame : ParsedPathFrame)
    → render_frame (c ∷ out) frame ≡ (c ∷ (out ++ frame_text frame), held frame)
unfolding render_frame flow_slash
render_frame-text c out (ParsedPathFrame.flow f h) =
    ap (λ t. (c ∷ t, none)) (append_assoc out (b'/' ∷ []) (f ++ b'@' ∷ h))
render_frame-text c out (ParsedPathFrame.call none f h) = rw append-nil refl
render_frame-text c out (ParsedPathFrame.call (some s) f h) = refl
render_frame-text c out (ParsedPathFrame.iteration i none) = refl
render_frame-text c out (ParsedPathFrame.iteration i (some key)) = refl
render_frame-text c out (ParsedPathFrame.step s) = refl
render_frame-text c out (ParsedPathFrame.hook h n) = refl
render_frame-text c out (ParsedPathFrame.attempt n) = refl
render_frame-text c out (ParsedPathFrame.phase p) = refl
render_frame-text c out (ParsedPathFrame.assertion a) = refl

-- Behind a text that is not empty the loop appends what the frames show.
abbrev Appends : List ParsedPathFrame → Type 0
Appends path =
    (pending : Option Text) (c : ℕ) (out : Text)
    → render_loop (c ∷ out) pending path ≡ c ∷ (out ++ shown pending path)

-- A round for a frame that is neither an attempt nor a phase.
render_loop-round :
    (frame : ParsedPathFrame) (path : List ParsedPathFrame)
    → Appends path
    → (pending : Option Text) (c : ℕ) (out : Text)
    → (let (more, segment) = render_frame (flush_pending_call (c ∷ out) pending) frame in
        render_loop more segment path)
      ≡ c ∷ (out ++ (flushed pending ++ (frame_text frame ++ shown (held frame) path)))
render_loop-round frame path later pending c out =
    rw (flush-flushed c out pending, render_frame-text c (out ++ flushed pending) frame)
      (later (held frame) c ((out ++ flushed pending) ++ frame_text frame)
        ∙ ap (λ t. c ∷ t)
            (append_assoc (out ++ flushed pending) (frame_text frame) (shown (held frame) path)
              ∙ append_assoc out (flushed pending) (frame_text frame ++ shown (held frame) path)))

render_loop-shown : (path : List ParsedPathFrame) → Appends path
unfolding render_loop shown render_frame
render_loop-shown [] pending c out = flush-flushed c out pending
render_loop-shown (ParsedPathFrame.attempt n ∷ path) pending c out =
    render_loop-shown path pending c (out ++ b'#' ∷ decimal n)
    ∙ ap (λ t. c ∷ t) (append_assoc out (b'#' ∷ decimal n) (shown pending path))
render_loop-shown (ParsedPathFrame.phase p ∷ path) pending c out =
    render_loop-shown path pending c (out ++ b':' ∷ phase_wire_name p)
    ∙ ap (λ t. c ∷ t) (append_assoc out (b':' ∷ phase_wire_name p) (shown pending path))
render_loop-shown (frame ∷ path) pending c out =
    render_loop-round frame path (render_loop-shown path) pending c out

-- A path that begins with a flow.
pub render-shown :
    (f h : Text) (path : List ParsedPathFrame)
    → render_parsed_run_path (ParsedPathFrame.flow f h ∷ path) ≡ (f ++ b'@' ∷ h) ++ shown none path
unfolding render_parsed_run_path render_loop render_frame flow_slash flush_pending_call
render-shown [] h path = render_loop-shown path none b'@' h
render-shown (c ∷ f) h path = render_loop-shown path none c (f ++ b'@' ∷ h)
