-- ===== src/Runner/Keys.antt =====
-- crates/pointlock-runner/src/engine.rs, 300-363, and align.rs, 426-442: attempts and instance keys.
use pointlock.Prelude.{
  ℕ, String, Bool, true, false, Option, none, some, [], ◌∷◌, or_option, if◌then◌else◌, ◌<>◌,
  show_nat, length, ltb, ◌&&◌,
}
use pointlock.Ir.Vocab.{HandlerHook}
use pointlock.Ir.RunPath.{PathFrame, RunPath, frame_eq}

-- The last attempt number of a path.
unfoldable pub attempt_of : RunPath → Option ℕ
attempt_of [] = none
attempt_of (PathFrame.attempt n ∷ path) = or_option (attempt_of path) (some n)
attempt_of (_ ∷ path) = attempt_of path

-- Frames of one attempt, which are no part of an instance at the end of a path.
unfoldable pub is_attempt_suffix : PathFrame → Bool
is_attempt_suffix (PathFrame.attempt n) = true
is_attempt_suffix (PathFrame.phase p) = true
is_attempt_suffix (PathFrame.assertion a) = true
is_attempt_suffix _ = false

-- The path without the frames of an attempt at its end.
unfoldable pub trimmed : RunPath → RunPath
trimmed [] = []
trimmed (frame ∷ path) = elim (trimmed path) [
  | [] ↦ if is_attempt_suffix frame then [] else frame ∷ []
  | next ∷ rest ↦ frame ∷ next ∷ rest
]

-- The `Debug` form of a hook.
unfoldable pub hook_debug : HandlerHook → String
hook_debug HandlerHook.on_fail = "OnFail"
hook_debug HandlerHook.on_unknown = "OnUnknown"
hook_debug HandlerHook.on_error = "OnError"
hook_debug HandlerHook.on_resume_drift = "OnResumeDrift"

-- What one frame writes.
unfoldable pub key_segment : PathFrame → String
key_segment (PathFrame.flow f h) = ""
key_segment (PathFrame.step s) = "/" <> s
key_segment (PathFrame.call (some s) f h) = "/" <> s
key_segment (PathFrame.call none f h) = "/hook-call"
key_segment (PathFrame.iteration i (some item)) = "[" <> show_nat i <> ":" <> item <> "]"
key_segment (PathFrame.iteration i none) = "[" <> show_nat i <> "]"
key_segment (PathFrame.hook h n) = "/hook:" <> hook_debug h <> ":" <> show_nat n
key_segment (PathFrame.attempt n) = "#" <> show_nat n
key_segment (PathFrame.phase p) = ""
key_segment (PathFrame.assertion a) = ""

unfoldable pub key_text : RunPath → String
key_text [] = ""
key_text (frame ∷ path) = key_segment frame <> key_text path

-- `instance_key`.
unfoldable pub instance_key : RunPath → String
instance_key path = key_text (trimmed path)

-- The wire name of a hook.
unfoldable pub hook_wire : HandlerHook → String
hook_wire HandlerHook.on_fail = "onFail"
hook_wire HandlerHook.on_unknown = "onUnknown"
hook_wire HandlerHook.on_error = "onError"
hook_wire HandlerHook.on_resume_drift = "onResumeDrift"

unfoldable pub hook_trigger_key : String → HandlerHook → String
hook_trigger_key instance hook = instance <> "|" <> hook_wire hook

-- `inner.starts_with(outer)` of paths.
abbrev pub path_starts : RunPath → RunPath → Bool
path_starts [] inner = true
path_starts (f ∷ outer) [] = false
path_starts (f ∷ outer) (g ∷ inner) = frame_eq g f && path_starts outer inner

unfoldable pub is_descendant : RunPath → RunPath → Bool
is_descendant outer inner = ltb (length outer) (length inner) && path_starts outer inner
