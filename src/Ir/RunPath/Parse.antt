-- ===== src/Ir/RunPath/Parse.antt =====
-- run_path.rs: parse_run_path and its helpers. The frames read so far stand newest first, so that the
-- end of the vector, where the parser works, is the head of the list.
use pointlock.Prelude.{
  ℕ, zero, suc, ◌+◌, Bool, true, false, ◌&&◌, ◌||◌, List, [], ◌∷◌, Option, none, some, Result, ok,
  err, ◌>>=◌, Text, codes, ◌==◌, if◌then◌else◌, all, leb, length, is_digit, is_letter, is_lower,
  byte_len, span, split, split_once, strip_prefix, parse_u64,
}
use pointlock.Ir.Vocab.{HandlerHook, Phase}
use pointlock.Ir.Ids.{IdFault, flow_id, step_id, assert_id}
use pointlock.Ir.RunPath.Frames.{ParsedPathFrame, call_arrow, hook_mark}

-- What the message of a `RunPathParseError` says. `stuck` is the model's: the loop over the suffixes of
-- a segment is out of rounds.
pub data PathFault : Type 0 where
  empty_path no_hash bad_hash opens_with_call call_out_of_place : PathFault
  bad_flow_id bad_callee_id bad_step_id bad_assert_id : IdFault → PathFault
  bad_hook unknown_hook bad_trigger no_step_id : PathFault
  no_attempt_number attempt_out_of_range phase_out_of_place unknown_phase : PathFault
  open_iteration bad_index empty_key unexpected stuck : PathFault

-- The offset of the segment, and what is wrong with it.
pub record RunPathParseError : Type 0 where
  pub offset : ℕ
  pub fault : PathFault

abbrev pub Parsed {ℓ} : Type ℓ → Type ℓ
Parsed A = Result A RunPathParseError

abbrev pub parse_error {ℓ} : {A : Type ℓ} → ℕ → PathFault → Parsed A
parse_error at why = err (record { offset = at; fault = why })

-- `map_err` of an identifier's fault.
abbrev pub checked_id : ℕ → (IdFault → PathFault) → Result Text IdFault → Parsed Text
checked_id at why (ok id) = ok id
checked_id at why (err fault) = parse_error at (why fault)

unfoldable pub is_hash_char : ℕ → Bool
is_hash_char c = is_digit c || (leb b'a' c && leb c b'f')

-- The name and the hash prefix.
unfoldable pub parse_name_at_hash : Text → ℕ → Parsed (Text × Text)
parse_name_at_hash segment at = elim (split_once b'@' segment) [
  | none ↦ parse_error at PathFault.no_hash
  | some (name, prefix) ↦
      if byte_len prefix == 8 && all is_hash_char prefix
      then ok (name, prefix)
      else parse_error at PathFault.bad_hash
]

-- The flow root.
unfoldable pub parse_root : Text → ℕ → Parsed ParsedPathFrame
parse_root segment at = parse_name_at_hash segment at >>= λ (name, prefix).
    checked_id at PathFault.bad_flow_id (flow_id name) >>= λ id. ok (ParsedPathFrame.flow id prefix)

-- The walk back over attempts and phases to the frame that the call belongs to.
unfoldable pub anchor_call : ℕ → Text → Text → List ParsedPathFrame → Parsed (List ParsedPathFrame)
anchor_call at callee prefix [] = parse_error at PathFault.opens_with_call
anchor_call at callee prefix (ParsedPathFrame.attempt n ∷ frames) =
    anchor_call at callee prefix frames >>= λ anchored. ok (ParsedPathFrame.attempt n ∷ anchored)
anchor_call at callee prefix (ParsedPathFrame.phase p ∷ frames) =
    anchor_call at callee prefix frames >>= λ anchored. ok (ParsedPathFrame.phase p ∷ anchored)
anchor_call at callee prefix (ParsedPathFrame.step id ∷ frames) =
    ok (ParsedPathFrame.call (some id) callee prefix ∷ frames)
anchor_call at callee prefix (ParsedPathFrame.hook h n ∷ frames) =
    ok (ParsedPathFrame.call none callee prefix ∷ ParsedPathFrame.hook h n ∷ frames)
anchor_call at callee prefix (frame ∷ frames) = parse_error at PathFault.call_out_of_place

-- `rest` is what stands behind the arrow.
unfoldable pub parse_call_segment : Text → ℕ → List ParsedPathFrame → Parsed (List ParsedPathFrame)
parse_call_segment rest at frames = parse_name_at_hash rest at >>= λ (name, prefix).
    checked_id at PathFault.bad_callee_id (flow_id name) >>= λ callee.
    anchor_call at callee prefix frames

abbrev pub same_text : Text → Text → Bool
same_text [] [] = true
same_text (c ∷ s) (d ∷ t) = (c == d) && same_text s t
same_text _ _ = false

unfoldable pub parse_hook_name : Text → Option HandlerHook
parse_hook_name name =
    if same_text name (codes "onFail")
    then some HandlerHook.on_fail
    else if same_text name (codes "onUnknown")
    then some HandlerHook.on_unknown
    else if same_text name (codes "onError")
    then some HandlerHook.on_error
    else if same_text name (codes "onResumeDrift")
    then some HandlerHook.on_resume_drift
    else none

unfoldable pub parse_phase_name : Text → Option Phase
parse_phase_name name =
    if same_text name (codes "preflight")
    then some Phase.preflight
    else if same_text name (codes "act")
    then some Phase.act
    else if same_text name (codes "observe")
    then some Phase.observe
    else if same_text name (codes "assert")
    then some Phase.assert
    else none

-- `rest` is what stands behind `hook:`.
unfoldable pub parse_hook_segment : Text → ℕ → Parsed ParsedPathFrame
parse_hook_segment rest at = elim (split_once b':' rest) [
  | none ↦ parse_error at PathFault.bad_hook
  | some (name, trigger) ↦ elim (parse_hook_name name) [
    | none ↦ parse_error at PathFault.unknown_hook
    | some hook ↦ elim (parse_u64 trigger) [
      | none ↦ parse_error at PathFault.bad_trigger
      | some count ↦ ok (ParsedPathFrame.hook hook count)
    ]
  ]
]

-- What one round of the suffix loop leaves: its frame, the rest, and `after_attempt`.
pub record Suffix : Type 0 where
  pub frame : ParsedPathFrame
  pub rest : Text
  pub after_attempt : Bool

-- The number of an attempt.
unfoldable pub attempt_number : ℕ → Text → Parsed ℕ
attempt_number at [] = parse_error at PathFault.no_attempt_number
attempt_number at (c ∷ digits) = elim (parse_u64 (c ∷ digits)) [
  | none ↦ parse_error at PathFault.attempt_out_of_range
  | some n ↦ ok n
]

-- `#n`, from behind the sign.
unfoldable pub attempt_suffix : ℕ → Text → Parsed Suffix
attempt_suffix at s =
    let (digits, tail) = span is_digit s in
    attempt_number at digits >>= λ n.
    ok (record { frame = ParsedPathFrame.attempt n; rest = tail; after_attempt = true })

-- `:phase`.
unfoldable pub phase_suffix : Bool → ℕ → Text → Parsed Suffix
phase_suffix false at s = parse_error at PathFault.phase_out_of_place
phase_suffix true at s =
    let (keyword, tail) = span is_lower s in
    elim (parse_phase_name keyword) [
      | none ↦ parse_error at PathFault.unknown_phase
      | some p ↦ ok (record { frame = ParsedPathFrame.phase p; rest = tail; after_attempt = false })
    ]

-- The frame of an index and a key.
unfoldable pub iteration_frame : ℕ → Text → Option Text → Parsed ParsedPathFrame
iteration_frame at index key = elim (parse_u64 index) [
  | none ↦ parse_error at PathFault.bad_index
  | some i ↦ elim key [
    | none ↦ ok (ParsedPathFrame.iteration i none)
    | some [] ↦ parse_error at PathFault.empty_key
    | some (c ∷ s) ↦ ok (ParsedPathFrame.iteration i (some (c ∷ s)))
  ]
]

-- What stands between the brackets.
unfoldable pub iteration_body : ℕ → Text → Parsed ParsedPathFrame
iteration_body at body = elim (split_once b':' body) [
  | none ↦ iteration_frame at body none
  | some (index, key) ↦ iteration_frame at index (some key)
]

-- `[i]` and `[i:key]`.
unfoldable pub iteration_suffix : ℕ → Text → Parsed Suffix
iteration_suffix at s = elim (split_once b']' s) [
  | none ↦ parse_error at PathFault.open_iteration
  | some (body, tail) ↦
      iteration_body at body >>= λ f. ok (record { frame = f; rest = tail; after_attempt = false })
]

-- `!assertId`, which takes all that is left.
unfoldable pub assertion_suffix : Bool → ℕ → Text → Parsed Suffix
assertion_suffix after at s = checked_id at PathFault.bad_assert_id (assert_id s) >>= λ id.
    ok (record { frame = ParsedPathFrame.assertion id; rest = []; after_attempt = after })

-- One round, by the next character.
unfoldable pub suffix : Bool → ℕ → ℕ → Text → Parsed Suffix
suffix after at c s =
    if c == b'#'
    then attempt_suffix at s
    else if c == b':'
    then phase_suffix after at s
    else if c == b'['
    then iteration_suffix at s
    else if c == b'!'
    then assertion_suffix after at s
    else parse_error at PathFault.unexpected

-- The loop over the suffixes, for at most `fuel` of them.
unfoldable pub parse_suffixes :
    ℕ → Bool → ℕ → Text → List ParsedPathFrame → Parsed (List ParsedPathFrame)
parse_suffixes fuel after at [] frames = ok frames
parse_suffixes zero after at (c ∷ s) frames = parse_error at PathFault.stuck
parse_suffixes (suc fuel) after at (c ∷ s) frames = suffix after at c s >>= λ more.
    parse_suffixes fuel more.after_attempt at more.rest (more.frame ∷ frames)

unfoldable pub is_id_char : ℕ → Bool
is_id_char c = is_letter c || is_digit c || c == b'_' || c == b'-' || c == b':'

-- The step's id.
unfoldable pub segment_id : ℕ → Text → Parsed Text
segment_id at [] = parse_error at PathFault.no_step_id
segment_id at (c ∷ id) = checked_id at PathFault.bad_step_id (step_id (c ∷ id))

-- Every suffix takes a character, so the length of the segment is enough fuel.
unfoldable pub parse_step_segment : Text → ℕ → List ParsedPathFrame → Parsed (List ParsedPathFrame)
parse_step_segment segment at frames =
    let (front, rest) = span is_id_char segment in
    segment_id at front >>= λ id.
    parse_suffixes (length rest) false at rest (ParsedPathFrame.step id ∷ frames)

-- A segment that is not the first.
unfoldable pub parse_segment : Text → ℕ → List ParsedPathFrame → Parsed (List ParsedPathFrame)
parse_segment segment at frames = elim (strip_prefix call_arrow segment) [
  | some rest ↦ parse_call_segment rest at frames
  | none ↦ elim (strip_prefix hook_mark segment) [
    | some rest ↦ parse_hook_segment rest at >>= λ frame. ok (frame ∷ frames)
    | none ↦ parse_step_segment segment at frames
  ]
]

-- The segments from the second one on; `at` is the offset of the first of them.
unfoldable pub parse_segments : List Text → ℕ → List ParsedPathFrame → Parsed (List ParsedPathFrame)
parse_segments [] at frames = ok frames
parse_segments (segment ∷ more) at frames =
    parse_segment segment at frames >>= λ read. parse_segments more (at + byte_len segment + 1) read

-- The frames in their order.
abbrev pub onto : List ParsedPathFrame → List ParsedPathFrame → List ParsedPathFrame
onto [] later = later
onto (frame ∷ frames) later = onto frames (frame ∷ later)

unfoldable pub parse_run_path : Text → Parsed (List ParsedPathFrame)
parse_run_path [] = parse_error 0 PathFault.empty_path
parse_run_path (c ∷ s) =
    let (root, others) = split b'/' (c ∷ s) in
    parse_root root 0 >>= λ first.
    parse_segments others (byte_len root + 1) (first ∷ []) >>= λ frames. ok (onto frames [])
