-- ===== src/Ir/RunPath/Pieces.antt =====
-- run_path.rs: each kind of segment, read back from the text of its frames.
use pointlock.Prelude.{
  inl, inr, Option-cases, is_digit, is_letter, is_lower, ℕ, ◌<◌, ◌≡◌, refl, true, false, ◌&&◌, List,
  [], ◌∷◌, ◌++◌, none, ok, Text, ◌==◌, all, length, byte_len, span-append, split_once-append, lacks,
  strip_prefix, and-eq_true, decimal, parse_u64-decimal, u64_end, arith,
}
use pointlock.Ir.Vocab.{HandlerHook}
use pointlock.Ir.Ids.{is_flow_continue, flow_id, step_id}
use pointlock.Ir.RunPath.Frames.{ParsedPathFrame, call_arrow, hook_mark, hook_wire_name}
use pointlock.Ir.RunPath.Parse.{
  anchor_call, is_hash_char, is_id_char, parse_call_segment, parse_hook_segment, parse_name_at_hash,
  parse_segment, parse_step_segment, parse_suffixes, segment_id,
}
use pointlock.Ir.RunPath.Canonical.{is_ok, names_flow, names_step}
use pointlock.Ir.RunPath.Names.{
  lacks-all, flow_id-ok, flow_id-chars, step_id-ok, step_id-chars, is_hash_char-marks,
  hook_wire_name-reads, strip_prefix-misses, strip_prefix-append, lacks-append, is_prefix_char,
}
use pointlock.Ir.RunPath.Suffixes.{clear, clear-is_id_char, clear-is_prefix_char}

abbrev pub Frames : Type 0
Frames = List ParsedPathFrame

pub names_step-id : (id : Text) → names_step id ≡ true → is_ok (step_id id) ≡ true
unfolding names_step
names_step-id id h = ground arith

names_step-hook : (id : Text) → names_step id ≡ true → strip_prefix hook_mark id ≡ none
unfolding names_step
names_step-hook id h = elim (Option-cases (strip_prefix hook_mark id)) [
  | inl q ↦ q
  | inr (r, q) ↦ absurd (ground (arith, q))
]

segment_id-ok : (id : Text) (at : ℕ) → is_ok (step_id id) ≡ true → segment_id at id ≡ ok id
unfolding segment_id
segment_id-ok [] at h = absurd (unfold step_id in cc)
segment_id-ok (c ∷ id) at h = rw (step_id-ok (c ∷ id) h) refl

call_arrow-chars :
    (all is_id_char call_arrow ≡ false)
    × (all is_prefix_char call_arrow ≡ true)
    × (all is_prefix_char hook_mark ≡ true)
unfolding is_id_char is_prefix_char is_digit is_letter is_lower
call_arrow-chars = (refl, refl, refl)

-- The id of a step in front of its suffixes is neither a call nor a hook.
pub parse_segment-step :
    (id piece : Text) (at : ℕ) (frames : Frames)
    → names_step id ≡ true
    → clear false piece ≡ true
    → parse_segment (id ++ piece) at frames
      ≡ parse_suffixes (length piece) false at piece (ParsedPathFrame.step id ∷ frames)
unfolding parse_segment parse_step_segment
parse_segment-step id piece at frames h k =
    let valid = names_step-id id h in
    let chars = step_id-chars id valid in
    let (arrow_id, arrow_chars, hook_chars) = call_arrow-chars in
    let ends = clear-is_prefix_char piece k in
    let apart = span-append is_id_char id piece chars (clear-is_id_char piece k) in
    rw
      (
        strip_prefix-append is_prefix_char call_arrow id piece arrow_chars ends
            (strip_prefix-misses is_id_char call_arrow id chars arrow_id),
        strip_prefix-append is_prefix_char hook_mark id piece hook_chars ends
            (names_step-hook id h),
        parse_segment,
      )
      (rw (apart, parse_step_segment) (rw (segment_id-ok id at valid) refl))

pub parse_hook_segment-ok :
    (h : HandlerHook) (n at : ℕ)
    → n < u64_end
    → parse_hook_segment (hook_wire_name h ++ b':' ∷ decimal n) at ≡ ok (ParsedPathFrame.hook h n)
unfolding parse_hook_segment
parse_hook_segment-ok h n at k =
    let (known, colon, _) = hook_wire_name-reads h in
    rw
      (
        split_once-append b':' (hook_wire_name h) (decimal n) colon,
        known,
        parse_u64-decimal n k,
        parse_hook_segment,
      )
      refl

pub names_flow-id : (f h : Text) → names_flow f h ≡ true → is_ok (flow_id f) ≡ true
unfolding names_flow
names_flow-id f h k = ground arith

names_flow-hash :
    (f h : Text) → names_flow f h ≡ true → (byte_len h == 8 && all is_hash_char h) ≡ true
unfolding names_flow
names_flow-hash f h k = ground arith

-- The name of a flow and its hash prefix are in one segment, and come apart at their sign.
pub names_flow-slash : (f h : Text) → names_flow f h ≡ true → lacks b'/' (f ++ b'@' ∷ h) ≡ true
names_flow-slash f h k =
    let (hash, _, flow, _, _, _, _) = is_hash_char-marks in
    lacks-append b'/' f (b'@' ∷ h)
      (lacks-all is_flow_continue b'/' f flow (flow_id-chars f (names_flow-id f h k)))
      (lacks-all is_hash_char b'/' h hash (and-eq_true _ _ (names_flow-hash f h k)).1)

pub parse_name_at_hash-ok :
    (f h : Text) (at : ℕ)
    → names_flow f h ≡ true
    → parse_name_at_hash (f ++ b'@' ∷ h) at ≡ ok (f, h)
unfolding parse_name_at_hash
parse_name_at_hash-ok f h at k =
    let (_, _, _, sign, _, _, _) = is_hash_char-marks in
    rw
      (
        split_once-append b'@' f h
            (lacks-all is_flow_continue b'@' f sign (flow_id-chars f (names_flow-id f h k))),
        names_flow-hash f h k,
        parse_name_at_hash,
      )
      refl

pub parse_call_segment-ok :
    (f h : Text) (at : ℕ) (frames anchored : Frames)
    → names_flow f h ≡ true
    → anchor_call at f h frames ≡ ok anchored
    → parse_call_segment (f ++ b'@' ∷ h) at frames ≡ ok anchored
unfolding parse_call_segment
parse_call_segment-ok f h at frames anchored k place =
    rw (parse_name_at_hash-ok f h at k, flow_id-ok f (names_flow-id f h k), parse_call_segment)
      place
