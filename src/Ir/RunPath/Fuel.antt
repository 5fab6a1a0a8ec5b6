-- ===== src/Ir/RunPath/Fuel.antt =====
-- run_path.rs, the loop over the suffixes of a step segment: it ends by itself.
use pointlock.Prelude.{
  ℕ, zero, suc, ◌+◌, ◌≤◌, ◌≡◌, ◌≢◌, refl, inl, inr, Bool, true, false, List, [], ◌∷◌, Option, none,
  some, Option-cases, Result, ok, err, ◌>>=◌, Text, all, length, byte_len, span, split, split_once,
  strip_prefix, lacks, is_digit, arith,
}
use pointlock.Ir.Ids.{IdFault, flow_id, step_id, assert_id}
use pointlock.Ir.RunPath.Frames.{ParsedPathFrame, call_arrow, hook_mark}
use pointlock.Ir.RunPath.Parse.{
  Parsed, PathFault, checked_id, parse_name_at_hash, parse_root, anchor_call, parse_call_segment,
  parse_hook_segment, attempt_number, attempt_suffix, phase_suffix, iteration_frame, iteration_body,
  iteration_suffix, assertion_suffix, suffix, parse_suffixes, is_id_char, segment_id,
  parse_step_segment, parse_segment, parse_segments, parse_run_path,
}
use pointlock.Ir.RunPath.Pieces.{Frames}
use pointlock.Ir.RunPath.Apart.{span-rest, split-lacks}
use pointlock.Ir.RunPath.Sound.{suffix-Behind}

-- The result is that the loop is out of rounds.
abbrev is_stuck {ℓ} : {A : Type ℓ} → Parsed A → Bool
is_stuck (ok value) = false
is_stuck (err failure) = elim failure.fault [ PathFault.stuck ↦ true | _ ↦ false ]

is_stuck-bind {ℓ} :
    {A B : Type ℓ} (r : Parsed A) (next : A → Parsed B)
    → is_stuck r ≡ false
    → ((value : A) → r ≡ ok value → is_stuck (next value) ≡ false)
    → is_stuck (r >>= next) ≡ false
is_stuck-bind (ok value) next h k = k value refl
is_stuck-bind (err failure) next h k = h

checked_id-runs :
    (at : ℕ) (why : IdFault → PathFault) (r : Result Text IdFault)
    → ((fault : IdFault)
        → is_stuck {A = Text} (err (record { offset = at; fault = why fault })) ≡ false)
    → is_stuck (checked_id at why r) ≡ false
checked_id-runs at why (ok id) h = refl
checked_id-runs at why (err fault) h = h fault

parse_name_at_hash-runs : (s : Text) (at : ℕ) → is_stuck (parse_name_at_hash s at) ≡ false
unfolding parse_name_at_hash
parse_name_at_hash-runs s at = elim (Option-cases (split_once b'@' s)) [
  | inl e ↦ ground (arith, e)
  | inr ((n, p), e) ↦ ground (arith, e)
]

anchor_call-runs :
    (at : ℕ) (f h : Text) (frames : Frames) → is_stuck (anchor_call at f h frames) ≡ false
unfolding anchor_call
anchor_call-runs at f h [] = refl
anchor_call-runs at f h (ParsedPathFrame.attempt n ∷ frames) =
    is_stuck-bind (anchor_call at f h frames) _ (anchor_call-runs at f h frames) (λ _ _. refl)
anchor_call-runs at f h (ParsedPathFrame.phase p ∷ frames) =
    is_stuck-bind (anchor_call at f h frames) _ (anchor_call-runs at f h frames) (λ _ _. refl)
anchor_call-runs at f h (_ ∷ frames) = refl

parse_hook_segment-runs : (s : Text) (at : ℕ) → is_stuck (parse_hook_segment s at) ≡ false
unfolding parse_hook_segment
parse_hook_segment-runs s at = ground arith

attempt_number-runs : (at : ℕ) (digits : Text) → is_stuck (attempt_number at digits) ≡ false
unfolding attempt_number
attempt_number-runs at [] = refl
attempt_number-runs at (c ∷ digits) = ground arith

attempt_suffix-runs : (at : ℕ) (s : Text) → is_stuck (attempt_suffix at s) ≡ false
unfolding attempt_suffix
attempt_suffix-runs at s =
    is_stuck-bind (attempt_number at (span is_digit s).0) _
      (attempt_number-runs at (span is_digit s).0) (λ _ _. refl)

phase_suffix-runs : (after : Bool) (at : ℕ) (s : Text) → is_stuck (phase_suffix after at s) ≡ false
unfolding phase_suffix
phase_suffix-runs false at s = refl
phase_suffix-runs true at s = ground arith

iteration_frame-runs :
    (at : ℕ) (index : Text) (key : Option Text) → is_stuck (iteration_frame at index key) ≡ false
unfolding iteration_frame
iteration_frame-runs at index none = ground arith
iteration_frame-runs at index (some []) = ground arith
iteration_frame-runs at index (some (c ∷ s)) = ground arith

iteration_body-runs : (at : ℕ) (body : Text) → is_stuck (iteration_body at body) ≡ false
unfolding iteration_body
iteration_body-runs at body = elim (Option-cases (split_once b':' body)) [
  | inl e ↦ ground (arith, e, iteration_frame-runs at body none)
  | inr ((index, key), e) ↦ ground (arith, e, iteration_frame-runs at index (some key))
]

iteration_suffix-runs : (at : ℕ) (s : Text) → is_stuck (iteration_suffix at s) ≡ false
unfolding iteration_suffix
iteration_suffix-runs at s = elim (Option-cases (split_once b']' s)) [
  | inl e ↦ ground (arith, e)
  | inr ((body, tail), e) ↦
      rw (e, iteration_suffix)
        (is_stuck-bind (iteration_body at body) _ (iteration_body-runs at body) (λ _ _. refl))
]

assertion_suffix-runs :
    (after : Bool) (at : ℕ) (s : Text) → is_stuck (assertion_suffix after at s) ≡ false
unfolding assertion_suffix
assertion_suffix-runs after at s =
    is_stuck-bind (checked_id at PathFault.bad_assert_id (assert_id s)) _
      (checked_id-runs at PathFault.bad_assert_id (assert_id s) (λ _. refl)) (λ _ _. refl)

suffix-runs : (after : Bool) (at c : ℕ) (s : Text) → is_stuck (suffix after at c s) ≡ false
unfolding suffix
suffix-runs after at c s = ground (
  arith,
  attempt_suffix-runs at s,
  phase_suffix-runs after at s,
  iteration_suffix-runs at s,
  assertion_suffix-runs after at s,
)

-- As many rounds as the text has characters are enough, since a suffix takes at least its mark.
pub parse_suffixes-runs :
    (fuel : ℕ) (after : Bool) (at : ℕ) (s : Text) (frames : Frames)
    → lacks b'/' s ≡ true
    → length s ≤ fuel
    → is_stuck (parse_suffixes fuel after at s frames) ≡ false
unfolding parse_suffixes
parse_suffixes-runs fuel after at [] frames h k = refl
parse_suffixes-runs zero after at (c ∷ s) frames h k = absurd (omega arith)
parse_suffixes-runs (suc fuel) after at (c ∷ s) frames h k =
    is_stuck-bind (suffix after at c s) _ (suffix-runs after at c s) λ more taken.
      let behind = suffix-Behind after at c s more (ground arith) taken in
      parse_suffixes-runs fuel more.after_attempt at more.rest (more.frame ∷ frames) behind.slash
        (omega (arith, behind.shorter))

segment_id-runs : (at : ℕ) (s : Text) → is_stuck (segment_id at s) ≡ false
unfolding segment_id
segment_id-runs at [] = refl
segment_id-runs at (c ∷ s) = checked_id-runs at PathFault.bad_step_id (step_id (c ∷ s)) (λ _. refl)

parse_call_segment-runs :
    (s : Text) (at : ℕ) (frames : Frames) → is_stuck (parse_call_segment s at frames) ≡ false
unfolding parse_call_segment
parse_call_segment-runs s at frames =
    is_stuck-bind (parse_name_at_hash s at) _ (parse_name_at_hash-runs s at) λ (name, prefix) _.
      is_stuck-bind (checked_id at PathFault.bad_callee_id (flow_id name)) _
        (checked_id-runs at PathFault.bad_callee_id (flow_id name) (λ _. refl))
        (λ callee _. anchor_call-runs at callee prefix frames)

parse_step_segment-runs :
    (s : Text) (at : ℕ) (frames : Frames)
    → lacks b'/' s ≡ true
    → is_stuck (parse_step_segment s at frames) ≡ false
unfolding parse_step_segment
parse_step_segment-runs s at frames h =
    is_stuck-bind (segment_id at (span is_id_char s).0) _ (segment_id-runs at (span is_id_char s).0)
      λ id _.
        parse_suffixes-runs (length (span is_id_char s).1) false at (span is_id_char s).1
          (ParsedPathFrame.step id ∷ frames) (span-rest is_id_char b'/' s h).0 (omega arith)

parse_segment-runs :
    (s : Text) (at : ℕ) (frames : Frames)
    → lacks b'/' s ≡ true
    → is_stuck (parse_segment s at frames) ≡ false
unfolding parse_segment
parse_segment-runs s at frames h = elim (Option-cases (strip_prefix call_arrow s)) [
  | inr (rest, e) ↦ ground (arith, e, parse_call_segment-runs rest at frames)
  | inl e ↦ elim (Option-cases (strip_prefix hook_mark s)) [
    | inr (rest, f) ↦
        rw (e, f, parse_segment)
          (is_stuck-bind (parse_hook_segment rest at) _ (parse_hook_segment-runs rest at)
            (λ _ _. refl))
    | inl f ↦ ground (arith, e, f, parse_step_segment-runs s at frames h)
  ]
]

parse_segments-runs :
    (segments : List Text) (at : ℕ) (frames : Frames)
    → all (lacks b'/') segments ≡ true
    → is_stuck (parse_segments segments at frames) ≡ false
unfolding parse_segments
parse_segments-runs [] at frames h = refl
parse_segments-runs (s ∷ more) at frames h =
    is_stuck-bind (parse_segment s at frames) _ (parse_segment-runs s at frames (ground arith))
      (λ read _. parse_segments-runs more (at + byte_len s + 1) read (ground arith))

parse_root-runs : (s : Text) → is_stuck (parse_root s 0) ≡ false
unfolding parse_root
parse_root-runs s =
    is_stuck-bind (parse_name_at_hash s 0) _ (parse_name_at_hash-runs s 0) λ (name, prefix) _.
      is_stuck-bind (checked_id 0 PathFault.bad_flow_id (flow_id name)) _
        (checked_id-runs 0 PathFault.bad_flow_id (flow_id name) (λ _. refl)) (λ _ _. refl)

parse_run_path-is_stuck : (text : Text) → is_stuck (parse_run_path text) ≡ false
unfolding parse_run_path
parse_run_path-is_stuck [] = refl
parse_run_path-is_stuck (c ∷ s) =
    let (root, others) = split b'/' (c ∷ s) in
    is_stuck-bind (parse_root root 0) _ (parse_root-runs root) λ first _.
      is_stuck-bind (parse_segments others (byte_len root + 1) (first ∷ [])) _
        (parse_segments-runs others (byte_len root + 1) (first ∷ []) (split-lacks b'/' (c ∷ s)).1)
        (λ _ _. refl)

-- The parser's loop over the suffixes of a segment always ends within as many rounds as the rest of the
-- segment has characters: no text makes the parser run out of them.
pub parse_run_path-ne-stuck :
    (text : Text) (at : ℕ)
    → parse_run_path text ≢ err (record { offset = at; fault = PathFault.stuck })
parse_run_path-ne-stuck text at h = ground (arith, h, parse_run_path-is_stuck text)
