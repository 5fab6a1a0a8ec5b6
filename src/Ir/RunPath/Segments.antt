-- ===== src/Ir/RunPath/Segments.antt =====
-- run_path.rs: a parse that stands inside a segment, and what carries it over a suffix and into the next
-- segment.
use mathlib.Core.List.{append-nil}
use pointlock.Prelude.{
  ℕ, zero, suc, ◌+◌, ◌<◌, ◌≤◌, ◌≡◌, sym, subst, Bool, true, false, List, [], ◌∷◌, ◌++◌, ok, ◌>>=◌,
  Text, length, byte_len, split, split-append, lacks, strip_prefix, decimal, u64_end, arith,
}
use pointlock.Ir.Vocab.{HandlerHook}
use pointlock.Ir.RunPath.Frames.{ParsedPathFrame, hook_mark, hook_wire_name}
use pointlock.Ir.RunPath.Parse.{
  anchor_call, is_id_char, parse_segment, parse_segments, parse_suffixes,
}
use pointlock.Ir.RunPath.Canonical.{names_flow, names_step}
use pointlock.Ir.RunPath.Shown.{arrow, frame_text}
use pointlock.Ir.RunPath.Names.{
  lacks-all, step_id-chars, is_hash_char-marks, hook_wire_name-reads, lacks-append, decimal-lacks,
}
use pointlock.Ir.RunPath.Pieces.{
  Frames, names_step-id, parse_segment-step, parse_hook_segment-ok, parse_call_segment-ok,
  names_flow-slash,
}
use pointlock.Ir.RunPath.Suffixes.{clear, Reads}

abbrev pub head : Text → Text
head t = (split b'/' t).0

abbrev pub others : Text → List Text
others t = (split b'/' t).1

-- With these frames read, the rest of a step segment and the segments behind it parse to `result`.
abbrev Continues : Bool → Frames → Text × List Text → Frames → Type 0
Continues after frames (piece, more) result =
    (fuel at next : ℕ)
    → length piece ≤ fuel
    → parse_suffixes fuel after at piece frames >>= (λ read. parse_segments more next read)
      ≡ ok result

-- The same of a text that begins inside a step segment.
abbrev pub Resumes : Bool → Frames → Text → Frames → Type 0
Resumes after frames t result = Continues after frames (split b'/' t) result

length-behind : (a b : Text) → length b ≤ length (a ++ b)
length-behind [] b = omega arith
length-behind (c ∷ a) b = omega (arith, length-behind a b)

-- Over one suffix.
Continues-suffix :
    (before after : Bool) (frame : ParsedPathFrame) (c : ℕ) (s piece : Text) (more : List Text)
    (frames result : Frames)
    → Reads before frame after (c ∷ s) piece
    → Continues after (frame ∷ frames) (piece, more) result
    → Continues before frames ((c ∷ s) ++ piece, more) result
unfolding parse_suffixes
Continues-suffix before after frame c s piece more frames result read later zero at next k =
    absurd (omega arith)
Continues-suffix before after frame c s piece more frames result read later (suc fuel) at next k =
    rw (read at) (later fuel at next (omega (arith, length-behind s piece)))

pub Resumes-suffix :
    (before after : Bool) (frame : ParsedPathFrame) (c : ℕ) (s t : Text) (frames result : Frames)
    → lacks b'/' (c ∷ s) ≡ true
    → Reads before frame after (c ∷ s) (head t)
    → Resumes after (frame ∷ frames) t result
    → Resumes before frames ((c ∷ s) ++ t) result
Resumes-suffix before after frame c s t frames result h read later =
    subst (λ pieces. Continues before frames pieces result) (sym (split-append b'/' (c ∷ s) t h))
      (Continues-suffix before after frame c s (head t) (others t) frames result read later)

-- Over a slash.
pub Resumes-slash :
    (after : Bool) (t : Text) (frames result : Frames)
    → ((at next : ℕ)
        → parse_segment (head t) at frames >>= (λ read. parse_segments (others t) next read)
          ≡ ok result)
    → Resumes after frames (b'/' ∷ t) result
unfolding parse_suffixes parse_segments split
Resumes-slash after t frames result later fuel at next k = later next (next + byte_len (head t) + 1)

-- Where a segment ends, the flag and the fuel are nothing to the rest.
pub Resumes-ends :
    (after : Bool) (t : Text) (frames result : Frames)
    → head t ≡ []
    → Resumes after frames t result
    → (next : ℕ) → parse_segments (others t) next frames ≡ ok result
unfolding parse_suffixes
Resumes-ends after t frames result h later next = rw h at (later 0 0 next (rw h (omega arith)))

-- Over a slash and the rest of a segment.
Resumes-segment :
    (after : Bool) (a t : Text) (frames result : Frames)
    → lacks b'/' a ≡ true
    → ((at next : ℕ)
        → parse_segment (a ++ head t) at frames >>= (λ read. parse_segments (others t) next read)
          ≡ ok result)
    → Resumes after frames (b'/' ∷ (a ++ t)) result
Resumes-segment after a t frames result h later =
    Resumes-slash after (a ++ t) frames result (subst Later (sym (split-append b'/' a t h)) later)
  where
    Later : Text × List Text → Type 0
    Later pieces =
        (at next : ℕ)
        → parse_segment pieces.0 at frames >>= (λ read. parse_segments pieces.1 next read)
          ≡ ok result

-- Over a slash and the id of a step.
pub Resumes-step :
    (after : Bool) (id t : Text) (frames result : Frames)
    → names_step id ≡ true
    → clear false (head t) ≡ true
    → Resumes false (ParsedPathFrame.step id ∷ frames) t result
    → Resumes after frames (b'/' ∷ (id ++ t)) result
Resumes-step after id t frames result h k later =
    let (_, slash, _, _, _, _, _) = is_hash_char-marks in
    Resumes-segment after id t frames result
      (lacks-all is_id_char b'/' id slash (step_id-chars id (names_step-id id h)))
      λ at next.
        rw (parse_segment-step id (head t) at frames h k)
          (later (length (head t)) at next (omega arith))

-- Over a slash and a hook.
pub Resumes-hook :
    (after : Bool) (h : HandlerHook) (n : ℕ) (t : Text) (frames result : Frames)
    → n < u64_end
    → head t ≡ []
    → Resumes false (ParsedPathFrame.hook h n ∷ frames) t result
    → Resumes after frames (frame_text (ParsedPathFrame.hook h n) ++ t) result
unfolding parse_segment strip_prefix
Resumes-hook after h n t frames result k ends later =
    let (_, _, slash) = hook_wire_name-reads h in
    let (_, _, _, _, digit, _, _) = is_hash_char-marks in
    Resumes-segment after (hook_mark ++ (hook_wire_name h ++ b':' ∷ decimal n)) t frames result
      (lacks-append b'/' (hook_wire_name h) (b':' ∷ decimal n) slash (decimal-lacks n b'/' digit))
      λ at next.
        rw (ends, append-nil (hook_wire_name h ++ b':' ∷ decimal n), parse_hook_segment-ok h n at k)
          (Resumes-ends false t (ParsedPathFrame.hook h n ∷ frames) result ends later next)

-- Over a slash and an arrow, where the call finds its place.
pub Resumes-arrow :
    (after : Bool) (f h t : Text) (frames anchored result : Frames)
    → names_flow f h ≡ true
    → ((at : ℕ) → anchor_call at f h frames ≡ ok anchored)
    → head t ≡ []
    → Resumes false anchored t result
    → Resumes after frames (b'/' ∷ (arrow f h ++ t)) result
unfolding parse_segment strip_prefix
Resumes-arrow after f h t frames anchored result k place ends later =
    Resumes-segment after (arrow f h) t frames result (names_flow-slash f h k) λ at next.
      rw
        (
          ends,
          append-nil (f ++ b'@' ∷ h),
          parse_call_segment-ok f h at frames anchored k (place at),
        )
        (Resumes-ends false t anchored result ends later next)
