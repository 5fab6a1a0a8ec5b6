-- ===== src/Ir/RunPath/Suffixes.antt =====
-- run_path.rs: each suffix of a step segment, read back in front of whatever may follow it.
use mathlib.Core.List.{append_assoc, append-nil}
use pointlock.Prelude.{
  ℕ, ◌<◌, ◌≡◌, ◌≢◌, refl, sym, ap, ◌∙◌, Bool, true, false, ◌&&◌, ◌||◌, [], ◌∷◌, ◌++◌, Option, none,
  some, ok, Text, ◌==◌, span-append, split_once-append, split_once-lacks, lacks, stops, is_digit,
  is_lower, is_letter, decimal, decimal-digits, decimal-ne-nil, parse_u64, parse_u64-decimal,
  u64_end, arith,
}
use pointlock.Ir.Vocab.{Phase}
use pointlock.Ir.Ids.{assert_id}
use pointlock.Ir.RunPath.Frames.{ParsedPathFrame, phase_wire_name}
use pointlock.Ir.RunPath.Parse.{
  attempt_number, attempt_suffix, phase_suffix, iteration_frame, iteration_body, iteration_suffix,
  assertion_suffix, suffix, is_id_char,
}
use pointlock.Ir.RunPath.Canonical.{is_ok, is_key}
use pointlock.Ir.RunPath.Shown.{frame_text}
use pointlock.Ir.RunPath.Names.{
  lacks-append, decimal-lacks, assert_id-ok, is_hash_char-marks, phase_wire_name-reads,
  is_prefix_char,
}

-- A segment goes on with a suffix or ends; a phase is one only behind an attempt.
unfoldable pub clear : Bool → Text → Bool
clear after [] = true
clear after (c ∷ s) = c == b'#' || c == b'[' || c == b'!' || (after && c == b':')

clear-is_digit : (after : Bool) (t : Text) → clear after t ≡ true → stops is_digit t ≡ true
unfolding clear is_digit
clear-is_digit after [] h = refl
clear-is_digit after (c ∷ t) h = ground arith

clear-is_lower : (after : Bool) (t : Text) → clear after t ≡ true → stops is_lower t ≡ true
unfolding clear is_lower
clear-is_lower after [] h = refl
clear-is_lower after (c ∷ t) h = ground arith

pub clear-is_id_char : (t : Text) → clear false t ≡ true → stops is_id_char t ≡ true
unfolding clear is_id_char is_digit is_lower is_letter
clear-is_id_char [] h = refl
clear-is_id_char (c ∷ t) h = ground arith

pub clear-is_prefix_char : (t : Text) → clear false t ≡ true → stops is_prefix_char t ≡ true
unfolding clear is_prefix_char is_id_char is_digit is_lower is_letter
clear-is_prefix_char [] h = refl
clear-is_prefix_char (c ∷ t) h = ground arith

-- The suffix with this text, whose first character is the mark, is read and leaves what follows.
abbrev pub Reads : Bool → ParsedPathFrame → Bool → Text → Text → Type 0
Reads before frame after [] t = ⊥
Reads before frame after (mark ∷ s) t =
    (at : ℕ)
    → suffix before at mark (s ++ t)
      ≡ ok (record { frame = frame; rest = t; after_attempt = after })

attempt_number-decimal :
    (at n : ℕ) (s : Text) → s ≢ [] → parse_u64 s ≡ some n → attempt_number at s ≡ ok n
unfolding attempt_number
attempt_number-decimal at n [] h k = absurd (h refl)
attempt_number-decimal at n (c ∷ s) h k = rw (k, attempt_number) refl

pub attempt-Reads :
    (before : Bool) (n : ℕ) (t : Text)
    → n < u64_end
    → clear true t ≡ true
    → Reads before (ParsedPathFrame.attempt n) true (frame_text (ParsedPathFrame.attempt n)) t
unfolding suffix attempt_suffix
attempt-Reads before n t h k at =
    rw
      (
        span-append is_digit (decimal n) t (decimal-digits n) (clear-is_digit true t k),
        attempt_number-decimal at n (decimal n) (decimal-ne-nil n) (parse_u64-decimal n h),
      )
      refl

pub phase-Reads :
    (p : Phase) (t : Text)
    → clear false t ≡ true
    → Reads true (ParsedPathFrame.phase p) false (frame_text (ParsedPathFrame.phase p)) t
unfolding suffix phase_suffix
phase-Reads p t k at =
    let (known, lower, _) = phase_wire_name-reads p in
    let apart = span-append is_lower (phase_wire_name p) t lower (clear-is_lower false t k) in
    rw (apart, known, phase_suffix) (rw apart refl)

iteration_suffix-body :
    (at : ℕ) (body t : Text) (frame : ParsedPathFrame)
    → lacks b']' body ≡ true
    → iteration_body at body ≡ ok frame
    → iteration_suffix at (body ++ b']' ∷ t)
      ≡ ok (record { frame = frame; rest = t; after_attempt = false })
unfolding iteration_suffix
iteration_suffix-body at body t frame h k =
    rw (split_once-append b']' body t h, k, iteration_suffix) refl

iteration_body-key :
    (at i : ℕ) (key : Text)
    → i < u64_end
    → is_key (some key) ≡ true
    → iteration_body at (decimal i ++ b':' ∷ key) ≡ ok (ParsedPathFrame.iteration i (some key))
unfolding iteration_body iteration_frame is_key
iteration_body-key at i [] h k = absurd cc
iteration_body-key at i (c ∷ key) h k =
    let (_, _, _, _, _, colon, _) = is_hash_char-marks in
    rw
      (
        split_once-append b':' (decimal i) (c ∷ key) (decimal-lacks i b':' colon),
        parse_u64-decimal i h,
        iteration_body,
        iteration_frame,
      )
      refl

iteration_body-index :
    (at i : ℕ) → i < u64_end → iteration_body at (decimal i) ≡ ok (ParsedPathFrame.iteration i none)
unfolding iteration_body iteration_frame
iteration_body-index at i h =
    let (_, _, _, _, _, colon, _) = is_hash_char-marks in
    rw
      (
        split_once-lacks b':' (decimal i) (decimal-lacks i b':' colon),
        parse_u64-decimal i h,
        iteration_body,
        iteration_frame,
      )
      refl

is_key-bracket : (key : Text) → is_key (some key) ≡ true → lacks b']' key ≡ true
unfolding is_key
is_key-bracket [] k = absurd cc
is_key-bracket (c ∷ key) k = ground arith

pub is_key-slash : (key : Text) → is_key (some key) ≡ true → lacks b'/' key ≡ true
unfolding is_key
is_key-slash [] k = absurd cc
is_key-slash (c ∷ key) k = ground arith

pub iteration-Reads :
    (before : Bool) (i : ℕ) (key : Option Text) (t : Text)
    → i < u64_end
    → is_key key ≡ true
    → Reads before
        (ParsedPathFrame.iteration i key)
        false
        (frame_text (ParsedPathFrame.iteration i key))
        t
unfolding suffix
iteration-Reads before i none t h k = λ at.
    let (_, _, _, _, _, _, bracket) = is_hash_char-marks in
    ap (iteration_suffix at) (append_assoc (decimal i) (b']' ∷ []) t)
    ∙ iteration_suffix-body at (decimal i) t (ParsedPathFrame.iteration i none)
        (decimal-lacks i b']' bracket) (iteration_body-index at i h)
iteration-Reads before i (some key) t h k = λ at.
    let (_, _, _, _, _, _, bracket) = is_hash_char-marks in
    let body = decimal i ++ b':' ∷ key in
    ap (iteration_suffix at) (
      ap (λ s. s ++ t) (sym (append_assoc (decimal i) (b':' ∷ key) (b']' ∷ [])))
      ∙ append_assoc body (b']' ∷ []) t)
    ∙ iteration_suffix-body at body t (ParsedPathFrame.iteration i (some key))
        (lacks-append b']' (decimal i) (b':' ∷ key) (decimal-lacks i b']' bracket)
          (is_key-bracket key k))
        (iteration_body-key at i key h k)

pub assertion-Reads :
    (before : Bool) (id : Text)
    → is_ok (assert_id id) ≡ true
    → Reads before
        (ParsedPathFrame.assertion id)
        before
        (frame_text (ParsedPathFrame.assertion id))
        []
unfolding suffix assertion_suffix
assertion-Reads before id h at = rw (append-nil id, assert_id-ok id h) refl
