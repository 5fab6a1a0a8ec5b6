-- ===== src/Ir/Ids.antt =====
-- crates/pointlock-ir/src/primitives.rs: the identifiers whose grammars the constructors check, over
-- texts as code points.
use pointlock.Prelude.{
  ℕ, Bool, false, ◌&&◌, ◌||◌, [], ◌∷◌, Text, Result, ok, err, ltb, ◌==◌, if◌then◌else◌, all,
  is_letter, is_digit, byte_len, split,
}

-- Why a constructor refuses a text.
pub data IdFault : Type 0 where
  too_long empty bad_start bad_char bad_segment : IdFault

unfoldable pub is_ident_start : ℕ → Bool
is_ident_start c = is_letter c || c == b'_'

unfoldable pub is_ident_continue : ℕ → Bool
is_ident_continue c = is_letter c || is_digit c || c == b'_'

unfoldable pub is_step_segment_continue : ℕ → Bool
is_step_segment_continue c = is_ident_continue c || c == b'-'

unfoldable pub is_step_segment : Text → Bool
is_step_segment [] = false
is_step_segment (c ∷ s) = is_ident_start c && all is_step_segment_continue s

unfoldable pub is_flow_continue : ℕ → Bool
is_flow_continue c = is_ident_continue c || c == b'.' || c == b'-'

-- `FlowId::new`.
unfoldable pub flow_id : Text → Result Text IdFault
flow_id [] = err IdFault.bad_start
flow_id (c ∷ s) =
    if ltb 256 (byte_len (c ∷ s))
    then err IdFault.too_long
    else if is_ident_start c
    then (if all is_flow_continue s then ok (c ∷ s) else err IdFault.bad_char)
    else err IdFault.bad_start

-- `StepId::new`.
unfoldable pub step_id : Text → Result Text IdFault
step_id [] = err IdFault.empty
step_id (c ∷ s) =
    let (piece, others) = split b':' (c ∷ s) in
    if ltb 256 (byte_len (c ∷ s))
    then err IdFault.too_long
    else if is_step_segment piece && all is_step_segment others
    then ok (c ∷ s)
    else err IdFault.bad_segment

-- `AssertId::new`.
unfoldable pub assert_id : Text → Result Text IdFault
assert_id s =
    if ltb 128 (byte_len s)
    then err IdFault.too_long
    else if is_step_segment s
    then ok s
    else err IdFault.bad_segment
