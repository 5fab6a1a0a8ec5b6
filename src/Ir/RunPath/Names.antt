-- ===== src/Ir/RunPath/Names.antt =====
-- The characters of the names that a path holds.
use pointlock.Prelude.{
  ℕ, ◌≡◌, refl, Bool, true, false, ◌||◌, List, [], ◌∷◌, ◌++◌, none, some, ok, Text, ◌==◌, all,
  split, strip_prefix, lacks, stops, is_digit, is_letter, is_lower, decimal, decimal-digits, arith,
}
use pointlock.Ir.Vocab.{HandlerHook, Phase}
use pointlock.Ir.Ids.{
  is_ident_start, is_ident_continue, is_step_segment_continue, is_step_segment, is_flow_continue,
  flow_id, step_id, assert_id,
}
use pointlock.Ir.RunPath.Frames.{hook_wire_name, phase_wire_name}
use pointlock.Ir.RunPath.Parse.{is_hash_char, is_id_char, parse_hook_name, parse_phase_name}
use pointlock.Ir.RunPath.Canonical.{is_ok}

-- Characters of a class that a mark is not in.
pub lacks-all :
    (p : ℕ → Bool) (mark : ℕ) (s : Text) → p mark ≡ false → all p s ≡ true → lacks mark s ≡ true
lacks-all p mark [] h k = refl
lacks-all p mark (c ∷ s) h k = ground (arith, lacks-all p mark s)

-- One class within another.
pub all-weaken :
    (p q : ℕ → Bool) (s : Text)
    → ((c : ℕ) → p c ≡ true → q c ≡ true)
    → all p s ≡ true
    → all q s ≡ true
all-weaken p q [] h k = refl
all-weaken p q (c ∷ s) h k = ground (arith, h c, all-weaken p q s h)

pub lacks-append :
    (mark : ℕ) (a b : Text) → lacks mark a ≡ true → lacks mark b ≡ true → lacks mark (a ++ b) ≡ true
lacks-append mark [] b h k = k
lacks-append mark (x ∷ a) b h k = ground (arith, lacks-append mark a b)

pub decimal-lacks : (n mark : ℕ) → is_digit mark ≡ false → lacks mark (decimal n) ≡ true
decimal-lacks n mark h = lacks-all is_digit mark (decimal n) h (decimal-digits n)

-- A flow's id comes back from its check, and its characters are these.
pub flow_id-ok : (s : Text) → is_ok (flow_id s) ≡ true → flow_id s ≡ ok s
unfolding flow_id
flow_id-ok [] h = absurd cc
flow_id-ok (c ∷ s) h = ground arith

is_flow_continue-start : (c : ℕ) → is_ident_start c ≡ true → is_flow_continue c ≡ true
unfolding is_ident_start is_flow_continue is_ident_continue
is_flow_continue-start c h = ground arith

pub flow_id-chars : (s : Text) → is_ok (flow_id s) ≡ true → all is_flow_continue s ≡ true
unfolding flow_id
flow_id-chars [] h = refl
flow_id-chars (c ∷ s) h = ground (arith, is_flow_continue-start c)

pub assert_id-ok : (s : Text) → is_ok (assert_id s) ≡ true → assert_id s ≡ ok s
unfolding assert_id
assert_id-ok s h = ground arith

is_id_char-start : (c : ℕ) → is_ident_start c ≡ true → is_id_char c ≡ true
unfolding is_ident_start is_id_char
is_id_char-start c h = ground arith

is_id_char-continue : (c : ℕ) → is_step_segment_continue c ≡ true → is_id_char c ≡ true
unfolding is_step_segment_continue is_ident_continue is_id_char
is_id_char-continue c h = ground arith

is_id_char-segment : (s : Text) → is_step_segment s ≡ true → all is_id_char s ≡ true
unfolding is_step_segment
is_id_char-segment [] h = refl
is_id_char-segment (c ∷ s) h = ground (
  arith,
  is_id_char-start c,
  all-weaken is_step_segment_continue is_id_char s is_id_char-continue,
)

pub assert_id-chars : (s : Text) → is_ok (assert_id s) ≡ true → all is_id_char s ≡ true
unfolding assert_id
assert_id-chars s h = ground (arith, is_id_char-segment s)

pub step_id-ok : (s : Text) → is_ok (step_id s) ≡ true → step_id s ≡ ok s
unfolding step_id
step_id-ok [] h = absurd cc
step_id-ok (c ∷ s) h = ground arith

-- A text whose pieces have the characters of the class, the mark among them.
all-split :
    (p : ℕ → Bool) (mark : ℕ) (s : Text)
    → p mark ≡ true
    → all p (split mark s).0 ≡ true
    → all (all p) (split mark s).1 ≡ true
    → all p s ≡ true
unfolding split
all-split p mark [] m h k = refl
all-split p mark (c ∷ s) m h k = ground (arith, all-split p mark s m)

all-segments : (l : List Text) → all is_step_segment l ≡ true → all (all is_id_char) l ≡ true
all-segments [] h = refl
all-segments (s ∷ l) h = ground (arith, is_id_char-segment s, all-segments l)

is_id_char-colon : is_id_char b':' ≡ true
unfolding is_id_char is_letter is_digit is_lower
is_id_char-colon = refl

pub step_id-chars : (s : Text) → is_ok (step_id s) ≡ true → all is_id_char s ≡ true
unfolding step_id
step_id-chars [] h = refl
step_id-chars (c ∷ s) h = ground (
  arith,
  is_id_char-segment (split b':' (c ∷ s)).0,
  all-segments (split b':' (c ∷ s)).1,
  all-split is_id_char b':' (c ∷ s) is_id_char-colon,
)

-- No mark of the grammar is in a hash prefix, nor in the names of hooks and phases.
pub is_hash_char-marks :
    (is_hash_char b'/' ≡ false)
    × (is_id_char b'/' ≡ false)
    × (is_flow_continue b'/' ≡ false)
    × (is_flow_continue b'@' ≡ false)
    × (is_digit b'/' ≡ false)
    × (is_digit b':' ≡ false)
    × (is_digit b']' ≡ false)
unfolding is_hash_char is_id_char is_flow_continue is_ident_continue is_letter is_lower is_digit
is_hash_char-marks = (refl, refl, refl, refl, refl, refl, refl)

pub hook_wire_name-reads :
    (h : HandlerHook)
    → (parse_hook_name (hook_wire_name h) ≡ some h)
      × (lacks b':' (hook_wire_name h) ≡ true)
      × (lacks b'/' (hook_wire_name h) ≡ true)
unfolding hook_wire_name parse_hook_name
hook_wire_name-reads HandlerHook.on_fail = (refl, refl, refl)
hook_wire_name-reads HandlerHook.on_unknown = (refl, refl, refl)
hook_wire_name-reads HandlerHook.on_error = (refl, refl, refl)
hook_wire_name-reads HandlerHook.on_resume_drift = (refl, refl, refl)

pub phase_wire_name-reads :
    (p : Phase)
    → (parse_phase_name (phase_wire_name p) ≡ some p)
      × (all is_lower (phase_wire_name p) ≡ true)
      × (lacks b'/' (phase_wire_name p) ≡ true)
unfolding phase_wire_name parse_phase_name is_lower
phase_wire_name-reads Phase.preflight = (refl, refl, refl)
phase_wire_name-reads Phase.act = (refl, refl, refl)
phase_wire_name-reads Phase.observe = (refl, refl, refl)
phase_wire_name-reads Phase.assert = (refl, refl, refl)

-- A prefix with a character that the text cannot have is not there.
pub strip_prefix-misses :
    (p : ℕ → Bool) (front s : Text)
    → all p s ≡ true
    → all p front ≡ false
    → strip_prefix front s ≡ none
unfolding strip_prefix
strip_prefix-misses p [] s h k = absurd cc
strip_prefix-misses p (x ∷ front) [] h k = refl
strip_prefix-misses p (x ∷ front) (c ∷ s) h k = ground (arith, strip_prefix-misses p front s)

-- Nor is it there if it would have to end among the characters that a follower cannot begin with.
pub strip_prefix-append :
    (p : ℕ → Bool) (front a t : Text)
    → all p front ≡ true
    → stops p t ≡ true
    → strip_prefix front a ≡ none
    → strip_prefix front (a ++ t) ≡ none
unfolding strip_prefix
strip_prefix-append p [] a t h k m = absurd cc
strip_prefix-append p (x ∷ front) [] [] h k m = refl
strip_prefix-append p (x ∷ front) [] (c ∷ t) h k m = ground arith
strip_prefix-append p (x ∷ front) (c ∷ a) t h k m = ground (arith, strip_prefix-append p front a t)

-- The characters of the two prefixes.
unfoldable pub is_prefix_char : ℕ → Bool
is_prefix_char c = is_id_char c || c == 0x2192
