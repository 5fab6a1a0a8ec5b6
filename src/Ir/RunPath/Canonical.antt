-- ===== src/Ir/RunPath/Canonical.antt =====
-- run_path.rs, the rendering rules and the grammar caveats of its comment: which sequences of frames a
-- text can hold.
use pointlock.Prelude.{
  ◌≡◌, inl, inr, Option-cases, arith, Bool, true, false, not, ◌&&◌, List, [], ◌∷◌, Option, none,
  some, is_some, Result, ok, err, Text, ◌==◌, if◌then◌else◌, all, ltb, byte_len, strip_prefix,
  lacks, u64_end,
}
use pointlock.Ir.Ids.{IdFault, flow_id, step_id, assert_id}
use pointlock.Ir.RunPath.Frames.{ParsedPathFrame, hook_mark}
use pointlock.Ir.RunPath.Parse.{is_hash_char}

-- Where a path stands: before its root, where only a segment may follow, behind a hook, among the
-- suffixes of a step or of the step of a call. The flag says that an attempt is the last suffix.
pub data Site : Type 0 where
  start opened hooked : Site
  suffixed calling : Bool → Site

abbrev pub is_ok : Result Text IdFault → Bool
is_ok (ok id) = true
is_ok (err fault) = false

-- A flow's id and the prefix of its hash.
unfoldable pub names_flow : Text → Text → Bool
names_flow id prefix = is_ok (flow_id id) && (byte_len prefix == 8 && all is_hash_char prefix)

-- A step's id that is not taken for a hook.
unfoldable pub names_step : Text → Bool
names_step id = is_ok (step_id id) && not (is_some (strip_prefix hook_mark id))

unfoldable pub is_key : Option Text → Bool
is_key none = true
is_key (some []) = false
is_key (some (c ∷ s)) = lacks b'/' (c ∷ s) && lacks b']' (c ∷ s)

abbrev pub guard : Bool → Site → Option Site
guard test site = if test then some site else none

-- A frame that opens a segment.
unfoldable pub new_segment : ParsedPathFrame → Option Site
new_segment (ParsedPathFrame.step id) = guard (names_step id) (Site.suffixed false)
new_segment (ParsedPathFrame.call (some id) f h) =
    guard (names_step id && names_flow f h) (Site.calling false)
new_segment (ParsedPathFrame.hook h n) = guard (ltb n u64_end) Site.hooked
new_segment _ = none

unfoldable pub advance : Site → ParsedPathFrame → Option Site
advance Site.start (ParsedPathFrame.flow f h) = guard (names_flow f h) Site.opened
advance Site.start _ = none
advance Site.hooked (ParsedPathFrame.call none f h) = guard (names_flow f h) Site.opened
advance (Site.suffixed after) (ParsedPathFrame.iteration i key) =
    guard (ltb i u64_end && is_key key) (Site.suffixed false)
advance (Site.suffixed after) (ParsedPathFrame.attempt n) =
    guard (ltb n u64_end) (Site.suffixed true)
advance (Site.suffixed after) (ParsedPathFrame.phase p) = guard after (Site.suffixed false)
advance (Site.suffixed after) (ParsedPathFrame.assertion id) =
    guard (is_ok (assert_id id)) Site.opened
advance (Site.calling after) (ParsedPathFrame.attempt n) = guard (ltb n u64_end) (Site.calling true)
advance (Site.calling after) (ParsedPathFrame.phase p) = guard after (Site.calling false)
advance _ frame = new_segment frame

-- The frames can follow one another from a site on.
unfoldable pub fits : Site → List ParsedPathFrame → Bool
fits Site.start [] = false
fits _ [] = true
fits site (frame ∷ path) = elim (advance site frame) [ none ↦ false | some next ↦ fits next path ]

-- The path begins with a flow and keeps to the grammar of the text.
unfoldable pub is_canonical : List ParsedPathFrame → Bool
is_canonical = fits Site.start

pub fits-cons :
    (site : Site) (frame : ParsedPathFrame) (path : List ParsedPathFrame)
    → fits site (frame ∷ path) ≡ true
    → (next : Site) × (advance site frame ≡ some next) × (fits next path ≡ true)
unfolding fits
fits-cons site frame path h = elim (Option-cases (advance site frame)) [
  | inl q ↦ absurd (ground (arith, q))
  | inr (next, q) ↦ (next, q, ground (arith, q))
]
