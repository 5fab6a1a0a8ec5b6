-- ===== src/Ir/RunPath/Openings.antt =====
-- run_path.rs: what the rendering of a path that fits begins with.
use mathlib.Core.List.{append-nil}
use pointlock.Prelude.{
  ◌≡◌, refl, sym, ap, subst, ◌∙◌, Bool, true, false, [], ◌∷◌, ◌++◌, Option, none, some, Text, split,
  arith,
}
use pointlock.Ir.RunPath.Frames.{ParsedPathFrame}
use pointlock.Ir.RunPath.Canonical.{Site, names_flow, new_segment, advance, guard, fits, fits-cons}
use pointlock.Ir.RunPath.Shown.{arrow, frame_text, held, flushed, shown}
use pointlock.Ir.RunPath.Pieces.{Frames}
use pointlock.Ir.RunPath.Segments.{head}
use pointlock.Ir.RunPath.Suffixes.{clear}

pub guard-some :
    (test : Bool) (site next : Site) → guard test site ≡ some next → (test ≡ true) × (site ≡ next)
guard-some true site next h = (refl, ground arith)
guard-some false site next h = absurd cc

-- A step that its guard lets through.
pub fits-guard :
    (site : Site) (frame : ParsedPathFrame) (path : Frames) (test : Bool) (next : Site)
    → advance site frame ≡ guard test next
    → fits site (frame ∷ path) ≡ true
    → (test ≡ true) × (fits next path ≡ true)
fits-guard site frame path test next e h =
    let (other, moved, fit) = fits-cons site frame path h in
    let (held, same) = guard-some test next other (sym e ∙ moved) in
    (held, subst (λ s. fits s path ≡ true) (sym same) fit)

-- Where only a segment may follow, the segment at hand has ended.
pub opens-head :
    (frame : ParsedPathFrame) (next : Site) (t : Text)
    → new_segment frame ≡ some next
    → head (frame_text frame ++ t) ≡ []
unfolding new_segment split
opens-head (ParsedPathFrame.step id) next t h = refl
opens-head (ParsedPathFrame.call (some id) f g) next t h = refl
opens-head (ParsedPathFrame.hook k n) next t h = refl
opens-head _ next t h = absurd cc

pub shown-opens :
    (pending : Option Text) (frame : ParsedPathFrame) (path : Frames) (next : Site)
    → new_segment frame ≡ some next
    → shown pending (frame ∷ path)
      ≡ flushed pending ++ (frame_text frame ++ shown (held frame) path)
unfolding new_segment shown
shown-opens pending (ParsedPathFrame.attempt n) path next h = absurd cc
shown-opens pending (ParsedPathFrame.phase p) path next h = absurd cc
shown-opens pending frame path next h = refl

pub advance-opened :
    (frame : ParsedPathFrame) (next : Site)
    → advance Site.opened frame ≡ some next
    → new_segment frame ≡ some next
unfolding advance
advance-opened (ParsedPathFrame.flow f g) next h = h
advance-opened frame next h = h

-- The arrow that is held back goes out before a segment.
pub shown-flushes :
    (segment : Text) (path : Frames)
    → fits Site.opened path ≡ true
    → shown (some segment) path ≡ b'/' ∷ (segment ++ shown none path)
unfolding shown
shown-flushes segment [] h = ap (λ t. b'/' ∷ t) (sym (append-nil segment))
shown-flushes segment (frame ∷ path) h =
    let (next, moved, _) = fits-cons Site.opened frame path h in
    let opening = advance-opened frame next moved in
    rw
      (shown-opens (some segment) frame path next opening, shown-opens none frame path next opening)
      refl

pub opening-head :
    (frame : ParsedPathFrame) (path : Frames) (next : Site)
    → new_segment frame ≡ some next
    → head (shown none (frame ∷ path)) ≡ []
opening-head frame path next h =
    ap head (shown-opens none frame path next h) ∙ opens-head frame next (shown (held frame) path) h

pub flushed-head :
    (segment : Text) (frame : ParsedPathFrame) (path : Frames) (next : Site)
    → new_segment frame ≡ some next
    → head (shown (some segment) (frame ∷ path)) ≡ []
unfolding split
flushed-head segment frame path next h = ap head (shown-opens (some segment) frame path next h)

pub opened-head : (path : Frames) → fits Site.opened path ≡ true → head (shown none path) ≡ []
unfolding shown split
opened-head [] h = refl
opened-head (frame ∷ path) h =
    let (next, moved, _) = fits-cons Site.opened frame path h in
    opening-head frame path next (advance-opened frame next moved)

pub hooked-head : (path : Frames) → fits Site.hooked path ≡ true → head (shown none path) ≡ []
unfolding advance shown split
hooked-head [] h = refl
hooked-head (ParsedPathFrame.call none f g ∷ path) h =
    let (_, fit) =
      fits-guard Site.hooked (ParsedPathFrame.call none f g) path (names_flow f g) Site.opened refl
        h in
    ap head (shown-flushes (arrow f g) path fit)
hooked-head (frame ∷ path) h =
    let (next, moved, _) = fits-cons Site.hooked frame path h in opening-head frame path next moved

pub suffixed-clear :
    (after : Bool) (path : Frames)
    → fits (Site.suffixed after) path ≡ true
    → clear after (head (shown none path)) ≡ true
unfolding advance shown split clear
suffixed-clear after [] h = refl
suffixed-clear after (ParsedPathFrame.attempt n ∷ path) h = refl
suffixed-clear after (ParsedPathFrame.phase p ∷ path) h =
    let (held, _) =
      fits-guard (Site.suffixed after) (ParsedPathFrame.phase p) path after (Site.suffixed false)
        refl h in
    rw held refl
suffixed-clear after (ParsedPathFrame.iteration i none ∷ path) h = refl
suffixed-clear after (ParsedPathFrame.iteration i (some key) ∷ path) h = refl
suffixed-clear after (ParsedPathFrame.assertion id ∷ path) h = refl
suffixed-clear after (frame ∷ path) h =
    let (next, moved, _) = fits-cons (Site.suffixed after) frame path h in
    ap (clear after) (opening-head frame path next moved)

pub calling-clear :
    (after : Bool) (segment : Text) (path : Frames)
    → fits (Site.calling after) path ≡ true
    → clear after (head (shown (some segment) path)) ≡ true
unfolding advance shown split clear
calling-clear after segment [] h = refl
calling-clear after segment (ParsedPathFrame.attempt n ∷ path) h = refl
calling-clear after segment (ParsedPathFrame.phase p ∷ path) h =
    let (held, _) =
      fits-guard (Site.calling after) (ParsedPathFrame.phase p) path after (Site.calling false) refl
        h in
    rw held refl
calling-clear after segment (frame ∷ path) h =
    let (next, moved, _) = fits-cons (Site.calling after) frame path h in
    ap (clear after) (flushed-head segment frame path next moved)
