-- ===== src/Ir/RunPath/Sites.antt =====
-- run_path.rs: the parse over a whole rendering, from every site.
use pointlock.Prelude.{
  ◌≡◌, refl, sym, subst, Bool, true, false, ◌&&◌, [], ◌∷◌, none, some, ltb, split, u64_end,
}
use pointlock.Ir.Ids.{assert_id}
use pointlock.Ir.RunPath.Frames.{ParsedPathFrame}
use pointlock.Ir.RunPath.Parse.{anchor_call, onto}
use pointlock.Ir.RunPath.Canonical.{Site, is_ok, names_flow, is_key, advance, fits, fits-cons}
use pointlock.Ir.RunPath.Shown.{arrow, shown}
use pointlock.Ir.RunPath.Pieces.{Frames}
use pointlock.Ir.RunPath.Segments.{Resumes, Resumes-arrow}
use pointlock.Ir.RunPath.Joins.{
  Rejoins, Below, opening-Rejoins, Resumes-nil, attempt-Resumes, phase-Resumes, iteration-Resumes,
  assertion-Resumes, arrow-Resumes,
}
use pointlock.Ir.RunPath.Openings.{
  fits-guard, shown-flushes, advance-opened, opened-head, suffixed-clear, calling-clear,
}

-- Behind a place where only a segment may follow.
opened-Rejoins :
    (frame : ParsedPathFrame) (path : Frames)
    → Below path
    → fits Site.opened (frame ∷ path) ≡ true
    → Rejoins Site.opened (frame ∷ path)
opened-Rejoins frame path ih fit = λ after frames.
    let (next, moved, later) = fits-cons Site.opened frame path fit in
    opening-Rejoins frame path ih next (advance-opened frame next moved) later after frames

-- Behind a hook.
hooked-Rejoins :
    (frame : ParsedPathFrame) (path : Frames)
    → Below path
    → fits Site.hooked (frame ∷ path) ≡ true
    → Rejoins Site.hooked (frame ∷ path)
unfolding advance shown anchor_call
hooked-Rejoins (ParsedPathFrame.call none f g) path ih fit = λ after h n frames.
    let frame = ParsedPathFrame.call none f g in
    let (valid, later) = fits-guard Site.hooked frame path (names_flow f g) Site.opened refl fit in
    let anchored = frame ∷ ParsedPathFrame.hook h n ∷ frames in
    subst (λ u. Resumes after (ParsedPathFrame.hook h n ∷ frames) u (onto path anchored))
      (sym (shown-flushes (arrow f g) path later))
      (Resumes-arrow after f g (shown none path) (ParsedPathFrame.hook h n ∷ frames) anchored
        (onto path anchored) valid (λ at. refl) (opened-head path later)
        (ih Site.opened later false anchored))
hooked-Rejoins frame path ih fit = λ after h n frames.
    let (next, moved, later) = fits-cons Site.hooked frame path fit in
    opening-Rejoins frame path ih next moved later after (ParsedPathFrame.hook h n ∷ frames)

-- Among the suffixes of a step.
suffixed-Rejoins :
    (after : Bool) (frame : ParsedPathFrame) (path : Frames)
    → Below path
    → fits (Site.suffixed after) (frame ∷ path) ≡ true
    → Rejoins (Site.suffixed after) (frame ∷ path)
unfolding advance shown anchor_call
suffixed-Rejoins after (ParsedPathFrame.attempt n) path ih fit = λ frames.
    let frame = ParsedPathFrame.attempt n in
    let (small, later) =
      fits-guard (Site.suffixed after) frame path (ltb n u64_end) (Site.suffixed true) refl fit in
    attempt-Resumes after n (shown none path) frames (onto (frame ∷ path) frames) small
      (suffixed-clear true path later) (ih (Site.suffixed true) later (frame ∷ frames))
suffixed-Rejoins after (ParsedPathFrame.phase p) path ih fit = λ frames.
    let frame = ParsedPathFrame.phase p in
    let (behind, later) =
      fits-guard (Site.suffixed after) frame path after (Site.suffixed false) refl fit in
    subst (λ b. Resumes b frames (shown none (frame ∷ path)) (onto (frame ∷ path) frames))
      (sym behind)
      (phase-Resumes p (shown none path) frames (onto (frame ∷ path) frames)
        (suffixed-clear false path later) (ih (Site.suffixed false) later (frame ∷ frames)))
suffixed-Rejoins after (ParsedPathFrame.iteration i key) path ih fit = λ frames.
    let frame = ParsedPathFrame.iteration i key in
    let (valid, later) =
      fits-guard (Site.suffixed after) frame path (ltb i u64_end && is_key key)
        (Site.suffixed false) refl fit in
    iteration-Resumes after i key (shown none path) frames (onto (frame ∷ path) frames) valid
      (ih (Site.suffixed false) later (frame ∷ frames))
suffixed-Rejoins after (ParsedPathFrame.assertion id) path ih fit = λ frames.
    let frame = ParsedPathFrame.assertion id in
    let (valid, later) =
      fits-guard (Site.suffixed after) frame path (is_ok (assert_id id)) Site.opened refl fit in
    assertion-Resumes after id (shown none path) frames (onto (frame ∷ path) frames) valid
      (opened-head path later) (ih Site.opened later after (frame ∷ frames))
suffixed-Rejoins after frame path ih fit = λ frames.
    let (next, moved, later) = fits-cons (Site.suffixed after) frame path fit in
    opening-Rejoins frame path ih next moved later after frames

-- Among the suffixes of the step of a call.
calling-Rejoins :
    (after : Bool) (frame : ParsedPathFrame) (path : Frames)
    → Below path
    → fits (Site.calling after) (frame ∷ path) ≡ true
    → Rejoins (Site.calling after) (frame ∷ path)
unfolding advance shown anchor_call
calling-Rejoins after (ParsedPathFrame.attempt n) path ih fit = λ f h frames anchored valid place.
    let frame = ParsedPathFrame.attempt n in
    let (small, later) =
      fits-guard (Site.calling after) frame path (ltb n u64_end) (Site.calling true) refl fit in
    attempt-Resumes after n (shown (some (arrow f h)) path) frames (onto (frame ∷ path) anchored)
      small (calling-clear true (arrow f h) path later)
      (ih (Site.calling true) later f h (frame ∷ frames) (frame ∷ anchored) valid
        (λ at. rw (place at) refl))
calling-Rejoins after (ParsedPathFrame.phase p) path ih fit = λ f h frames anchored valid place.
    let frame = ParsedPathFrame.phase p in
    let (behind, later) =
      fits-guard (Site.calling after) frame path after (Site.calling false) refl fit in
    subst
      (λ b.
        Resumes b frames (shown (some (arrow f h)) (frame ∷ path)) (onto (frame ∷ path) anchored))
      (sym behind)
      (phase-Resumes p (shown (some (arrow f h)) path) frames (onto (frame ∷ path) anchored)
        (calling-clear false (arrow f h) path later)
        (ih (Site.calling false) later f h (frame ∷ frames) (frame ∷ anchored) valid
          (λ at. rw (place at) refl)))
calling-Rejoins after frame path ih fit = λ f h frames anchored valid place.
    let (next, moved, later) = fits-cons (Site.calling after) frame path fit in
    arrow-Resumes after f h frame path frames anchored next moved valid place
      (opening-Rejoins frame path ih next moved later false anchored)

-- From every site.
pub fits-Rejoins : (site : Site) (path : Frames) → fits site path ≡ true → Rejoins site path
unfolding shown fits split
fits-Rejoins Site.start path fit = tt
fits-Rejoins Site.opened [] fit = λ after frames. Resumes-nil after frames
fits-Rejoins Site.opened (frame ∷ path) fit =
    opened-Rejoins frame path (λ s f. fits-Rejoins s path f) fit
fits-Rejoins Site.hooked [] fit =
    λ after h n frames. Resumes-nil after (ParsedPathFrame.hook h n ∷ frames)
fits-Rejoins Site.hooked (frame ∷ path) fit =
    hooked-Rejoins frame path (λ s f. fits-Rejoins s path f) fit
fits-Rejoins (Site.suffixed after) [] fit = λ frames. Resumes-nil after frames
fits-Rejoins (Site.suffixed after) (frame ∷ path) fit =
    suffixed-Rejoins after frame path (λ s f. fits-Rejoins s path f) fit
fits-Rejoins (Site.calling after) [] fit = λ f h frames anchored valid place.
    subst (λ u. Resumes after frames u anchored) (sym (shown-flushes (arrow f h) [] refl))
      (Resumes-arrow after f h [] frames anchored anchored valid place refl
        (Resumes-nil false anchored))
fits-Rejoins (Site.calling after) (frame ∷ path) fit =
    calling-Rejoins after frame path (λ s f. fits-Rejoins s path f) fit
