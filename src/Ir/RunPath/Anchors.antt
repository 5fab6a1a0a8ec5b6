-- ===== src/Ir/RunPath/Anchors.antt =====
-- run_path.rs: the call that an accepted arrow makes, placed among the frames.
use pointlock.Prelude.{
  ℕ, ◌≡◌, ◌≢◌, ◌⊎◌, refl, sym, ap, ◌∙◌, subst, inl, inr, Bool, true, false, [], ◌∷◌, Option, none,
  some, Option-cases, ok, >>=-eq-ok, ok-injective, Text, ltb, u64_end, arith,
}
use pointlock.Ir.Vocab.{HandlerHook, Phase}
use pointlock.Ir.RunPath.Frames.{ParsedPathFrame}
use pointlock.Ir.RunPath.Parse.{anchor_call}
use pointlock.Ir.RunPath.Canonical.{Site, names_flow, names_step, new_segment, advance}
use pointlock.Ir.RunPath.Pieces.{Frames}
use pointlock.Ir.RunPath.Sound.{guard-true}
use pointlock.Ir.RunPath.Accepted.{site_of, site_of-cons, advance-opens}
use pointlock.Ir.RunPath.Openings.{guard-some}

-- Where a call finds its place: among the suffixes of a step, or behind a hook.
abbrev pub Anchored : Site → Frames → Type 0
Anchored site anchored =
    ((after : Bool) × (site ≡ Site.suffixed after) × (site_of anchored ≡ some (Site.calling after)))
    ⊎ ((site ≡ Site.hooked) × (site_of anchored ≡ some Site.opened))

pub site_of-uncons :
    (frame : ParsedPathFrame) (frames : Frames) (next : Site)
    → site_of (frame ∷ frames) ≡ some next
    → (site : Site) × (site_of frames ≡ some site) × (advance site frame ≡ some next)
unfolding site_of
site_of-uncons frame frames next h = elim (Option-cases (site_of frames)) [
  | inl e ↦ absurd (ground (arith, e))
  | inr (site, e) ↦ (site, e, ground (arith, e))
]

-- One more attempt or phase behind the place of a call.
Anchored-suffix :
    (frame : ParsedPathFrame) (after : Bool) (before site : Site) (anchored : Frames)
    → ((b : Bool)
        → advance (Site.suffixed b) frame ≡ some site
        → (site ≡ Site.suffixed after)
          × (advance (Site.calling b) frame ≡ some (Site.calling after)))
    → advance Site.hooked frame ≡ none
    → advance before frame ≡ some site
    → Anchored before anchored
    → Anchored site (frame ∷ anchored)
Anchored-suffix frame after before site anchored step hooked moved (inl (b, same, leads)) =
    let (now, called) = step b (subst (λ s. advance s frame ≡ some site) same moved) in
    inl (after, now, site_of-cons frame anchored (Site.calling b) (Site.calling after) leads called)
Anchored-suffix frame after before site anchored step hooked moved (inr (same, leads)) =
    absurd (clash (sym hooked ∙ subst (λ s. advance s frame ≡ some site) same moved))
  where
    clash : ◌≡◌ {A = Option Site} none (some site) → ⊥
    clash e = cc

attempt-called :
    (n : ℕ) (b : Bool) (site : Site)
    → advance (Site.suffixed b) (ParsedPathFrame.attempt n) ≡ some site
    → (site ≡ Site.suffixed true)
      × (advance (Site.calling b) (ParsedPathFrame.attempt n) ≡ some (Site.calling true))
unfolding advance
attempt-called n b site h =
    let (valid, same) = guard-some (ltb n u64_end) (Site.suffixed true) site h in
    (sym same, guard-true (ltb n u64_end) (Site.calling true) valid)

phase-called :
    (p : Phase) (b : Bool) (site : Site)
    → advance (Site.suffixed b) (ParsedPathFrame.phase p) ≡ some site
    → (site ≡ Site.suffixed false)
      × (advance (Site.calling b) (ParsedPathFrame.phase p) ≡ some (Site.calling false))
unfolding advance
phase-called p b site h =
    let (valid, same) = guard-some b (Site.suffixed false) site h in
    (sym same, guard-true b (Site.calling false) valid)

-- Behind a frame that opens a segment there was a root.
advance-step :
    (site next : Site) (id : Text)
    → advance site (ParsedPathFrame.step id) ≡ some next
    → (site ≢ Site.start) × (names_step id ≡ true) × (Site.suffixed false ≡ next)
unfolding advance new_segment
advance-step Site.start next id h = absurd cc
advance-step _ next id h =
    let (named, same) = guard-some (names_step id) (Site.suffixed false) next h in
    ((λ e. cc), named, same)

advance-hook :
    (site next : Site) (k : HandlerHook) (n : ℕ)
    → advance site (ParsedPathFrame.hook k n) ≡ some next
    → Site.hooked ≡ next
unfolding advance new_segment
advance-hook Site.start next k n h = absurd cc
advance-hook _ next k n h = (guard-some (ltb n u64_end) Site.hooked next h).1

call-opens :
    (id f h : Text)
    → names_step id ≡ true
    → names_flow f h ≡ true
    → new_segment (ParsedPathFrame.call (some id) f h) ≡ some (Site.calling false)
unfolding new_segment
call-opens id f h k m = rw (k, m) refl

call-hooked :
    (f h : Text)
    → names_flow f h ≡ true
    → advance Site.hooked (ParsedPathFrame.call none f h) ≡ some Site.opened
unfolding advance
call-hooked f h m = guard-true (names_flow f h) Site.opened m

attempt-hooked : (n : ℕ) → advance Site.hooked (ParsedPathFrame.attempt n) ≡ none
unfolding advance new_segment
attempt-hooked n = refl

phase-hooked : (p : Phase) → advance Site.hooked (ParsedPathFrame.phase p) ≡ none
unfolding advance new_segment
phase-hooked p = refl

pub anchor_call-Anchored :
    (at : ℕ) (f h : Text) (frames anchored : Frames) (site : Site)
    → names_flow f h ≡ true
    → site_of frames ≡ some site
    → anchor_call at f h frames ≡ ok anchored
    → Anchored site anchored
unfolding anchor_call
anchor_call-Anchored at f h [] anchored site valid leads q = absurd cc
anchor_call-Anchored at f h (ParsedPathFrame.attempt n ∷ frames) anchored site valid leads q =
    let (before, led, moved) = site_of-uncons (ParsedPathFrame.attempt n) frames site leads in
    let (placed, anchor, made) = >>=-eq-ok (anchor_call at f h frames) _ q in
    subst (Anchored site) (ok-injective made) (
      Anchored-suffix (ParsedPathFrame.attempt n) true before site placed
        (λ b. attempt-called n b site) (attempt-hooked n) moved
        (anchor_call-Anchored at f h frames placed before valid led anchor))
anchor_call-Anchored at f h (ParsedPathFrame.phase p ∷ frames) anchored site valid leads q =
    let (before, led, moved) = site_of-uncons (ParsedPathFrame.phase p) frames site leads in
    let (placed, anchor, made) = >>=-eq-ok (anchor_call at f h frames) _ q in
    subst (Anchored site) (ok-injective made) (
      Anchored-suffix (ParsedPathFrame.phase p) false before site placed
        (λ b. phase-called p b site) (phase-hooked p) moved
        (anchor_call-Anchored at f h frames placed before valid led anchor))
anchor_call-Anchored at f h (ParsedPathFrame.step id ∷ frames) anchored site valid leads q =
    let (before, led, moved) = site_of-uncons (ParsedPathFrame.step id) frames site leads in
    let (begun, named, same) = advance-step before site id moved in
    inl (
      false,
      sym same,
      subst (λ l. site_of l ≡ some (Site.calling false)) (ok-injective q)
          (site_of-cons (ParsedPathFrame.call (some id) f h) frames before (Site.calling false) led
            (advance-opens before (ParsedPathFrame.call (some id) f h) (Site.calling false) begun
              (call-opens id f h named valid))),
    )
anchor_call-Anchored at f h (ParsedPathFrame.hook k n ∷ frames) anchored site valid leads q =
    let (before, led, moved) = site_of-uncons (ParsedPathFrame.hook k n) frames site leads in
    let same = advance-hook before site k n moved in
    inr (
      sym same,
      subst (λ l. site_of l ≡ some Site.opened) (ok-injective q)
          (site_of-cons (ParsedPathFrame.call none f h) (ParsedPathFrame.hook k n ∷ frames)
            Site.hooked Site.opened (leads ∙ ap some (sym same)) (call-hooked f h valid)),
    )
anchor_call-Anchored at f h (_ ∷ frames) anchored site valid leads q = absurd cc
