-- ===== src/Ir/RunPath/Joins.antt =====
-- run_path.rs: the parse over one frame of a rendering.
use pointlock.Prelude.{
  ℕ, ◌≡◌, refl, sym, subst, Bool, true, false, ◌&&◌, [], ◌∷◌, ◌++◌, Option, none, some, ok, Text,
  ltb, ltb→lt, split, decimal, u64_end, and-eq_true,
}
use pointlock.Ir.Vocab.{HandlerHook, Phase}
use pointlock.Ir.Ids.{assert_id}
use pointlock.Ir.RunPath.Frames.{ParsedPathFrame, phase_wire_name}
use pointlock.Ir.RunPath.Parse.{anchor_call, is_id_char, parse_suffixes, parse_segments, onto}
use pointlock.Ir.RunPath.Canonical.{Site, is_ok, names_flow, names_step, is_key, new_segment, fits}
use pointlock.Ir.RunPath.Shown.{arrow, frame_text, held, shown}
use pointlock.Ir.RunPath.Pieces.{Frames}
use pointlock.Ir.RunPath.Names.{
  lacks-append, lacks-all, assert_id-chars, decimal-lacks, is_hash_char-marks,
  phase_wire_name-reads,
}
use pointlock.Ir.RunPath.Segments.{
  Resumes, Resumes-suffix, Resumes-step, Resumes-hook, Resumes-arrow, head,
}
use pointlock.Ir.RunPath.Openings.{
  opens-head, guard-some, shown-opens, hooked-head, suffixed-clear, calling-clear,
}
use pointlock.Ir.RunPath.Suffixes.{
  clear, Reads, attempt-Reads, phase-Reads, iteration-Reads, assertion-Reads, is_key-slash,
}

-- From each site the rendering of a path that fits is read back.
abbrev pub Rejoins : Site → Frames → Type 0
Rejoins Site.start path = Unit
Rejoins Site.opened path =
    (after : Bool) (frames : Frames) → Resumes after frames (shown none path) (onto path frames)
Rejoins Site.hooked path =
    (after : Bool) (h : HandlerHook) (n : ℕ) (frames : Frames)
    → Resumes after (ParsedPathFrame.hook h n ∷ frames) (shown none path)
        (onto path (ParsedPathFrame.hook h n ∷ frames))
Rejoins (Site.suffixed after) path =
    (frames : Frames) → Resumes after frames (shown none path) (onto path frames)
Rejoins (Site.calling after) path =
    (f h : Text) (frames anchored : Frames)
    → names_flow f h ≡ true
    → ((at : ℕ) → anchor_call at f h frames ≡ ok anchored)
    → Resumes after frames (shown (some (arrow f h)) path) (onto path anchored)

-- What the recursion knows of a path.
abbrev pub Below : Frames → Type 0
Below path = (next : Site) → fits next path ≡ true → Rejoins next path

-- The segment that a frame opens.
opens-Rejoins :
    (frame : ParsedPathFrame) (path : Frames)
    → Below path
    → (next : Site) → new_segment frame ≡ some next
    → fits next path ≡ true
    → (after : Bool) (frames : Frames)
    → Resumes after frames
        (frame_text frame ++ shown (held frame) path)
        (onto (frame ∷ path) frames)
unfolding new_segment anchor_call
opens-Rejoins (ParsedPathFrame.step id) path ih next moved fit after frames =
    let (valid, same) = guard-some (names_step id) (Site.suffixed false) next moved in
    let fit' : fits (Site.suffixed false) path ≡ true =
      subst (λ s. fits s path ≡ true) (sym same) fit in
    Resumes-step after id (shown none path) frames (onto path (ParsedPathFrame.step id ∷ frames))
      valid (suffixed-clear false path fit')
      (ih (Site.suffixed false) fit' (ParsedPathFrame.step id ∷ frames))
opens-Rejoins (ParsedPathFrame.call (some id) f g) path ih next moved fit after frames =
    let (valid, same) =
      guard-some (names_step id && names_flow f g) (Site.calling false) next moved in
    let (step_valid, flow_valid) = and-eq_true (names_step id) (names_flow f g) valid in
    let fit' : fits (Site.calling false) path ≡ true =
      subst (λ s. fits s path ≡ true) (sym same) fit in
    let called = ParsedPathFrame.call (some id) f g ∷ frames in
    Resumes-step after id (shown (some (arrow f g)) path) frames (onto path called) step_valid
      (calling-clear false (arrow f g) path fit')
      (ih (Site.calling false) fit' f g (ParsedPathFrame.step id ∷ frames) called flow_valid
        (λ at. refl))
opens-Rejoins (ParsedPathFrame.hook h n) path ih next moved fit after frames =
    let (valid, same) = guard-some (ltb n u64_end) Site.hooked next moved in
    let fit' : fits Site.hooked path ≡ true = subst (λ s. fits s path ≡ true) (sym same) fit in
    Resumes-hook after h n (shown none path) frames (onto path (ParsedPathFrame.hook h n ∷ frames))
      (ltb→lt n u64_end valid) (hooked-head path fit') (ih Site.hooked fit' false h n frames)
opens-Rejoins _ path ih next moved fit after frames = absurd cc

pub opening-Rejoins :
    (frame : ParsedPathFrame) (path : Frames)
    → Below path
    → (next : Site) → new_segment frame ≡ some next
    → fits next path ≡ true
    → (after : Bool) (frames : Frames)
    → Resumes after frames (shown none (frame ∷ path)) (onto (frame ∷ path) frames)
opening-Rejoins frame path ih next moved fit after frames =
    subst (λ t. Resumes after frames t (onto (frame ∷ path) frames))
      (sym (shown-opens none frame path next moved))
      (opens-Rejoins frame path ih next moved fit after frames)

pub Resumes-nil : (after : Bool) (frames : Frames) → Resumes after frames [] frames
unfolding parse_suffixes parse_segments split
Resumes-nil after frames fuel at next k = refl

pub attempt-Resumes :
    (before : Bool) (n : ℕ) (t : Text) (frames result : Frames)
    → ltb n u64_end ≡ true
    → clear true (head t) ≡ true
    → Resumes true (ParsedPathFrame.attempt n ∷ frames) t result
    → Resumes before frames (b'#' ∷ (decimal n ++ t)) result
attempt-Resumes before n t frames result h k =
    let (_, _, _, _, slash, _, _) = is_hash_char-marks in
    Resumes-suffix before true (ParsedPathFrame.attempt n) b'#' (decimal n) t frames result
      (decimal-lacks n b'/' slash) (attempt-Reads before n (head t) (ltb→lt n u64_end h) k)

pub phase-Resumes :
    (p : Phase) (t : Text) (frames result : Frames)
    → clear false (head t) ≡ true
    → Resumes false (ParsedPathFrame.phase p ∷ frames) t result
    → Resumes true frames (b':' ∷ (phase_wire_name p ++ t)) result
phase-Resumes p t frames result k =
    let (_, _, slash) = phase_wire_name-reads p in
    Resumes-suffix true false (ParsedPathFrame.phase p) b':' (phase_wire_name p) t frames result
      slash (phase-Reads p (head t) k)

pub iteration-Resumes :
    (before : Bool) (i : ℕ) (key : Option Text) (t : Text) (frames result : Frames)
    → (ltb i u64_end && is_key key) ≡ true
    → Resumes false (ParsedPathFrame.iteration i key ∷ frames) t result
    → Resumes before frames (frame_text (ParsedPathFrame.iteration i key) ++ t) result
iteration-Resumes before i none t frames result h =
    let (_, _, _, _, slash, _, _) = is_hash_char-marks in
    let (small, valid) = and-eq_true (ltb i u64_end) (is_key none) h in
    Resumes-suffix before false (ParsedPathFrame.iteration i none) b'[' _ t frames result
      (lacks-append b'/' (decimal i) (b']' ∷ []) (decimal-lacks i b'/' slash) refl)
      (iteration-Reads before i none (head t) (ltb→lt i u64_end small) valid)
iteration-Resumes before i (some key) t frames result h =
    let (_, _, _, _, slash, _, _) = is_hash_char-marks in
    let (small, valid) = and-eq_true (ltb i u64_end) (is_key (some key)) h in
    Resumes-suffix before false (ParsedPathFrame.iteration i (some key)) b'[' _ t frames result
      (lacks-append b'/' (decimal i) (b':' ∷ (key ++ b']' ∷ [])) (decimal-lacks i b'/' slash)
        (lacks-append b'/' key (b']' ∷ []) (is_key-slash key valid) refl))
      (iteration-Reads before i (some key) (head t) (ltb→lt i u64_end small) valid)

pub assertion-Resumes :
    (before : Bool) (id t : Text) (frames result : Frames)
    → is_ok (assert_id id) ≡ true
    → head t ≡ []
    → Resumes before (ParsedPathFrame.assertion id ∷ frames) t result
    → Resumes before frames (b'!' ∷ (id ++ t)) result
assertion-Resumes before id t frames result h ends =
    let (_, slash, _, _, _, _, _) = is_hash_char-marks in
    Resumes-suffix before before (ParsedPathFrame.assertion id) b'!' id t frames result
      (lacks-all is_id_char b'/' id slash (assert_id-chars id h))
      (subst (Reads before (ParsedPathFrame.assertion id) before (b'!' ∷ id)) (sym ends)
        (assertion-Reads before id h))

-- A held-back arrow in front of what follows a call.
pub arrow-Resumes :
    (after : Bool) (f h : Text) (frame : ParsedPathFrame) (path frames anchored : Frames)
    (next : Site)
    → new_segment frame ≡ some next
    → names_flow f h ≡ true
    → ((at : ℕ) → anchor_call at f h frames ≡ ok anchored)
    → Resumes false anchored (shown none (frame ∷ path)) (onto (frame ∷ path) anchored)
    → Resumes after frames (shown (some (arrow f h)) (frame ∷ path)) (onto (frame ∷ path) anchored)
arrow-Resumes after f h frame path frames anchored next moved valid place later =
    let here = shown-opens none frame path next moved in
    let t = frame_text frame ++ shown (held frame) path in
    subst (λ u. Resumes after frames u (onto (frame ∷ path) anchored))
      (sym (shown-opens (some (arrow f h)) frame path next moved))
      (Resumes-arrow after f h t frames anchored (onto (frame ∷ path) anchored) valid place
        (opens-head frame next (shown (held frame) path) moved)
        (subst (λ u. Resumes false anchored u (onto (frame ∷ path) anchored)) here later))
