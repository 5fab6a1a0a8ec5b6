-- ===== src/Ir/RunPath/Grammar.antt =====
-- run_path.rs: the grammar of a whole accepted text, and the round trip from either side.
use pointlock.Prelude.{
  ℕ, ◌+◌, ◌≡◌, ◌≢◌, ◌↔◌, refl, sym, subst, inl, inr, true, List, [], ◌∷◌, Option, some,
  Option-cases, ok, ◌>>=◌, >>=-eq-ok, ok-injective, Text, all, byte_len, split, strip_prefix, lacks,
  arith,
}
use pointlock.Ir.Ids.{flow_id}
use pointlock.Ir.RunPath.Frames.{ParsedPathFrame, render_parsed_run_path, call_arrow, hook_mark}
use pointlock.Ir.RunPath.Parse.{
  PathFault, checked_id, parse_name_at_hash, parse_call_segment, parse_hook_segment, parse_segment,
  parse_segments, parse_root, onto, parse_run_path,
}
use pointlock.Ir.RunPath.Canonical.{Site, names_flow, advance, fits, is_canonical}
use pointlock.Ir.RunPath.Pieces.{Frames}
use pointlock.Ir.RunPath.Apart.{split-lacks}
use pointlock.Ir.RunPath.Sound.{guard-true, checked_id-ok}
use pointlock.Ir.RunPath.Anchors.{anchor_call-Anchored, site_of-uncons}
use pointlock.Ir.RunPath.RoundTrip.{parse_run_path-render}
use pointlock.Ir.RunPath.Accepted.{
  site_of, IsBegun, IsBegun-opens, parse_name_at_hash-flow, IsBegun-step, parse_hook_segment-site,
}

IsBegun-call :
    (rest : Text) (at : ℕ) (frames read : Frames)
    → IsBegun frames
    → parse_call_segment rest at frames ≡ ok read
    → IsBegun read
unfolding parse_call_segment
IsBegun-call rest at frames read b q =
    let ((name, prefix), apart, named) = >>=-eq-ok (parse_name_at_hash rest at) _ q in
    let (callee, checked, placed) =
      >>=-eq-ok (checked_id at PathFault.bad_callee_id (flow_id name)) _ named in
    let found = checked_id-ok at PathFault.bad_callee_id (flow_id name) callee checked in
    let valid = parse_name_at_hash-flow rest at name prefix callee apart found in
    elim (anchor_call-Anchored at callee prefix frames read b.site valid b.leads placed) [
      | inl (after, _, leads) ↦ record { site = Site.calling after; leads = leads; begun = λ e. cc }
      | inr (_, leads) ↦ record { site = Site.opened; leads = leads; begun = λ e. cc }
    ]

IsBegun-hook :
    (rest : Text) (at : ℕ) (frames read : Frames)
    → IsBegun frames
    → parse_hook_segment rest at >>= (λ frame. ok (frame ∷ frames)) ≡ ok read
    → IsBegun read
IsBegun-hook rest at frames read b q =
    let (frame, hooked, made) = >>=-eq-ok (parse_hook_segment rest at) _ q in
    let opens = parse_hook_segment-site rest at frame hooked in
    subst IsBegun (ok-injective made) (record {
      site = Site.hooked;
      leads = IsBegun-opens frame frames Site.hooked b opens;
      begun = λ e. cc;
    })

IsBegun-segment :
    (segment : Text) (at : ℕ) (frames read : Frames)
    → lacks b'/' segment ≡ true
    → IsBegun frames
    → parse_segment segment at frames ≡ ok read
    → IsBegun read
unfolding parse_segment
IsBegun-segment segment at frames read h b q =
    elim (Option-cases (strip_prefix call_arrow segment)) [
      | inr (rest, e) ↦ IsBegun-call rest at frames read b (ground (arith, e))
      | inl e ↦ elim (Option-cases (strip_prefix hook_mark segment)) [
        | inr (rest, f) ↦ IsBegun-hook rest at frames read b (ground (arith, e, f))
        | inl f ↦ IsBegun-step segment at frames read h f b (ground (arith, e, f))
      ]
    ]

IsBegun-segments :
    (segments : List Text) (at : ℕ) (frames read : Frames)
    → all (lacks b'/') segments ≡ true
    → IsBegun frames
    → parse_segments segments at frames ≡ ok read
    → IsBegun read
unfolding parse_segments
IsBegun-segments [] at frames read h b q = subst IsBegun (ok-injective q) b
IsBegun-segments (segment ∷ more) at frames read h b q =
    let (next, first, later) = >>=-eq-ok (parse_segment segment at frames) _ q in
    IsBegun-segments more (at + byte_len segment + 1) next read (ground arith)
      (IsBegun-segment segment at frames next (ground arith) b first) later

-- What leads to a site reads forward as a path that fits.
site_of-fits :
    (frames path : Frames) (site : Site)
    → site_of frames ≡ some site
    → fits site path ≡ true
    → fits Site.start (onto frames path) ≡ true
unfolding site_of fits
site_of-fits [] path site h k = subst (λ s. fits s path ≡ true) (sym (known h)) k
  where
    known : ◌≡◌ {A = Option Site} (some Site.start) (some site) → Site.start ≡ site
    known e = cc
site_of-fits (frame ∷ frames) path site h k =
    let (before, led, moved) = site_of-uncons frame frames site h in
    site_of-fits frames (frame ∷ path) before led (ground (arith, moved, k))

begun-fits : (site : Site) → site ≢ Site.start → fits site [] ≡ true
unfolding fits
begun-fits Site.start h = absurd (h refl)
begun-fits _ h = refl

parse_root-IsBegun :
    (root : Text) (first : ParsedPathFrame) → parse_root root 0 ≡ ok first → IsBegun (first ∷ [])
unfolding parse_root site_of advance
parse_root-IsBegun root first q =
    let ((name, prefix), apart, named) = >>=-eq-ok (parse_name_at_hash root 0) _ q in
    let (id, checked, made) =
      >>=-eq-ok (checked_id 0 PathFault.bad_flow_id (flow_id name)) _ named in
    let found = checked_id-ok 0 PathFault.bad_flow_id (flow_id name) id checked in
    subst (λ f. IsBegun (f ∷ [])) (ok-injective made)
      (record {
        site = Site.opened;
        leads =
            guard-true (names_flow id prefix) Site.opened
              (parse_name_at_hash-flow root 0 name prefix id apart found);
        begun = λ e. cc;
      })

-- Every text that the parser accepts holds a sequence of frames that the grammar admits.
pub parse_run_path-canonical :
    (text : Text) (path : List ParsedPathFrame)
    → parse_run_path text ≡ ok path
    → is_canonical path ≡ true
unfolding parse_run_path is_canonical
parse_run_path-canonical [] path q = absurd cc
parse_run_path-canonical (c ∷ s) path q =
    let (root, others) = split b'/' (c ∷ s) in
    let (first, rooted, later) = >>=-eq-ok (parse_root root 0) _ q in
    let (frames, read, made) =
      >>=-eq-ok (parse_segments others (byte_len root + 1) (first ∷ [])) _ later in
    let begun =
      IsBegun-segments others (byte_len root + 1) (first ∷ []) frames (split-lacks b'/' (c ∷ s)).1
        (parse_root-IsBegun root first rooted) read in
    subst (λ l. fits Site.start l ≡ true) (ok-injective made)
      (site_of-fits frames [] begun.site begun.leads (begun-fits begun.site begun.begun))

-- Frames survive their rendering exactly when the grammar admits them.
pub parse_run_path-render_iff :
    (path : List ParsedPathFrame)
    → (parse_run_path (render_parsed_run_path path) ≡ ok path) ↔ (is_canonical path ≡ true)
parse_run_path-render_iff path =
    (parse_run_path-canonical (render_parsed_run_path path) path, parse_run_path-render path)

-- What was parsed is read back from its rendering: a second pass through the text changes nothing.
pub parse_run_path-render-parse :
    (text : Text) (path : List ParsedPathFrame)
    → parse_run_path text ≡ ok path
    → parse_run_path (render_parsed_run_path path) ≡ ok path
parse_run_path-render-parse text path q =
    parse_run_path-render path (parse_run_path-canonical text path q)
