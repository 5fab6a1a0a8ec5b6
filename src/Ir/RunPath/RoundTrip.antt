-- ===== src/Ir/RunPath/RoundTrip.antt =====
-- run_path.rs: parse_run_path reads what render_parsed_run_path writes.
use mathlib.Core.List.{append-nil}
use pointlock.Prelude.{
  ℕ, ◌+◌, ◌≡◌, refl, ◌∙◌, true, false, List, [], ◌∷◌, ◌++◌, none, ok, ◌>>=◌, Text, byte_len, split,
  split-append,
}
use pointlock.Ir.RunPath.Frames.{ParsedPathFrame, render_parsed_run_path}
use pointlock.Ir.RunPath.Parse.{Parsed, parse_root, parse_segments, onto, parse_run_path}
use pointlock.Ir.RunPath.Canonical.{Site, names_flow, advance, fits, is_canonical}
use pointlock.Ir.RunPath.Shown.{shown, render-shown}
use pointlock.Ir.RunPath.Pieces.{Frames, parse_name_at_hash-ok, names_flow-id, names_flow-slash}
use pointlock.Ir.RunPath.Names.{flow_id-ok}
use pointlock.Ir.RunPath.Segments.{Resumes-ends}
use pointlock.Ir.RunPath.Sites.{fits-Rejoins}
use pointlock.Ir.RunPath.Openings.{fits-guard, opened-head}

onto-onto : (path frames : Frames) → onto (onto path frames) [] ≡ onto frames path
onto-onto [] frames = refl
onto-onto (frame ∷ path) frames = onto-onto path (frame ∷ frames)

parse_root-ok :
    (f h : Text) (at : ℕ)
    → names_flow f h ≡ true
    → parse_root (f ++ b'@' ∷ h) at ≡ ok (ParsedPathFrame.flow f h)
unfolding parse_root
parse_root-ok f h at k =
    rw (parse_name_at_hash-ok f h at k, flow_id-ok f (names_flow-id f h k), parse_root) refl

-- What a text that is not empty is parsed to, from its pieces.
abbrev parse_pieces : Text × List Text → Parsed Frames
parse_pieces pieces = parse_root pieces.0 0 >>= λ first.
    parse_segments pieces.1 (byte_len pieces.0 + 1) (first ∷ []) >>= λ frames. ok (onto frames [])

parse_run_path-pieces :
    (c : ℕ) (s : Text) → parse_run_path (c ∷ s) ≡ parse_pieces (split b'/' (c ∷ s))
unfolding parse_run_path
parse_run_path-pieces c s = refl

parse_pieces-root :
    (f h : Text) (path : Frames)
    → names_flow f h ≡ true
    → fits Site.opened path ≡ true
    → parse_pieces (split b'/' ((f ++ b'@' ∷ h) ++ shown none path))
      ≡ ok (ParsedPathFrame.flow f h ∷ path)
parse_pieces-root f h path valid fit =
    let rest = shown none path in
    let ended = opened-head path fit in
    let root = ParsedPathFrame.flow f h ∷ [] in
    let rejoined = fits-Rejoins Site.opened path fit false root in
    rw
      (
        split-append b'/' (f ++ b'@' ∷ h) rest (names_flow-slash f h valid),
        ended,
        append-nil (f ++ b'@' ∷ h),
        parse_root-ok f h 0 valid,
      )
      (rw
        (
          Resumes-ends false rest root (onto path root) ended rejoined
              (byte_len (f ++ b'@' ∷ h) + 1),
          onto-onto path root,
        )
        refl)

-- The rendering of a root and what is behind it.
parse_run_path-root :
    (f h : Text) (path : Frames)
    → names_flow f h ≡ true
    → fits Site.opened path ≡ true
    → parse_run_path ((f ++ b'@' ∷ h) ++ shown none path) ≡ ok (ParsedPathFrame.flow f h ∷ path)
parse_run_path-root [] h path valid fit =
    parse_run_path-pieces b'@' (h ++ shown none path) ∙ parse_pieces-root [] h path valid fit
parse_run_path-root (c ∷ f) h path valid fit =
    parse_run_path-pieces c ((f ++ b'@' ∷ h) ++ shown none path)
    ∙ parse_pieces-root (c ∷ f) h path valid fit

-- A sequence of frames that the grammar of the text admits is read back from its rendering as it was:
-- rendering and parsing lose nothing of it.
pub parse_run_path-render :
    (path : List ParsedPathFrame)
    → is_canonical path ≡ true
    → parse_run_path (render_parsed_run_path path) ≡ ok path
unfolding is_canonical fits
parse_run_path-render [] h = absurd cc
parse_run_path-render (ParsedPathFrame.flow f h ∷ path) k =
    let (valid, fit) =
      fits-guard Site.start (ParsedPathFrame.flow f h) path (names_flow f h) Site.opened
        (unfold advance in refl) k in
    rw (render-shown f h path) (parse_run_path-root f h path valid fit)
parse_run_path-render (_ ∷ path) h = absurd (unfold advance in cc)
