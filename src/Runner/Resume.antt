-- ===== src/Runner/Resume.antt =====
-- align.rs, harvest, beside fold.rs, fold_state: both passes over one ledger.
use pointlock.Prelude.{
  ℕ, subst, ◌≡◌, refl, sym, ap, ◌∙◌, false, not, ◌&&◌, Option, none, some, List, [], ◌∷◌, map, ok,
  >>=-eq-ok, ok-injective, arith,
}
use pointlock.Ir.RunLog.{RunLogPayload, RunLogEvent}
use pointlock.Store.Fold.State.{RunMeta, FoldState, seed}
use pointlock.Store.Fold.Ledger.{IsAnchored, started_lem, fold_step-eq_ok, dispatch-IsAnchored}
use pointlock.Store.Fold.Apply.{dispatch, is_run_started, fold_step, fold_from, fold_state}
use pointlock.Runner.Facts.{Scan, no_facts}
use pointlock.Runner.Harvest.{harvest_payload, harvest_from, harvest}
use pointlock.Runner.Spans.{
  span_path, above_root, moved_spans, moved_frames, harvest_payload-Moves, dispatch-moved_spans,
  dispatch-moved_frames,
}

-- What the fold keeps of its frames, and that the two agree.
record Follows (s : FoldState) (scan : Scan) : Type 0 where
  anchored : IsAnchored s
  fresh : s.started ≡ false → s.frame_paths ≡ []
  spans : map span_path s.in_flight ≡ scan.facts.open_spans
  frames : above_root s.frame_paths ≡ scan.facts.live_frames

started-fresh :
    (s t : FoldState) (e : RunLogEvent) (p : RunLogPayload)
    → (not s.started && not (is_run_started p)) ≡ false
    → dispatch s e p ≡ ok t
    → t.started ≡ false
    → t.frame_paths ≡ []
started-fresh s t e p early q h = absurd (ground (arith, started_lem s t e p q))

fold_step-Follows :
    (meta : RunMeta) (prev : Option ℕ) (s t : FoldState) (e : RunLogEvent) (scan : Scan)
    → fold_step meta prev s e ≡ ok t
    → Follows s scan
    → Follows t (harvest_payload scan e e.payload)
fold_step-Follows meta prev s t e scan q f =
    let (early, step, _, _) = fold_step-eq_ok meta prev s t e q in
    let (spans, frames) = harvest_payload-Moves scan e e.payload in
    record {
      anchored = dispatch-IsAnchored s t e e.payload early f.anchored step;
      fresh = started-fresh s t e e.payload early step;
      spans =
          dispatch-moved_spans s t e e.payload step
          ∙ ap (moved_spans e.payload e.run_path) f.spans
          ∙ sym spans;
      frames =
          dispatch-moved_frames s t e e.payload step f.anchored.paths early f.anchored.rooted
            f.fresh
          ∙ ap (moved_frames e.payload e.run_path) f.frames
          ∙ sym frames;
    }

fold_from-Follows :
    (meta : RunMeta) (prev : Option ℕ) (s t : FoldState) (events : List RunLogEvent) (scan : Scan)
    → fold_from meta prev s events ≡ ok t
    → Follows s scan
    → Follows t (harvest_from scan events)
unfolding fold_from harvest_from
fold_from-Follows meta prev s t [] scan q f = subst (λ u. Follows u scan) (ok-injective q) f
fold_from-Follows meta prev s t (e ∷ events) scan q f =
    let (next, step, later) = >>=-eq-ok (fold_step meta prev s e) _ q in
    fold_from-Follows meta (some e.seq) next t events (harvest_payload scan e e.payload) later
      (fold_step-Follows meta prev s next e scan step f)

-- On every ledger that folds, the runner's harvest and the store's fold agree on what a crash or a
-- suspension has left open: the open spans are the paths of the steps in flight, outermost first, and
-- the live frames are the paths of the call frames above the root.
pub harvest-open :
    (meta : RunMeta) (events : List RunLogEvent) (t : FoldState)
    → fold_state meta events ≡ ok t
    → ((harvest events).open_spans ≡ map span_path t.in_flight)
      × ((harvest events).live_frames ≡ above_root t.frame_paths)
unfolding fold_state harvest seed
harvest-open meta events t q =
    let f = fold_from-Follows meta none (seed meta) t events no_facts q (record {
      anchored = record { paths = refl; rooted = λ h. absurd cc };
      fresh = λ h. refl;
      spans = refl;
      frames = refl;
    }) in
    (sym f.spans, sym f.frames)
