-- ===== src/Store/Fold/Ledger.antt =====
-- What holds of the state that a whole ledger folds to.
use pointlock.Prelude.{
  ℕ, ◌+◌, ◌≤◌, ◌≡◌, ◌≢◌, refl, ◌∙◌, Bool, true, false, not, ◌&&◌, none, some, Option, List, [], ◌∷◌,
  ok, err, >>=-eq-ok, ok-injective, Result-cases, subst, length-last?-none, arith, if◌then◌else◌,
  length, count, str_eq, inl, inr,
}
use pointlock.Ir.RunLog.{RunLogPayload, RunLogEvent}
use pointlock.Store.Fold.State.{FoldError, RunMeta, FoldState, seed}
use pointlock.Store.Fold.Apply.{
  dispatch, apply, is_run_started, fold_step, fold_from, fold_state, is_stale,
}
use pointlock.Store.Fold.Tally.{enters, exits, opens, pops, Tallies, dispatch-Tallies}

-- The frame stack and the stack of frame paths have one height, which is positive once the run
-- has started.
pub record IsAnchored (s : FoldState) : Type 0 where
  pub paths : length s.view.frames ≡ length s.frame_paths
  pub rooted : s.started ≡ true → 1 ≤ length s.view.frames

pub started_lem :
    (s t : FoldState) (e : RunLogEvent) (p : RunLogPayload)
    → dispatch s e p ≡ ok t
    → t.started ≡ (if is_run_started p then true else s.started)
unfolding dispatch
started_lem s t e (RunLogPayload.preflight_probed []) q = ground arith
started_lem s t e (RunLogPayload.preflight_probed (o ∷ os)) q = ground arith
started_lem s t e (RunLogPayload.call_frame_pushed f false) q = ground arith
started_lem s t e (RunLogPayload.call_frame_pushed f true) q = ground arith
started_lem s t e (RunLogPayload.run_resumed r p none) q = ground arith
started_lem s t e (RunLogPayload.run_resumed r p (some c)) q = ground arith
started_lem s t e _ q = ground arith

-- A pop that is accepted leaves a frame.
pop_leaves :
    (s t : FoldState) (e : RunLogEvent) (p : RunLogPayload)
    → dispatch s e p ≡ ok t
    → pops p ≡ true
    → 2 ≤ length s.view.frames
unfolding dispatch
pop_leaves s t e (RunLogPayload.call_frame_popped o) q h = ground arith
pop_leaves s t e _ q h = cc

pub dispatch-IsAnchored :
    (s t : FoldState) (e : RunLogEvent) (p : RunLogPayload)
    → (not s.started && not (is_run_started p)) ≡ false
    → IsAnchored s
    → dispatch s e p ≡ ok t
    → IsAnchored t
dispatch-IsAnchored s t e p early a q =
    let tallies = dispatch-Tallies s t e p a.paths q in
    record {
      paths = omega (arith, tallies.frames, tallies.paths, a.paths);
      rooted = λ h. rooted_after p early q tallies;
    }
  where
    rooted_after :
        (p : RunLogPayload)
        → (not s.started && not (is_run_started p)) ≡ false
        → dispatch s e p ≡ ok t
        → Tallies s t p
        → 1 ≤ length t.view.frames
    rooted_after (RunLogPayload.run_started h l v w) early q tallies = omega (arith, tallies.frames)
    rooted_after (RunLogPayload.call_frame_popped o) early q tallies =
        omega (arith, tallies.frames, pop_leaves s t e (RunLogPayload.call_frame_popped o) q refl)
    rooted_after (RunLogPayload.call_frame_pushed f b) early q tallies =
        ground (arith, tallies.frames, a.rooted)
    rooted_after _ early q tallies = ground (arith, tallies.frames, a.rooted)

-- The events that `fold_step` accepts are those that `dispatch` accepts, in order and not early.
pub fold_step-eq_ok :
    (meta : RunMeta) (prev : Option ℕ) (s t : FoldState) (e : RunLogEvent)
    → fold_step meta prev s e ≡ ok t
    → ((not s.started && not (is_run_started e.payload)) ≡ false)
      × (dispatch s e e.payload ≡ ok t)
      × (str_eq e.run_id meta.run_id ≡ true)
      × (is_stale prev e.seq ≡ false)
unfolding fold_step apply
fold_step-eq_ok meta prev s t e q = ground arith

fold_step-IsAnchored :
    (meta : RunMeta) (prev : Option ℕ) (s t : FoldState) (e : RunLogEvent)
    → IsAnchored s
    → fold_step meta prev s e ≡ ok t
    → IsAnchored t
fold_step-IsAnchored meta prev s t e a q =
    let (early, step, _, _) = fold_step-eq_ok meta prev s t e q in
    dispatch-IsAnchored s t e e.payload early a step

fold_step-Tallies :
    (meta : RunMeta) (prev : Option ℕ) (s t : FoldState) (e : RunLogEvent)
    → IsAnchored s
    → fold_step meta prev s e ≡ ok t
    → Tallies s t e.payload
fold_step-Tallies meta prev s t e a q =
    dispatch-Tallies s t e e.payload a.paths (fold_step-eq_ok meta prev s t e q).1

-- How many events of a ledger are of a kind.
abbrev pub tally : (RunLogPayload → Bool) → List RunLogEvent → ℕ
tally kind events = count (λ e. kind e.payload) events

-- The counts of the folded state, from those of the ledger.
pub record IsTallied (events : List RunLogEvent) (s t : FoldState) : Type 0 where
  pub in_flight : length t.in_flight + tally exits events ≡ length s.in_flight + tally enters events
  pub completed : length t.view.completed ≡ length s.view.completed + tally exits events
  pub frames : length t.view.frames + tally pops events ≡ length s.view.frames + tally opens events
  pub anchored : IsAnchored t

fold_from-IsTallied :
    (meta : RunMeta) (prev : Option ℕ) (s t : FoldState) (events : List RunLogEvent)
    → IsAnchored s
    → fold_from meta prev s events ≡ ok t
    → IsTallied events s t
unfolding fold_from
fold_from-IsTallied meta prev s t [] a q =
    subst (λ u. IsTallied [] s u) (ok-injective q)
      (record { in_flight = refl; completed = omega arith; frames = refl; anchored = a })
fold_from-IsTallied meta prev s t (e ∷ events) a q =
    let (next, first, rest) = >>=-eq-ok (fold_step meta prev s e) _ q in
    let step = fold_step-Tallies meta prev s next e a first in
    let ih =
      fold_from-IsTallied meta (some e.seq) next t events
        (fold_step-IsAnchored meta prev s next e a first) rest in
    record {
      in_flight = omega (arith, step.in_flight, ih.in_flight);
      completed = omega (arith, step.completed, ih.completed);
      frames = omega (arith, step.frames, ih.frames);
      anchored = ih.anchored;
    }

seed-IsAnchored : (meta : RunMeta) → IsAnchored (seed meta)
unfolding seed
seed-IsAnchored meta = ground arith

-- The fold of a ledger that is accepted has as many steps in flight as entries without an exit, as
-- many completed records as exits, and as many call frames as frame openings without a pop; the
-- frame paths are as many as the frames.
pub fold_state-IsTallied :
    (meta : RunMeta) (events : List RunLogEvent) (t : FoldState)
    → fold_state meta events ≡ ok t
    → (length t.in_flight + tally exits events ≡ tally enters events)
      × (length t.view.completed ≡ tally exits events)
      × (length t.view.frames + tally pops events ≡ tally opens events)
      × (length t.view.frames ≡ length t.frame_paths)
unfolding fold_state seed
fold_state-IsTallied meta events t q =
    let tallied = fold_from-IsTallied meta none (seed meta) t events (seed-IsAnchored meta) q in
    (
      omega (arith, tallied.in_flight),
      omega (arith, tallied.completed),
      omega (arith, tallied.frames),
      tallied.anchored.paths,
    )

-- An event that is not early raises no `no_active_frame` from an anchored state.
dispatch-ne-no_active_frame :
    (s : FoldState) (e : RunLogEvent) (p : RunLogPayload) (seq : ℕ)
    → (not s.started && not (is_run_started p)) ≡ false
    → IsAnchored s
    → dispatch s e p ≢ err (FoldError.no_active_frame seq)
unfolding dispatch
dispatch-ne-no_active_frame s e (RunLogPayload.preflight_probed []) seq h a q = cc
dispatch-ne-no_active_frame s e (RunLogPayload.call_frame_pushed f false) seq h a q = ground arith
dispatch-ne-no_active_frame s e (RunLogPayload.call_frame_pushed f true) seq h a q = ground arith
dispatch-ne-no_active_frame s e (RunLogPayload.run_resumed r p none) seq h a q = ground arith
dispatch-ne-no_active_frame s e (RunLogPayload.run_resumed r p (some c)) seq h a q = ground arith
dispatch-ne-no_active_frame s e _ seq h a q = ground (arith, length-last?-none s.view.frames)

fold_step-ne-no_active_frame :
    (meta : RunMeta) (prev : Option ℕ) (s : FoldState) (e : RunLogEvent) (seq : ℕ)
    → IsAnchored s
    → fold_step meta prev s e ≢ err (FoldError.no_active_frame seq)
unfolding fold_step apply
fold_step-ne-no_active_frame meta prev s e seq a q =
    ground (arith, dispatch-ne-no_active_frame s e e.payload seq)

fold_from-ne-no_active_frame :
    (meta : RunMeta) (prev : Option ℕ) (s : FoldState) (events : List RunLogEvent) (seq : ℕ)
    → IsAnchored s
    → fold_from meta prev s events ≢ err (FoldError.no_active_frame seq)
unfolding fold_from
fold_from-ne-no_active_frame meta prev s [] seq a q = cc
fold_from-ne-no_active_frame meta prev s (e ∷ events) seq a q =
    elim (Result-cases (fold_step meta prev s e)) [
      | inl (next, first) ↦
          fold_from-ne-no_active_frame meta (some e.seq) next events seq
            (fold_step-IsAnchored meta prev s next e a first) (rw (← q, first))
      | inr (error, first) ↦
          fold_step-ne-no_active_frame meta prev s e seq a (first ∙ (rw first at q))
    ]

-- No ledger at all makes the fold report a step exit without an active call frame.
pub fold_state-ne-no_active_frame :
    (meta : RunMeta) (events : List RunLogEvent) (seq : ℕ)
    → fold_state meta events ≢ err (FoldError.no_active_frame seq)
unfolding fold_state
fold_state-ne-no_active_frame meta events seq =
    fold_from-ne-no_active_frame meta none (seed meta) events seq (seed-IsAnchored meta)
