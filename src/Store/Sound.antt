-- ===== src/Store/Sound.antt =====
-- The invariant of a store: what is materialized is the fold of the log, and the cache of the handle
-- holds that fold or is one that the next append does not use.
use pointlock.Prelude.{
  ℕ, suc, ◌+◌, ◌≡◌, ◌≢◌, ◌⊎◌, inl, inr, refl, ◌∙◌, subst, String, true, false, Option, none, some,
  List, [], ◌∷◌, ◌==◌, ok, err, push, length, str_eq_iff, Bool-cases, arith,
}
use Prim.Native.Nat.{max}
use pointlock.Ir.Record.{CheckpointView}
use pointlock.Ir.RunLog.{RunLogEvent}
use pointlock.Store.Fold.State.{RunMeta, FoldState}
use pointlock.Store.Fold.Steps.{Folded}
use pointlock.Store.Fold.Apply.{apply, fold_step, fold_state, is_stale}
use pointlock.Store.Fold.Finish.{finish}
use pointlock.Store.Fold.Clean.{IsClean}
use pointlock.Store.Fold.Replay.{seq_after, fold_state-push}
use pointlock.Store.Db.{RunRow, Store}
use pointlock.Store.Append.{max_seq, refold_cached, apply_cached, fold_cached}

-- The numbers of the log are `n + 1`, `n + 2` and so on.
abbrev pub IsCounted : ℕ → List RunLogEvent → Type 0
IsCounted n [] = Unit
IsCounted n (e ∷ log) = (e.seq ≡ suc n) × IsCounted (suc n) log

max_seq_from :
    (n : ℕ) (log : List RunLogEvent) → IsCounted n log → max n (max_seq log) ≡ n + length log
max_seq_from n [] c = omega arith
max_seq_from n (e ∷ log) c = omega (arith, max_seq_from (suc n) log c.1, c.0)

pub max_seq-length : (log : List RunLogEvent) → IsCounted 0 log → max_seq log ≡ length log
max_seq-length log c = omega (arith, max_seq_from 0 log c)

pub IsCounted-push :
    (n : ℕ) (log : List RunLogEvent) (e : RunLogEvent)
    → IsCounted n log
    → e.seq ≡ suc (n + length log)
    → IsCounted n (push log e)
IsCounted-push n [] e c h = (omega arith, tt)
IsCounted-push n (f ∷ log) e c h = (c.0, IsCounted-push (suc n) log e c.1 (omega arith))

-- The next number passes the check of the fold.
next_is_fresh :
    (n : ℕ) (prev : Option ℕ) (log : List RunLogEvent)
    → IsCounted n log
    → is_stale prev (suc n) ≡ false
    → is_stale (seq_after prev log) (suc (n + length log)) ≡ false
next_is_fresh n prev [] c h = subst (λ k. is_stale prev (suc k) ≡ false) (omega arith) h
next_is_fresh n prev (e ∷ log) c h =
    let ih = next_is_fresh (suc n) (some e.seq) log c.1 (rw c.0 (ground arith)) in
    subst (λ k. is_stale (seq_after (some e.seq) log) k ≡ false) (omega arith) ih

-- What `checkpoint` holds: nothing for an empty log, else its length and the folded view.
abbrev pub checkpoint_of : List RunLogEvent → FoldState → Option (ℕ × CheckpointView)
checkpoint_of [] state = none
checkpoint_of (e ∷ log) state = some (length (e ∷ log), (finish state).view)

pub record IsSoundRow (run_id : String) (row : RunRow) (log : List RunLogEvent)
    (checkpoint : Option (ℕ × CheckpointView)) (state : FoldState) : Type 0 where
  pub owner : row.meta.run_id ≡ run_id
  pub counted : IsCounted 0 log
  pub folds : fold_state row.meta log ≡ ok state
  pub status : row.status ≡ (finish state).status
  pub clean : IsClean state
  pub materialized : checkpoint ≡ checkpoint_of log state

-- A cache entry for the log's head holds the folded state.
abbrev pub Agrees : Option (ℕ × FoldState) → List RunLogEvent → FoldState → Type 0
Agrees none log state = Unit
Agrees (some (seq, cached)) log state = (seq ≢ length log) ⊎ (cached ≡ state)

abbrev pub SoundAt :
    String
    → Option RunRow
    → List RunLogEvent
    → Option (ℕ × CheckpointView)
    → Option (ℕ × FoldState)
    → Type 0
SoundAt run_id none log checkpoint entry = (log ≡ []) × (checkpoint ≡ none) × (entry ≡ none)
SoundAt run_id (some row) log checkpoint entry =
    (state : FoldState) × IsSoundRow run_id row log checkpoint state × Agrees entry log state

abbrev pub IsSound : Store → Type 0
IsSound st =
    (run_id : String)
    → SoundAt run_id (st.tables.runs run_id) (st.tables.logs run_id) (st.tables.checkpoints run_id)
        (st.fold_cache run_id)

-- Folding the log with its next event is applying that event to the folded log.
pub fold_state-next :
    (meta : RunMeta) (log : List RunLogEvent) (state : FoldState) (e : RunLogEvent)
    → IsCounted 0 log
    → fold_state meta log ≡ ok state
    → e.run_id ≡ meta.run_id
    → e.seq ≡ suc (length log)
    → fold_state meta (push log e) ≡ apply state e
unfolding fold_step
fold_state-next meta log state e c folds owner seq =
    fold_state-push meta log e ∙ rw (folds, (str_eq_iff e.run_id meta.run_id).1 owner, fresh) refl
  where
    fresh : is_stale (seq_after none log) e.seq ≡ false
    fresh = rw seq (
        subst (λ k. is_stale (seq_after none log) k ≡ false) (omega arith)
          (next_is_fresh 0 none log c refl))

-- The cache entry after a fold that answered `r`.
abbrev pub EntryAfter : Option (ℕ × FoldState) → Option (ℕ × FoldState) → ℕ → Folded → Type 0
EntryAfter old new seq (ok state) = new ≡ some (seq, state)
EntryAfter old new seq (err x) = (new ≡ none) ⊎ (new ≡ old)

refold_cached-answers :
    (entry : Option (ℕ × FoldState)) (seq : ℕ) (r : Folded)
    → ((refold_cached entry seq r).1 ≡ r) × EntryAfter entry (refold_cached entry seq r).0 seq r
unfolding refold_cached
refold_cached-answers entry seq (ok state) = (refl, refl)
refold_cached-answers entry seq (err x) = (refl, inr refl)

apply_cached-answers :
    (entry : Option (ℕ × FoldState)) (seq : ℕ) (r : Folded)
    → ((apply_cached seq r).1 ≡ r) × EntryAfter entry (apply_cached seq r).0 seq r
unfolding apply_cached
apply_cached-answers entry seq (ok state) = (refl, refl)
apply_cached-answers entry seq (err x) = (refl, inl refl)

-- An entry that the cache test accepts holds the folded state.
hit-Agrees :
    (cached_seq : ℕ) (cached state : FoldState) (log : List RunLogEvent) (seq : ℕ)
    → Agrees (some (cached_seq, cached)) log state
    → seq ≡ suc (length log)
    → ((cached_seq + 1) == seq) ≡ true
    → cached ≡ state
hit-Agrees cached_seq cached state log seq (inl differs) h hit = absurd (differs (ground arith))
hit-Agrees cached_seq cached state log seq (inr same) h hit = same

-- Through the cache the fold answers what the full refold answers.
pub fold_cached-refolds :
    (entry : Option (ℕ × FoldState)) (meta : RunMeta) (log : List RunLogEvent) (state : FoldState)
    (e : RunLogEvent)
    → Agrees entry log state
    → IsCounted 0 log
    → fold_state meta log ≡ ok state
    → e.run_id ≡ meta.run_id
    → e.seq ≡ suc (length log)
    → ((fold_cached entry meta (push log e) e).1 ≡ fold_state meta (push log e))
      × EntryAfter entry
          (fold_cached entry meta (push log e) e).0
          e.seq
          (fold_state meta (push log e))
unfolding fold_cached
fold_cached-refolds none meta log state e a c folds owner seq =
    refold_cached-answers none e.seq (fold_state meta (push log e))
fold_cached-refolds (some (cached_seq, cached)) meta log state e a c folds owner seq =
    elim (Bool-cases ((cached_seq + 1) == e.seq)) [
      | inr miss ↦
          rw miss
            (refold_cached-answers (some (cached_seq, cached)) e.seq (fold_state meta (push log e)))
      | inl hit ↦
          let same = hit-Agrees cached_seq cached state log e.seq a seq hit in
          rw (hit, fold_state-next meta log state e c folds owner seq, ← same)
            (apply_cached-answers (some (cached_seq, cached)) e.seq (apply cached e))
    ]
