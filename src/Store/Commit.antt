-- ===== src/Store/Commit.antt =====
-- store.rs: the transaction of an append to a known run keeps a sound store.
use pointlock.Prelude.{
  ℕ, suc, ◌≡◌, ◌⊎◌, inl, inr, refl, sym, ap, ◌∙◌, true, subst, String, Option, none, some, List, [],
  ◌∷◌, ok, err, push, length, length-push, update, str_eq, str_eq_refl, str_eq_iff, Bool-cases,
  arith,
}
use pointlock.Ir.Record.{CheckpointView}
use pointlock.Ir.RunLog.{RunLogEvent}
use pointlock.Ir.Wire.{carried_payload, reread_event, reread_view, reread_event-carried}
use pointlock.Store.Fold.Clean.{IsClean, apply-IsClean, finish-carried}
use pointlock.Store.Fold.State.{FoldState}
use pointlock.Store.Fold.Steps.{Folded}
use pointlock.Store.Fold.Apply.{fold_state}
use pointlock.Store.Fold.Finish.{finish}
use pointlock.Store.Db.{RunRow, Store, TxOutcome}
use pointlock.Store.Append.{fold_cached, settle_tx, append_known}
use pointlock.Store.Sound.{
  IsCounted-push, checkpoint_of, IsSoundRow, Agrees, SoundAt, IsSound, EntryAfter,
  fold_cached-refolds, fold_state-next,
}

-- Soundness of a store that differs at one run.
module _ (st : Store) (sound : IsSound st) (run_id : String) where
  IsSound-cache :
      (entry : Option (ℕ × FoldState))
      → SoundAt run_id
          (st.tables.runs run_id)
          (st.tables.logs run_id)
          (st.tables.checkpoints run_id)
          entry
      → IsSound (record st { fold_cache = update st.fold_cache run_id entry })
  IsSound-cache entry h r = elim (Bool-cases (str_eq run_id r)) [
    | inr other ↦ rw other (sound r)
    | inl same ↦
        subst
          (λ k.
            SoundAt k (st.tables.runs k) (st.tables.logs k) (st.tables.checkpoints k)
              (update st.fold_cache run_id entry k))
          ((str_eq_iff run_id r).0 same) (rw (str_eq_refl run_id) h)
  ]

  IsSound-tables :
      (row : RunRow) (log : List RunLogEvent) (checkpoint : Option (ℕ × CheckpointView))
      (entry : Option (ℕ × FoldState))
      → SoundAt run_id (some row) log checkpoint entry
      → IsSound (record {
        tables = record {
          runs = update st.tables.runs run_id (some row);
          logs = update st.tables.logs run_id log;
          checkpoints = update st.tables.checkpoints run_id checkpoint;
        };
        fold_cache = update st.fold_cache run_id entry;
      })
  IsSound-tables row log checkpoint entry h r = elim (Bool-cases (str_eq run_id r)) [
    | inr other ↦ rw other (sound r)
    | inl same ↦
        subst
          (λ k.
            SoundAt k (update st.tables.runs run_id (some row) k)
              (update st.tables.logs run_id log k)
              (update st.tables.checkpoints run_id checkpoint k)
              (update st.fold_cache run_id entry k))
          ((str_eq_iff run_id r).0 same) (rw (str_eq_refl run_id) h)
  ]

  pub IsSound-runs :
      (row : RunRow)
      → SoundAt run_id
          (some row)
          (st.tables.logs run_id)
          (st.tables.checkpoints run_id)
          (st.fold_cache run_id)
      → IsSound (record st {
        tables = record (st.tables) { runs = update st.tables.runs run_id (some row) };
      })
  IsSound-runs row h r = elim (Bool-cases (str_eq run_id r)) [
    | inr other ↦ rw other (sound r)
    | inl same ↦
        subst
          (λ k.
            SoundAt k (update st.tables.runs run_id (some row) k) (st.tables.logs k)
              (st.tables.checkpoints k) (st.fold_cache k))
          ((str_eq_iff run_id r).0 same) (rw (str_eq_refl run_id) h)
  ]

checkpoint_of-push :
    (log : List RunLogEvent) (e : RunLogEvent) (state : FoldState)
    → e.seq ≡ suc (length log)
    → some (e.seq, (finish state).view) ≡ checkpoint_of (push log e) state
checkpoint_of-push [] e state h = ap (λ (n : ℕ). some (n, (finish state).view)) h
checkpoint_of-push (f ∷ log) e state h =
    ap (λ (n : ℕ). some (n, (finish state).view)) (omega (arith, length-push log e))

-- An entry that a failed fold leaves agrees with the log.
err-Agrees :
    (old new : Option (ℕ × FoldState)) (log : List RunLogEvent) (state : FoldState)
    → Agrees old log state
    → (new ≡ none) ⊎ (new ≡ old)
    → Agrees new log state
err-Agrees old new log state a (inl gone) = rw gone tt
err-Agrees old new log state a (inr kept) = rw kept a

module _ (st : Store) (sound : IsSound st) (row : RunRow) (e : RunLogEvent) (state : FoldState)
    (known : st.tables.runs e.run_id ≡ some row)
    (good : IsSoundRow e.run_id row
      (st.tables.logs e.run_id)
      (st.tables.checkpoints e.run_id)
      state)
    (agrees : Agrees (st.fold_cache e.run_id) (st.tables.logs e.run_id) state)
    (next : e.seq ≡ suc (length (st.tables.logs e.run_id)))
    (carries : carried_payload e.payload ≡ true) where
  failed_after :
      (t : FoldState) (entry : Option (ℕ × FoldState))
      → entry ≡ some (e.seq, t)
      → IsSound (record st { fold_cache = update st.fold_cache e.run_id entry })
  failed_after t entry after =
      IsSound-cache st sound e.run_id entry
        (rw known (state, good, rw after (inl (λ h. omega arith))))

  folded-IsClean :
      (t : FoldState)
      → ok t ≡ fold_state row.meta (push (st.tables.logs e.run_id) (reread_event e))
      → IsClean t
  folded-IsClean t folds = apply-IsClean state t e good.clean carries (
      sym (
        fold_state-next row.meta (st.tables.logs e.run_id) state e good.counted good.folds
          (sym good.owner) next)
      ∙ ap (λ x. fold_state row.meta (push (st.tables.logs e.run_id) x))
          (sym (reread_event-carried e carries))
      ∙ sym folds)

  -- The transaction after a fold that answered as the full refold does.
  settle-IsSound :
      (tx : TxOutcome) (entry : Option (ℕ × FoldState)) (r : Folded)
      → r ≡ fold_state row.meta (push (st.tables.logs e.run_id) (reread_event e))
      → EntryAfter (st.fold_cache e.run_id) entry e.seq r
      → IsSound (settle_tx st row e tx (entry, r)).0
  unfolding settle_tx
  settle-IsSound tx entry (err x) folds after = IsSound-cache st sound e.run_id entry (
      rw known (
        state,
        good,
        err-Agrees (st.fold_cache e.run_id) entry (st.tables.logs e.run_id) state agrees after,
      ))
  settle-IsSound TxOutcome.commits entry (ok t) folds after =
      let clean = folded-IsClean t folds in
      IsSound-tables st sound e.run_id (record row { status = (finish t).status })
        (push (st.tables.logs e.run_id) (reread_event e))
        (some (e.seq, reread_view (finish t).view)) entry
        (
          t,
          record {
            owner = good.owner;
            counted =
                IsCounted-push 0 (st.tables.logs e.run_id) (reread_event e) good.counted
                  (omega arith);
            folds = sym folds;
            status = refl;
            clean = clean;
            materialized =
                ap (λ view. some (e.seq, view)) (finish-carried t clean)
                ∙ checkpoint_of-push (st.tables.logs e.run_id) (reread_event e) t next;
          },
          rw after (inr refl),
        )
  settle-IsSound TxOutcome.fails_before_fold entry (ok t) folds after = failed_after t entry after
  settle-IsSound TxOutcome.fails_after_fold entry (ok t) folds after = failed_after t entry after

  -- What the fold through the cache gives over the log with this last event.
  abbrev Refolds : RunLogEvent → Type 0
  Refolds last =
      ((fold_cached (st.fold_cache e.run_id) row.meta (push (st.tables.logs e.run_id) last) e).1
        ≡ fold_state row.meta (push (st.tables.logs e.run_id) last))
      × EntryAfter (st.fold_cache e.run_id)
          (fold_cached (st.fold_cache e.run_id) row.meta (push (st.tables.logs e.run_id) last) e).0
          e.seq
          (fold_cached (st.fold_cache e.run_id) row.meta (push (st.tables.logs e.run_id) last) e).1

  refolds : Refolds (reread_event e)
  refolds =
      let (folds, after) =
        fold_cached-refolds (st.fold_cache e.run_id) row.meta (st.tables.logs e.run_id) state e
          agrees good.counted good.folds (sym good.owner) next in
      subst Refolds (sym (reread_event-carried e carries)) (folds, rw folds after)

  pub append_known-IsSound : (tx : TxOutcome) → IsSound (append_known st row e tx).0
  unfolding append_known
  append_known-IsSound TxOutcome.fails_before_fold = sound
  append_known-IsSound TxOutcome.commits =
      let (folds, after) = refolds in settle-IsSound TxOutcome.commits _ _ folds after
  append_known-IsSound TxOutcome.fails_after_fold =
      let (folds, after) = refolds in settle-IsSound TxOutcome.fails_after_fold _ _ folds after
