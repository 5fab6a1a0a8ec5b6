-- ===== src/Store/Consistent.antt =====
-- The runtime self-check of a sound store.
use pointlock.Prelude.{
  ℕ, suc, ◌+◌, ◌≡◌, ◌∙◌, String, true, some, List, [], ◌∷◌, ok, ◌==◌, ==_iff, length, arith,
}
use pointlock.Ir.RunLog.{RunLogEvent}
use pointlock.Store.Fold.State.{FoldState}
use pointlock.Store.Fold.Finish.{finish, fold_checkpoint}
use pointlock.Store.Equality.{view_eq_refl, run_status_eq_refl}
use pointlock.Store.Db.{RunRow, Store}
use pointlock.Store.Verify.{rebuild_checkpoint, revision, verify_checkpoint, head_seq}
use pointlock.Store.Sound.{IsCounted, max_seq-length, IsSoundRow}

head_seq-counted :
    (n : ℕ) (e : RunLogEvent) (log : List RunLogEvent)
    → IsCounted n (e ∷ log)
    → head_seq (e ∷ log) ≡ suc (n + length log)
head_seq-counted n e [] c = rw c.0 (omega arith)
head_seq-counted n e (f ∷ log) c = head_seq-counted (suc n) f log c.1 ∙ omega arith

-- What the store answers for a run with a log, from the folded state of the log.
pub record Answers (st : Store) (run_id : String) (state : FoldState) (size : ℕ) : Type 0 where
  pub verified : verify_checkpoint st run_id ≡ ok (finish state).view
  pub rebuilt : rebuild_checkpoint st run_id ≡ ok (finish state).view
  pub materialized : st.tables.checkpoints run_id ≡ some (size, (finish state).view)
  pub numbered : revision st run_id ≡ ok size

pub sound_row-Answers :
    (st : Store) (run_id : String) (row : RunRow) (e : RunLogEvent) (log : List RunLogEvent)
    (state : FoldState)
    → st.tables.runs run_id ≡ some row
    → st.tables.logs run_id ≡ e ∷ log
    → IsSoundRow run_id row (e ∷ log) (st.tables.checkpoints run_id) state
    → Answers st run_id state (suc (length log))
unfolding verify_checkpoint rebuild_checkpoint revision fold_checkpoint
sound_row-Answers st run_id row e log state known logged good = record {
  verified = ground (
    arith,
    head,
    good.folds,
    view_eq_refl (finish state).view,
    run_status_eq_refl (finish state).status,
  );
  rebuilt = ground (arith, good.folds);
  materialized = good.materialized;
  numbered = ground (arith, max_seq-length (e ∷ log) good.counted);
}
  where
    head : (suc (length log) == head_seq (e ∷ log)) ≡ true
    head =
        (==_iff (suc (length log)) (head_seq (e ∷ log))).1
          (omega (arith, head_seq-counted 0 e log good.counted))
