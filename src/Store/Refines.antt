-- ===== src/Store/Refines.antt =====
-- store.rs: `append_event` against its specification, the transaction that refolds the whole log and
-- uses no cache.
use pointlock.Prelude.{
  ℕ, suc, true, ◌≡◌, refl, sym, ◌∙◌, ap, subst, String, Option, some, Result, ok, err, length, push,
  arith,
}
use pointlock.Ir.RunPath.{RunPath}
use pointlock.Ir.Wire.{carried_payload, reread_event, reread_event-carried}
use pointlock.Ir.RunLog.{RunLogPayload, RunLogEvent}
use pointlock.Store.Fold.State.{FoldState}
use pointlock.Store.Fold.Steps.{Folded}
use pointlock.Store.Fold.Apply.{fold_state}
use pointlock.Store.Db.{StoreError, RunRow, Tables, Store, TxOutcome}
use pointlock.Store.Append.{
  append_event, append_known, settle_tx, fold_cached, next_event, commit_event,
}
use pointlock.Store.Sound.{SoundAt, IsSound, max_seq-length, fold_cached-refolds}
use pointlock.Store.Preserve.{append_event-known}

-- The tables and the answer of an append to a known run, from the full refold of the grown log.
abbrev pub append_spec :
    Tables → RunRow → RunLogEvent → TxOutcome → Folded → Tables × Result ℕ StoreError
append_spec tables row event TxOutcome.fails_before_fold refolded = (tables, err StoreError.sqlite)
append_spec tables row event TxOutcome.commits (ok state) =
    (commit_event tables row event state, ok event.seq)
append_spec tables row event TxOutcome.fails_after_fold (ok state) = (tables, err StoreError.sqlite)
append_spec tables row event _ (err x) = (tables, err (StoreError.fold x))

abbrev pub seen : Store × Result ℕ StoreError → Tables × Result ℕ StoreError
seen out = (out.0.tables, out.1)

settle_tx-append_spec :
    (st : Store) (row : RunRow) (event : RunLogEvent) (entry : Option (ℕ × FoldState)) (r : Folded)
    → (seen (settle_tx st row event TxOutcome.commits (entry, r))
        ≡ append_spec st.tables row event TxOutcome.commits r)
      × (seen (settle_tx st row event TxOutcome.fails_after_fold (entry, r))
          ≡ append_spec st.tables row event TxOutcome.fails_after_fold r)
unfolding settle_tx
settle_tx-append_spec st row event entry (ok s) = (refl, refl)
settle_tx-append_spec st row event entry (err x) = (refl, refl)

append_known-append_spec :
    (st : Store) (row : RunRow) (event : RunLogEvent) (tx : TxOutcome) (r : Folded)
    → (fold_cached
        (st.fold_cache event.run_id)
        row.meta
        (push (st.tables.logs event.run_id) (reread_event event))
        event).1
      ≡ r
    → seen (append_known st row event tx) ≡ append_spec st.tables row event tx r
unfolding append_known
append_known-append_spec st row event TxOutcome.fails_before_fold r h = refl
append_known-append_spec st row event TxOutcome.commits r h =
    (settle_tx-append_spec st row event _ _).0
    ∙ ap (λ q. append_spec st.tables row event TxOutcome.commits q) h
append_known-append_spec st row event TxOutcome.fails_after_fold r h =
    (settle_tx-append_spec st row event _ _).1
    ∙ ap (λ q. append_spec st.tables row event TxOutcome.fails_after_fold q) h

-- In a sound store, and for an event that comes back from its row as it was written, what
-- `append_event` answers for a run in the table and what it leaves in the tables, however the
-- transaction fares, is what refolding the whole grown log, as it is read back, without the cache
-- gives; the event gets the number after the log's length.
pub append_event-refines :
    (st : Store) (run_id : String) (at_ms : ℕ) (run_path : RunPath) (payload : RunLogPayload)
    (tx : TxOutcome) (row : RunRow)
    → carried_payload payload ≡ true
    → IsSound st
    → st.tables.runs run_id ≡ some row
    → (seen (append_event st run_id at_ms run_path payload tx)
        ≡ append_spec st.tables row (next_event st.tables run_id at_ms run_path payload) tx (
            fold_state row.meta (
              push
                (st.tables.logs run_id)
                (reread_event (next_event st.tables run_id at_ms run_path payload)))))
      × ((next_event st.tables run_id at_ms run_path payload).seq
          ≡ suc (length (st.tables.logs run_id)))
append_event-refines st run_id at_ms run_path payload tx row carries sound known =
    let (state, good, agrees) =
      subst
        (λ o.
          SoundAt run_id o (st.tables.logs run_id) (st.tables.checkpoints run_id)
            (st.fold_cache run_id))
        known (sound run_id) in
    let e = next_event st.tables run_id at_ms run_path payload in
    let numbered : e.seq ≡ suc (length (st.tables.logs run_id)) =
      omega (arith, max_seq-length (st.tables.logs run_id) good.counted) in
    (
      ap seen (append_event-known st run_id at_ms run_path payload tx row known)
          ∙ append_known-append_spec st row e tx _ (
              subst
                (λ last.
                  (fold_cached (st.fold_cache run_id) row.meta (push (st.tables.logs run_id) last)
                    e).1
                  ≡ fold_state row.meta (push (st.tables.logs run_id) last))
                (sym (reread_event-carried e carries))
                (fold_cached-refolds (st.fold_cache run_id) row.meta (st.tables.logs run_id) state e
                  agrees good.counted good.folds (sym good.owner) numbered).0),
      numbered,
    )
