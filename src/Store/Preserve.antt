-- ===== src/Store/Preserve.antt =====
-- store.rs: every operation of the store keeps it sound.
use pointlock.Prelude.{
  ℕ, ◌≡◌, inl, inr, refl, sym, subst, String, Option, none, some, List, [], true, Result, ok, err,
  update, Option-cases, arith,
}
use pointlock.Ir.Record.{CheckpointView}
use pointlock.Ir.RunPath.{RunPath}
use pointlock.Ir.Wire.{carried_payload}
use pointlock.Ir.RunLog.{RunLogPayload, RunLogEvent}
use pointlock.Store.Fold.State.{RunStatus, FoldState, seed}
use pointlock.Store.Fold.Apply.{fold_state, fold_from}
use pointlock.Store.Fold.Finish.{finish}
use pointlock.Store.Db.{StoreError, RunRow, Store, TxOutcome, NewRun, empty_store, reopen}
use pointlock.Store.Append.{begin_run, next_event, append_known, append_event, new_meta, new_run_id}
use pointlock.Store.Sound.{max_seq-length, SoundAt, IsSound}
use pointlock.Store.Commit.{append_known-IsSound, IsSound-runs}

pub append_event-known :
    (st : Store) (run_id : String) (at_ms : ℕ) (run_path : RunPath) (payload : RunLogPayload)
    (tx : TxOutcome) (row : RunRow)
    → st.tables.runs run_id ≡ some row
    → append_event st run_id at_ms run_path payload tx
      ≡ append_known st row (next_event st.tables run_id at_ms run_path payload) tx
unfolding append_event
append_event-known st run_id at_ms run_path payload tx row known = rw (known, append_event)

pub append_event-unknown :
    (st : Store) (run_id : String) (at_ms : ℕ) (run_path : RunPath) (payload : RunLogPayload)
    (tx : TxOutcome)
    → st.tables.runs run_id ≡ none
    → append_event st run_id at_ms run_path payload tx ≡ (st, err (StoreError.unknown_run run_id))
unfolding append_event
append_event-unknown st run_id at_ms run_path payload tx missing = rw (missing, append_event)

pub append_event-IsSound :
    (st : Store) (run_id : String) (at_ms : ℕ) (run_path : RunPath) (payload : RunLogPayload)
    (tx : TxOutcome)
    → carried_payload payload ≡ true
    → IsSound st
    → IsSound (append_event st run_id at_ms run_path payload tx).0
append_event-IsSound st run_id at_ms run_path payload tx carries sound =
    elim (Option-cases (st.tables.runs run_id)) [
      | inl missing ↦
          subst (λ (out : Store × Result ℕ StoreError). IsSound out.0)
            (sym (append_event-unknown st run_id at_ms run_path payload tx missing)) sound
      | inr (row, known) ↦
          let (state, good, agrees) =
            subst
              (λ o.
                SoundAt run_id o (st.tables.logs run_id) (st.tables.checkpoints run_id)
                  (st.fold_cache run_id))
              known (sound run_id) in
          subst (λ (out : Store × Result ℕ StoreError). IsSound out.0)
            (sym (append_event-known st run_id at_ms run_path payload tx row known))
            (append_known-IsSound st sound row (next_event st.tables run_id at_ms run_path payload)
              state known good agrees
              (omega (arith, max_seq-length (st.tables.logs run_id) good.counted)) carries tx)
    ]

begin_run-known :
    (st : Store) (new_run : NewRun) (generated : String) (row : RunRow)
    → st.tables.runs (new_run_id new_run.run_id generated) ≡ some row
    → begin_run st new_run generated
      ≡ (st, err (StoreError.duplicate_run (new_run_id new_run.run_id generated)))
unfolding begin_run
begin_run-known st new_run generated row known = rw known

abbrev begun : Store → String → NewRun → Store
begun st run_id new_run = record st {
  tables = record (st.tables) {
    runs =
        update st.tables.runs run_id
          (some (record { meta = new_meta run_id new_run; status = RunStatus.running }));
  };
}

begin_run-fresh :
    (st : Store) (new_run : NewRun) (generated : String)
    → st.tables.runs (new_run_id new_run.run_id generated) ≡ none
    → begin_run st new_run generated ≡ (
      begun st (new_run_id new_run.run_id generated) new_run,
      ok (new_run_id new_run.run_id generated),
    )
unfolding begin_run
begin_run-fresh st new_run generated missing = rw (missing, begin_run)

-- A new run folds to its seed.
seed-SoundAt :
    (run_id : String) (new_run : NewRun)
    → SoundAt run_id
        (some (record { meta = new_meta run_id new_run; status = RunStatus.running }))
        []
        none
        none
unfolding fold_state fold_from finish seed
seed-SoundAt run_id new_run = (
  seed (new_meta run_id new_run),
  record {
    owner = refl;
    counted = tt;
    folds = refl;
    status = refl;
    clean = (refl, refl);
    materialized = refl;
  },
  tt,
)

dropped :
    (run_id : String) (row : Option RunRow) (log : List RunLogEvent)
    (checkpoint : Option (ℕ × CheckpointView)) (entry : Option (ℕ × FoldState))
    → SoundAt run_id row log checkpoint entry
    → SoundAt run_id row log checkpoint none
dropped run_id none log checkpoint entry (empty, unmade, _) = (empty, unmade, refl)
dropped run_id (some row) log checkpoint entry (state, good, _) = (state, good, tt)

pub begin_run-IsSound :
    (st : Store) (new_run : NewRun) (generated : String)
    → IsSound st
    → IsSound (begin_run st new_run generated).0
begin_run-IsSound st new_run generated sound =
    let run_id = new_run_id new_run.run_id generated in
    elim (Option-cases (st.tables.runs run_id)) [
      | inr (row, known) ↦
          subst (λ (out : Store × Result String StoreError). IsSound out.0)
            (sym (begin_run-known st new_run generated row known)) sound
      | inl missing ↦
          let (empty_log, no_checkpoint, no_entry) =
            subst
              (λ o.
                SoundAt run_id o (st.tables.logs run_id) (st.tables.checkpoints run_id)
                  (st.fold_cache run_id))
              missing (sound run_id) in
          subst (λ (out : Store × Result String StoreError). IsSound out.0)
            (sym (begin_run-fresh st new_run generated missing))
            (IsSound-runs st sound run_id
              (record { meta = new_meta run_id new_run; status = RunStatus.running })
              (rw (empty_log, no_checkpoint, no_entry) (seed-SoundAt run_id new_run)))
    ]

pub reopen-IsSound : (st : Store) → IsSound st → IsSound (reopen st)
reopen-IsSound st sound r =
    dropped r (st.tables.runs r) (st.tables.logs r) (st.tables.checkpoints r) (st.fold_cache r)
      (sound r)

pub empty_store-IsSound : IsSound empty_store
empty_store-IsSound r = (refl, refl, refl)
