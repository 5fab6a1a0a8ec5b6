-- ===== src/Lib.antt =====
-- Pointlock runs device flows and keeps, for each run, an append-only ledger from which everything
-- it knows of the run can be folded again. This library models the parts that carry that promise.
--
-- Parts and files
--
--   Ir: crates/pointlock-ir. Vocab is vocab.rs; Record is record.rs and the wire types of runtime.rs;
--     RunLog is run_log.rs, one constructor for each of the seventeen events; Wire is what reading back
--     the stored JSON of events and views changes; RunPath is the frames of run_path.rs and their
--     derived equality; Json is serde_json's `Value`; Ids is the identifiers of primitives.rs whose
--     grammar the text of a path relies on.
--   Ir/RunPath: the text form of run_path.rs. Frames has `ParsedPathFrame` and `render_parsed_run_path`;
--     Parse has `parse_run_path` with each of its segments, suffixes and errors; Canonical says which
--     sequences of frames a text can hold. A text is the list of its code points, and the vector of frames
--     stands newest first while it is being read. Shown, Names, Suffixes, Pieces, Segments, Openings,
--     Joins, Sites and RoundTrip prove that a rendering is read back; Apart, Sound, Accepted, Anchors and
--     Grammar prove the other direction; Fuel has the end of the suffix loop.
--   Store/Fold: crates/pointlock-store/src/fold.rs. State has `RunMeta`, `FoldState` and `seed`;
--     Steps, Exits, Frames and Humans have one function per arm of `FoldState::apply`; Apply has `apply`
--     (the dispatch) and the loop of `fold_state`; Finish has `finish` and `fold_checkpoint`; Sites and
--     Attempts have the helpers at the end of that file. Tally, Ledger, Replay, Records, Evidence,
--     Intents, Quiet, Clean and Instances have the proofs.
--   Store: crates/pointlock-store/src/store.rs. Db has the tables and the errors; Append has `begin_run`,
--     `append_event` with its fold cache and `write_action_intent`; Verify has `events`, `revision`,
--     `rebuild_checkpoint` and `verify_checkpoint`; Shape and Respond have `validate_response_shape` and
--     `submit_human_response`; Equality has the derived equality of checkpoint views. Sound has the
--     invariant of a store; Commit, Preserve, Consistent, History, Refines, Decided, Arbitration,
--     Accepted and Progress have the proofs.
--   Expr: crates/pointlock-expr/src and crates/pointlock-ir/src/expr.rs. Syntax has expressions, JSON
--     types, arities and errors; Scope is `Scope::resolve` of scope.rs; Eval and Flags are eval.rs;
--     Check is `check` and Infer is `infer` of check.rs; Laws, Types, Dynamic, Clean and Soundness have
--     the proofs. A reference path is the list of its segments, and the arguments of a function stand
--     beside their values, of which the function looks only at those that the source evaluates.
--   Runner: crates/pointlock-runner/src/judge.rs. Judge has the folding of outcomes into step and flow
--     verdicts; Predicates has the projection of a step's output and the judgment of an expression; Rules
--     and Verdicts have the proofs. `Display` of values and errors is a parameter.
--   Runner, resume: crates/pointlock-runner/src/align.rs and the path helpers of engine.rs. Keys has
--     `instance_key`, `attempt_of` and `hook_trigger_key`; Facts has `Harvest`; Harvest has `harvest`,
--     one function per event; Descent has `live_frame_pins` and `is_instance_descendant`; Spans, Resume,
--     Waits and Watermark have the proofs.
--   Prelude has the shared types, tests, vectors, maps and results; Tests has concrete runs.
--
-- How the parts interact: the store appends an event in a transaction that folds the ledger (through
-- a cache of the last fold) and writes the folded view and the status beside the log; an event whose
-- fold fails is refused. A human response is arbitrated against the log and the stored view, then
-- appended. A resume harvests its facts from the same log that the store folds. A history is any list
-- of store calls, with the fate of each transaction, and restarts, which lose the cache and keep the
-- tables. A row of the log or of the checkpoints stands for what is read back of it, while the cached
-- fold takes the event in memory.
--
-- Conventions and bounds: a method that takes `&mut self` is a function from state to state, `?` is
-- the bind of `Result`. After an error of `apply` there is no state: the source drops the state that
-- it has half changed. A ledger number, an index and a time are unbounded here; the source has 64-bit
-- words, which one event at a time does not exhaust. All recursion is structural, so no fuel is used,
-- but for the digits of a printed number, where the number itself is enough, and for the suffixes of a
-- path segment, where its length is. A number in the text of a path is a `u64`, with the overflow check
-- of `str::parse`. The texts of shape errors are constructors.
--
-- What is taken as given: SQLite commits a transaction whole or not at all and gives back the text
-- that was written, and serde_json reads back the JSON that it wrote, where a present `null` of an
-- `Option<Value>` becomes absent and everything else comes back as it was, the floats of a `Value`
-- too (which serde_json promises to the last digit only with its feature float_roundtrip); so the
-- `Corrupt` and `Serde` errors do not arise. A float is finite: the type of a screen scale factor
-- in the source admits others, which JSON has no text for; `quarantine_unpersistable` and the
-- recording of observations in engine.rs keep them out of the events. `jsonschema::validate` is
-- the parameter `validate`, and the crates regex and serde_json_path and the comparison of numbers
-- as floats are the record `Engines`. The fresh UUID of `begin_run` is an argument.
--
-- Not modelled: localized evidence files, run lists and projections of the store; in the runner the
-- engine, the classification of steps that follows the harvest, and the observation chain; the
-- compiler; providers, vision and the command lines, which are input and output; the TypeScript
-- packages.
pub mod Prelude
pub mod Ir
pub mod Store
pub mod Expr
pub mod Runner
pub mod Tests
