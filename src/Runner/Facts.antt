-- ===== src/Runner/Facts.antt =====
-- crates/pointlock-runner/src/align.rs, 445-556, and engine.rs, 590-609: the facts that a resume takes
-- from the ledger.
use pointlock.Prelude.{ℕ, String, Bool, Option, List, []}
use pointlock.Ir.Vocab.{Hash, HumanMode, HumanPurpose, VerdictStatus}
use pointlock.Ir.Json.{Value}
use pointlock.Ir.RunPath.{RunPath}
use pointlock.Ir.Record.{ActionOutcome, EventCursor}

-- Which session dispatched an intent.
pub data IssuingCursor : Type 0 where
  from_binding unknown : IssuingCursor
  known : EventCursor → IssuingCursor

pub record HumanRequestFact : Type 0 where
  pub request_id : String
  pub run_path : RunPath
  pub purpose : HumanPurpose
  pub mode : Option HumanMode
  pub prompt : String
  pub presents : Value
  pub deadline_at_ms : Option ℕ
  pub final_response : Option Value
  pub final_actor : Option String

pub record SettledFact : Type 0 where
  pub outcome : ActionOutcome

pub record Harvest : Type 0 where
  pub intent_issuing : List (String × IssuingCursor)
  pub intent_chain_index : List (String × ℕ)
  pub raw_output : List (String × Value)
  pub after_observation : List (String × String)
  pub before_observation : List (String × String)
  pub max_attempt : List (String × ℕ)
  pub verdict_seq : List (String × ℕ)
  pub intent_path : List (String × RunPath)
  pub entered_effect_hash : List (String × Hash)
  pub entered_inputs : List (String × Value)
  pub entered_seq : List (String × ℕ)
  pub open_spans : List RunPath
  pub live_frames : List RunPath
  pub human_requests : List (String × HumanRequestFact)
  pub settled : List (String × SettledFact)
  pub recorded_verdicts : List (String × (VerdictStatus × Bool))
  pub hook_triggers : List (String × ℕ)

-- The facts and the two local variables of the loop.
pub record Scan : Type 0 where
  pub facts : Harvest
  pub request_index : List (String × String)
  pub issuing : IssuingCursor

abbrev pub no_facts : Scan
no_facts = record {
  facts = record {
    intent_issuing = [];
    intent_chain_index = [];
    raw_output = [];
    after_observation = [];
    before_observation = [];
    max_attempt = [];
    verdict_seq = [];
    intent_path = [];
    entered_effect_hash = [];
    entered_inputs = [];
    entered_seq = [];
    open_spans = [];
    live_frames = [];
    human_requests = [];
    settled = [];
    recorded_verdicts = [];
    hook_triggers = [];
  };
  request_index = [];
  issuing = IssuingCursor.from_binding;
}
