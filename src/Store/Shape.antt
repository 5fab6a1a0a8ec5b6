-- ===== src/Store/Shape.antt =====
-- store.rs, 762-877: the shape of a human response. The JSON Schema validator is a library: it is
-- the parameter `validate`.
use pointlock.Prelude.{
  String, Bool, true, false, not, ◌&&◌, ◌||◌, Option, none, some, List, [], ◌∷◌, Result, ok, err,
  if◌then◌else◌, str_eq, any,
}
use pointlock.Ir.Vocab.{HumanMode, HumanPurpose}
use pointlock.Ir.Json.{Value, Fields, get_field, as_str}
use pointlock.Ir.RunLog.{HumanRequest}
use pointlock.Store.Db.{ShapeError}

-- The field that carries the answer, and whether it is a free input; `none` is the mode-less step.
unfoldable pub value_key : HumanPurpose → Option HumanMode → Option (String × Bool)
value_key HumanPurpose.supervision mode = some ("decision", false)
value_key HumanPurpose.step (some HumanMode.confirm) = some ("decision", false)
value_key HumanPurpose.step (some HumanMode.judge) = some ("status", false)
value_key HumanPurpose.step (some HumanMode.provide_input) = some ("input", true)
value_key HumanPurpose.step (some HumanMode.repair_world) = some ("decision", false)
value_key HumanPurpose.step none = none

-- Every field is the expected one or the note.
abbrev pub only_keys : String → Fields → Bool
only_keys key Fields.end_fields = true
only_keys key (Fields.field name value rest) =
    (str_eq name key || str_eq name "note") && only_keys key rest

abbrev pub is_string : Value → Bool
is_string (Value.string text) = true
is_string _ = false

-- An absent note is fine.
abbrev pub note_fits : Option Value → Bool
note_fits none = true
note_fits (some note) = is_string note

abbrev pub member : String → List String → Bool
member label labels = any (λ candidate. str_eq candidate label) labels

-- Whether the declared subset, if there is one, has the label.
abbrev pub in_subset : Option (List String) → String → Bool
in_subset none label = true
in_subset (some subset) label = member label subset

abbrev pub declared_or_base : Option (List String) → List String → List String
declared_or_base (some declared) base = declared
declared_or_base none base = base

-- The labels that the purpose and mode admit.
unfoldable pub label_fits : HumanPurpose → Option HumanMode → Option (List String) → String → Bool
label_fits HumanPurpose.supervision mode decisions label =
    member label ("proceed" ∷ "abort" ∷ "suspend" ∷ [])
label_fits HumanPurpose.step (some HumanMode.confirm) decisions label =
    member label (declared_or_base decisions [])
label_fits HumanPurpose.step (some HumanMode.judge) decisions label =
    member label ("pass" ∷ "fail" ∷ "unknown" ∷ []) && in_subset decisions label
label_fits HumanPurpose.step (some HumanMode.repair_world) decisions label =
    member label (declared_or_base decisions ("done" ∷ "cannotRepair" ∷ []))
label_fits HumanPurpose.step _ decisions label = false

abbrev pub Checked : Type 0
Checked = Result (Unit {0}) ShapeError

module _ (validate : Value → Value → Bool) where
  -- `provideInput`: the input against the request's schema.
  unfoldable pub check_input : Option Value → Value → Checked
  check_input none value = err ShapeError.no_output_schema
  check_input (some schema) value =
      if validate schema value then ok tt else err ShapeError.schema_failed

  unfoldable pub check_label :
      HumanPurpose → Option HumanMode → Option (List String) → Option String → Checked
  unfolding label_fits
  check_label purpose mode decisions none = err ShapeError.not_a_string
  check_label purpose mode decisions (some label) =
      if label_fits purpose mode decisions label then ok tt else err ShapeError.bad_label

  unfoldable pub check_value : HumanRequest → Bool → Option Value → Checked
  unfolding check_input check_label
  check_value request expects_input none = err ShapeError.missing_field
  check_value request true (some value) = check_input request.output_schema value
  check_value request false (some value) =
      check_label request.purpose request.mode request.decisions (as_str value)

  unfoldable pub check_fields : HumanRequest → Fields → Option (String × Bool) → Checked
  unfolding check_value
  check_fields request fields none = err ShapeError.no_mode
  check_fields request fields (some (key, expects_input)) =
      if not (only_keys key fields)
      then err ShapeError.unexpected_field
      else if not (note_fits (get_field "note" fields))
      then err ShapeError.note_not_a_string
      else check_value request expects_input (get_field key fields)

  -- `validate_response_shape`.
  unfoldable pub validate_response_shape : HumanRequest → Value → Checked
  unfolding check_fields value_key
  validate_response_shape request (Value.object fields) =
      check_fields request fields (value_key request.purpose request.mode)
  validate_response_shape request _ = err ShapeError.not_an_object
