-- ===== src/Tests/Paths.antt =====
-- The theorems on run paths, at the paths of docs/design.
use pointlock.Ir.RunPath.Canonical.{
  is_canonical, fits, advance, new_segment, names_flow, names_step, is_key,
}
use pointlock.Ir.RunPath.RoundTrip.{parse_run_path-render}
use pointlock.Ir.RunPath.Grammar.{
  parse_run_path-render_iff, parse_run_path-canonical, parse_run_path-render-parse,
}
use pointlock.Ir.RunPath.Fuel.{parse_run_path-ne-stuck}
use pointlock.Prelude.{
  ◌≡◌, ◌≢◌, ◌↔◌, true, refl, List, [], ◌∷◌, some, ok, err, codes, decimal, digits_of, split_once,
  split, byte_len, utf8_width, is_digit, is_letter, is_lower, span, strip_prefix, parse_u64,
  push_digit, push_digits,
}
use pointlock.Ir.Vocab.{Phase}
use pointlock.Ir.RunPath.Frames.{
  ParsedPathFrame, render_parsed_run_path, render_loop, flush_pending_call, render_frame,
  flow_slash, phase_wire_name,
}
use pointlock.Ir.RunPath.Parse.{
  PathFault, parse_run_path, parse_root, parse_name_at_hash, is_hash_char, anchor_call,
  assertion_suffix, attempt_number, attempt_suffix, is_id_char, iteration_body, iteration_frame,
  iteration_suffix, parse_call_segment, parse_segment, parse_segments, parse_step_segment,
  parse_suffixes, phase_suffix, parse_phase_name, segment_id, suffix,
}
use pointlock.Ir.Ids.{
  flow_id, is_ident_start, is_ident_continue, is_flow_continue, assert_id, is_step_segment,
  is_step_segment_continue, step_id,
}

-- `purchase#2:act/call→login@9c2e77b0`, below a flow root, and then a keyed iteration.
abbrev retried_call : List ParsedPathFrame
retried_call =
    ParsedPathFrame.flow (codes "checkout") (codes "a1f3c9d2")
    ∷ ParsedPathFrame.call (some (codes "purchase")) (codes "login") (codes "9c2e77b0")
    ∷ ParsedPathFrame.attempt 2
    ∷ ParsedPathFrame.phase Phase.act
    ∷ ParsedPathFrame.step (codes "enter:field")
    ∷ ParsedPathFrame.iteration 12 (some (codes "a:b"))
    ∷ ParsedPathFrame.attempt 3
    ∷ ParsedPathFrame.assertion (codes "tokenVisible")
    ∷ []

retried_runs :
    (render_parsed_run_path retried_call
      ≡ codes
          "checkout@a1f3c9d2/purchase#2:act/call→login@9c2e77b0/enter:field[12:a:b]#3!tokenVisible")
    × (parse_run_path (render_parsed_run_path retried_call) ≡ ok retried_call)
unfolding render_parsed_run_path render_loop flush_pending_call render_frame flow_slash decimal
    digits_of phase_wire_name parse_run_path parse_root parse_name_at_hash split_once split byte_len
    utf8_width is_hash_char is_digit flow_id is_ident_start is_ident_continue is_letter is_lower
    is_flow_continue assert_id is_step_segment is_step_segment_continue step_id anchor_call
    assertion_suffix attempt_number attempt_suffix is_id_char iteration_body iteration_frame
    iteration_suffix parse_call_segment parse_segment parse_segments parse_step_segment
    parse_suffixes phase_suffix parse_phase_name segment_id suffix span strip_prefix parse_u64
    push_digit push_digits
retried_runs = (refl, refl)

retried_is_canonical : is_canonical retried_call ≡ true
unfolding is_canonical fits advance new_segment names_flow names_step is_key flow_id step_id
    assert_id is_ident_start is_ident_continue is_letter is_lower is_digit is_flow_continue
    is_step_segment is_step_segment_continue split byte_len utf8_width is_hash_char strip_prefix
retried_is_canonical = refl

parse_run_path-render_example :
    parse_run_path (render_parsed_run_path retried_call) ≡ ok retried_call
parse_run_path-render_example = parse_run_path-render retried_call retried_is_canonical

parse_run_path-render_iff_example :
    (parse_run_path (render_parsed_run_path retried_call) ≡ ok retried_call)
    ↔ (is_canonical retried_call ≡ true)
parse_run_path-render_iff_example = parse_run_path-render_iff retried_call

parse_run_path-canonical_example : is_canonical retried_call ≡ true
parse_run_path-canonical_example =
    parse_run_path-canonical (render_parsed_run_path retried_call) retried_call retried_runs.1

-- An attempt number with a leading zero is accepted, and its rendering has none.
abbrev zeros : List ParsedPathFrame
zeros =
    ParsedPathFrame.flow (codes "f") (codes "a1f3c9d2")
    ∷ ParsedPathFrame.step (codes "s")
    ∷ ParsedPathFrame.attempt 7
    ∷ []

leading_zero :
    (parse_run_path (codes "f@a1f3c9d2/s#007") ≡ ok zeros)
    × (render_parsed_run_path zeros ≡ codes "f@a1f3c9d2/s#7")
unfolding render_parsed_run_path render_loop flush_pending_call render_frame flow_slash decimal
    digits_of phase_wire_name parse_run_path parse_root parse_name_at_hash split_once split byte_len
    utf8_width is_hash_char is_digit flow_id is_ident_start is_ident_continue is_letter is_lower
    is_flow_continue assert_id is_step_segment is_step_segment_continue step_id anchor_call
    assertion_suffix attempt_number attempt_suffix is_id_char iteration_body iteration_frame
    iteration_suffix parse_call_segment parse_segment parse_segments parse_step_segment
    parse_suffixes phase_suffix parse_phase_name segment_id suffix span strip_prefix parse_u64
    push_digit push_digits
leading_zero = (refl, refl)

parse_run_path-render-parse_example : parse_run_path (render_parsed_run_path zeros) ≡ ok zeros
parse_run_path-render-parse_example =
    parse_run_path-render-parse (codes "f@a1f3c9d2/s#007") zeros leading_zero.0

parse_run_path-ne-stuck_example :
    parse_run_path (codes "f@a1f3c9d2/s#1:act[0:k]!a")
    ≢ err (record { offset = 11; fault = PathFault.stuck })
parse_run_path-ne-stuck_example = parse_run_path-ne-stuck (codes "f@a1f3c9d2/s#1:act[0:k]!a") 11

-- A number that is out of range.
overflow :
    parse_run_path (codes "f@a1f3c9d2/s#18446744073709551616")
    ≡ err (record { offset = 11; fault = PathFault.attempt_out_of_range })
unfolding render_parsed_run_path render_loop flush_pending_call render_frame flow_slash decimal
    digits_of phase_wire_name parse_run_path parse_root parse_name_at_hash split_once split byte_len
    utf8_width is_hash_char is_digit flow_id is_ident_start is_ident_continue is_letter is_lower
    is_flow_continue assert_id is_step_segment is_step_segment_continue step_id anchor_call
    assertion_suffix attempt_number attempt_suffix is_id_char iteration_body iteration_frame
    iteration_suffix parse_call_segment parse_segment parse_segments parse_step_segment
    parse_suffixes phase_suffix parse_phase_name segment_id suffix span strip_prefix parse_u64
    push_digit push_digits
overflow = refl
