-- ===== src/Storage/Tests.antt =====
-- Runs of store/internal/storagepb/convert.go, and its theorems at them. A stamp is a number and the
-- wire format knows one message.
use durable.Base.{ℕ, ◌≡◌, refl, true, false, none, some, [], ◌∷◌, contains}
use durable.Kernel.{phase_forward, phase_done, no_mode, outcome_failure}
use durable.Driver.{Cursor, RunRecord, no_op, op_failed, op_succeeded, compact_terminal}
use durable.Storage.Messages.{PbCursor, PbTerminal}
use durable.Storage.{Stamps, Codec, ok, marshal}
use durable.Storage.Fields.{AreExact, settled_await}
use durable.Storage.Records.{
  cursor_to_proto, terminal_to_proto, marshal_cursor, unmarshal_cursor, marshal_terminal,
  unmarshal_terminal_into,
}
use durable.Storage.Roundtrip.{Inverts, cursor-roundtrip}
use durable.Storage.TerminalRow.{no_run, row_output, terminal-roundtrip}

instance abbrev number_stamps : Stamps ℕ
number_stamps = record { make = λ t. t; as_time = λ t. t }

number_stamps-AreExact : AreExact number_stamps
number_stamps-AreExact = record { as_time-make = λ t. refl }

abbrev parked : Cursor
parked = record {
  phase = phase_forward;
  step_id = "wait";
  attempts = 3;
  awaiting =
      some (record {
        mode = no_mode;
        targets = "r2" ∷ "r3" ∷ [];
        deadline = 20;
        cancel_cascade = true;
      });
  awaited = none;
  next_attempt_at = 0;
  last_error = "";
  last_reason = "";
  last_error_at = 0;
  updated_at = 6;
  started_at = 5;
}

-- The wire format of the one message.
abbrev cursor_wire : Codec (PbCursor ℕ)
cursor_wire = record {
  encode = λ x. some (8 ∷ 1 ∷ []);
  decode = λ b. some (cursor_to_proto parked);
}

cursor_wire-Inverts : Inverts cursor_wire (cursor_to_proto parked)
cursor_wire-Inverts b e = refl

cursor-roundtrip_example :
    unmarshal_cursor ℕ ⦃c = cursor_wire⦄ (8 ∷ 1 ∷ [])
    ≡ ok (record parked { awaiting = settled_await parked.awaiting })
unfolding marshal_cursor marshal
cursor-roundtrip_example =
    cursor-roundtrip number_stamps-AreExact parked (8 ∷ 1 ∷ []) ⦃w = cursor_wire⦄
      cursor_wire-Inverts refl

abbrev ended : RunRecord
ended = record no_run {
  run_id = "r1";
  pipeline_id = "deploy";
  resource_id = "host";
  annotations = ("team", "core") ∷ [];
  input = 4 ∷ [];
  phase = phase_done;
  steps =
      (
        "build",
        record {
          forward = record no_op { status = op_succeeded; order = 1 };
          unwind = record no_op { status = op_failed; attempts = 2; order = 3 };
        },
      )
      ∷ [];
  output = 9 ∷ [];
  outcome = some outcome_failure;
  created_at = 1;
  updated_at = 8;
  started_at = 2;
}

abbrev terminal_wire : Codec (PbTerminal ℕ)
terminal_wire = record {
  encode = λ x. some (10 ∷ []);
  decode = λ b. some (terminal_to_proto ended outcome_failure false);
}

terminal_wire-Inverts : Inverts terminal_wire (terminal_to_proto ended outcome_failure false)
terminal_wire-Inverts b e = refl

terminal-roundtrip_example :
    unmarshal_terminal_into ℕ ⦃c = terminal_wire⦄ (10 ∷ []) no_run
    ≡ ok (record (compact_terminal ended) { output = row_output false ended }, false)
unfolding marshal_terminal marshal contains
terminal-roundtrip_example =
    terminal-roundtrip number_stamps-AreExact ended false (10 ∷ []) outcome_failure
      ⦃w = terminal_wire⦄ terminal_wire-Inverts (refl, tt) refl refl
