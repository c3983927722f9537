-- ===== src/Tracers/Blocks/Tests.antt =====
-- A run of the blocks of dyengine/tracers/nested.go.
use erebus_redgiant.Prelude.{ℕ, ◌≡◌, refl, some, List, [], ◌∷◌, ◌++◌, length}
use erebus_redgiant.Tracers.Blocks.{
  DataWithTrace, new_data_with_trace, is_basic_block_tail, is_basic_block_head, one_of,
  capture_location, op_jumpi, op_jumpdest, op_stop,
}
use erebus_redgiant.Tracers.Nested.{op_call}
use erebus_redgiant.Tracers.Blocks.Cover.{covered, current, joined, blocks, AllBlocks}
use erebus_redgiant.Tracers.Blocks.Runs.{Event, run, run_covers, reported, entries}

abbrev at : ℕ → ℕ → Event
at pc op =
    Event.operation
      (record {
        pos = record { position = []; compact_position = [] };
        code_addr = 8;
        pc = pc;
        opcode = op;
        gas_available = 100;
        gas_used = 1;
        index = pc;
      })
      8 8

-- A jump, a call and a stop, which are tails, with other operations between them.
abbrev some_events : List Event
some_events =
    at 0 0x60
    ∷ at 2 op_jumpi
    ∷ at 3 0x60
    ∷ at 5 op_call
    ∷ Event.enter
    ∷ at 6 0x50
    ∷ at 7 op_jumpdest
    ∷ at 8 op_stop
    ∷ []

run_covers_example :
    (d : DataWithTrace) × (run some_events new_data_with_trace ≡ some d)
    × AllBlocks (blocks d)
    × (covered (blocks d) ++ current d.blk ≡ reported some_events)
    × (length d.paths ≡ entries some_events)
run_covers_example = run_covers some_events

-- The last block of a call is lost where it is one operation: STOP after JUMPI.
lone_stop :
    (d : DataWithTrace) × (run (at 0 0x60 ∷ at 2 op_jumpi ∷ at 3 op_stop ∷ []) new_data_with_trace
      ≡ some d)
    × (length (blocks d) ≡ 1)
unfolding run capture_location is_basic_block_head is_basic_block_tail one_of joined
lone_stop = (_, refl, refl)
