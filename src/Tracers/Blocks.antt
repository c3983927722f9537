-- ===== src/Tracers/Blocks.antt =====
-- Basic blocks: DataWithTrace of dyengine/tracers/nested.go with the part of CaptureState that
-- NestedCallTracerWithTrace adds, and the blocks and tests of dyengine/tracers/location.go.
-- `none` is a panic. Previous and Next of a block, which nothing reads, are left out.
pub mod Cover
pub mod Runs
mod Tests
use erebus_redgiant.Prelude.{
  ℕ, Bool, true, false, ◌&&◌, ◌||◌, not, ◌==◌, leb, Option, none, some, List, [], ◌∷◌, ◌++◌,
  if◌then◌else◌, Address,
}
use erebus_redgiant.Tracers.Call.{Location}
use erebus_redgiant.Tracers.Nested.{
  op_create, op_call, op_callcode, op_delegatecall, op_create2, op_staticcall,
}

abbrev pub op_stop : ℕ
op_stop = 0x00

abbrev pub op_jump : ℕ
op_jump = 0x56

abbrev pub op_jumpi : ℕ
op_jumpi = 0x57

abbrev pub op_jumpdest : ℕ
op_jumpdest = 0x5b

abbrev pub op_return : ℕ
op_return = 0xf3

abbrev pub op_revert : ℕ
op_revert = 0xfd

abbrev pub op_invalid : ℕ
op_invalid = 0xfe

abbrev pub op_selfdestruct : ℕ
op_selfdestruct = 0xff

abbrev tails : List ℕ
tails =
    op_jump ∷ op_jumpi ∷ op_return ∷ op_stop ∷ op_invalid ∷ op_revert ∷ op_selfdestruct ∷ op_create
    ∷ op_create2 ∷ op_call ∷ op_callcode ∷ op_delegatecall ∷ op_staticcall ∷ []

unfoldable pub one_of : ℕ → List ℕ → Bool
one_of op [] = false
one_of op (o ∷ os) = (op == o) || one_of op os

unfoldable pub is_basic_block_tail : Location → Bool
unfolding one_of
is_basic_block_tail loc = one_of loc.opcode tails

-- The last location is nil before the first one.
unfoldable pub is_basic_block_head : Option Location → Location → Bool
is_basic_block_head none loc = true
is_basic_block_head (some last) loc = is_basic_block_tail last || (loc.opcode == op_jumpdest)

pub record TraceBlock : Type 0 where
  pub content : List Location
  pub state_addr : Address
  pub code_addr : Address

-- `path` is the last one of the paths, and `paths` are those before it.
pub record DataWithTrace : Type 0 where
  pub loc : Option Location
  pub blk : Option TraceBlock
  pub paths : List (List TraceBlock)
  pub path : List TraceBlock

abbrev pub new_data_with_trace : DataWithTrace
new_data_with_trace = record { loc = none; blk = none; paths = []; path = [] }

-- The current block, where there is one, joins the last path.
abbrev pub append_basic_block : Option TraceBlock → DataWithTrace → DataWithTrace
append_basic_block none d = d
append_basic_block (some b) d = record d { path = d.path ++ b ∷ [] }

abbrev pub with_location : TraceBlock → Location → TraceBlock
with_location b loc = record b { content = b.content ++ loc ∷ [] }

-- A new block of the location becomes the current one.
abbrev pub start_block : Location → Address → Address → DataWithTrace → DataWithTrace
start_block loc state_addr code_addr d = record (append_basic_block d.blk d) {
  blk = some (record { content = loc ∷ []; state_addr = state_addr; code_addr = code_addr });
  loc = some loc;
}

-- The current block ends with the location.
abbrev pub end_block : Location → TraceBlock → DataWithTrace → DataWithTrace
end_block loc b d = record (append_basic_block (some (with_location b loc)) d) {
  blk = none;
  loc = some loc;
}

abbrev pub go_on : Location → TraceBlock → DataWithTrace → DataWithTrace
go_on loc b d = record d { blk = some (with_location b loc); loc = some loc }

-- CaptureState after BasicNestedCallTracer, which has set the location. `failed` is err != nil.
unfoldable pub capture_location :
    Bool → Location → Address → Address → DataWithTrace → Option DataWithTrace
capture_location true loc state_addr code_addr d = elim d.blk [
  | none ↦ some d
  | some b ↦ some (record (append_basic_block (some (with_location b loc)) d) { blk = none })
]
capture_location false loc state_addr code_addr d =
    if is_basic_block_head d.loc loc
    then some (start_block loc state_addr code_addr d)
    else elim d.blk [
      | none ↦ none
      | some b ↦ if is_basic_block_tail loc then some (end_block loc b d) else some (go_on loc b d)
    ]

-- CaptureEnter, of the data of the caller.
abbrev pub next_trace : DataWithTrace → DataWithTrace
next_trace d = record d { paths = d.paths ++ d.path ∷ []; path = [] }
