-- ===== src/Lib.antt =====
-- erebus-redgiant searches Ethereum's history for front-running attacks. It replays the transactions
-- of a window of blocks over a state that is forked from the chain, traces each one, sums up what
-- it defines, uses, transfers and earns, and looks for pairs of transactions whose profits differ
-- with their order. This library models the core of that in seven parts.
--
-- * Tracers (dyengine/tracers): Position models call_position.go, the places of calls in the call
--   tree and their order; Call models the records of msgcall.go; Nested models
--   BasicNestedCallTracer of nested.go, each hook as a function on the state of the tracer, where
--   calls are indexes into a list of all calls. Blocks models how NestedCallTracerWithTrace cuts a
--   call into the basic blocks of location.go.
-- * Summary (analysis/summary): Profit models the kinds of profit of profit.go with Cmp and Merge,
--   Profits the lists of them with Add, Compact, Cmp and the sums of an account, State the state
--   variables of state.go and their lists. Transfer models the transfers of transfer.go with their
--   profits and their merge, which calls itself with its arguments turned round: on fuel, of which
--   2 is enough. Events models LogToTransfers of transfer.go. Calls models what summary.go puts
--   together over the tree of calls. Tracer models TxSummaryTracer of summary_tracer.go, the reads
--   of an opcode in Reads and the hooks in Hooks, on top of the tracer of calls; its tree of
--   summaries is read with fuel, of which the number of calls is enough.
-- * Contract (contract): Encoding models ParseEvent of encoding.go. Unpack and ReadInteger of
--   go-ethereum and the topics of the events are parameters.
-- * Chain (chain/readers): Cached models the five cached reads of cached.go, with the reader that
--   it caches, bigcache and the encodings as parameters.
-- * DataFlow (analysis/data_flow): Node models the nodes of value.go in a store, Stack the shadow
--   stack of stack.go, Memory the shadow memory of memory.go, word by word. The loops over
--   words run on fuel; the number of words that the range touches, and one more, is enough. Call
--   models call.go, storage.go and chain.go. Policy has the trackers of one analyzer and a monad of
--   state and panic, Policy/Flows the flow functions of policy.go in it, with the hooks that they
--   return as data, and Policy/Table which opcode has which. Tracer models DataFlowTracer of
--   tracer.go, on top of the tracer of calls, with the InnerData of a call by its pointer. The
--   stack effects come from go-ethereum's instruction table, a parameter.
-- * Engine (dyengine, dyengine/state): StateDb states what forked.go relies on of go-ethereum's
--   in-memory state and of the chain's reader, both parameters; Forked models forked.go, World the
--   state that it stands for. The slots of the access list, suicides, the committed storage and
--   Finalise are not modelled. Execution models ApplyTransactions of exevm.go down to the call of
--   the EVM, over any state; the hooks of the tracer are left out.
-- * Dataset (dataset): TxHistory models the positions, the sessions and the cache of
--   tx_history.go. SliceTxRecords runs on fuel; `need` of Slices, which counts the records and the
--   blocks on the way, is enough. Involved models which addresses a record involves and
--   when two records overlap; the records themselves come from the EVM. Searcher models the checks
--   of searcher.go: which transactions are tried as attack, victim and profit, and CheckOracle, with
--   the profits that the re-executions give as arguments.
--
-- Prelude holds what they share: numbers, lists, maps, signed integers for big.Int, and results
-- that are values, errors or panics. uint64 wraps at 2 ^ 64 where the code computes with
-- it; big.Int does not wrap. Panics are the value `panic` of Outcome, or `none`.
--
-- Not modelled: the EVM and its instruction set, the ABI decoding of go-ethereum, the databases, the
-- RPC and HTTP clients, serialization, the command line; and, so far, the addressing of storage and
-- the analysis of attacks.
mod Prelude
pub mod Tracers
pub mod Contract
pub mod Chain
pub mod Summary
pub mod DataFlow
pub mod Engine
pub mod Dataset
