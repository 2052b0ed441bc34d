-- ===== src/Lib.antt =====
-- Verification of durable, a library for durable linear pipelines with unwind semantics.
--
-- The engine (engine/engine.go) runs pipelines whose facts a store keeps. What to do next it
-- asks of the ledger (internal/ledger), which compares the facts with the current topology. Who
-- may run now it asks of two pools: the token pool (internal/tokenpool) limits concurrent
-- operations of a step, the run pool (internal/runpool) concurrent runs of a class. The
-- dispatcher (internal/dispatcher) gives each run one worker, with the signals of
-- internal/watchset; the join set (internal/joinset) wakes a run that waits for several others.
-- A run's record is kept by a store (store/mem and store/bbolt) behind the contract of
-- store/driver, with the identities, phases and parks of kernel; store/internal/storagepb turns
-- records into stored messages. Each is pure mechanism behind a mutex, so each operation is one
-- step of a sequential model; the dispatcher, which spawns goroutines, is a set of steps that
-- may interleave.
--
-- Modules:
-- - Base: shared names, Go's built-in map as an association list (Base.Map), the calls of
--   package slices (Base.Lists), the constraint comparable (Base.Keys).
-- - Ledger: internal/ledger/ledger.go. `next_forward` is NextForward, `next_unwind` is
--   NextUnwind; the loops are functions of their own. A map is visited in the order of its list,
--   so a statement for all lists is one for all iteration orders. Ledger.Order is sort.Strings.
--   Ledger.Decides is about the whole decision of NextForward. Ledger.Drive and Ledger.Rollback
--   run a pipeline by the ledger's decisions; their fuel is the length of the topology, which is
--   enough since each decision takes another step.
-- - Tokenpool: internal/tokenpool/tokenpool.go. `acquire`, `release`, `clear` are Acquire,
--   Release, Clear; the closure unpark and the three ways through Acquire are functions.
--   Tokenpool.Wakes adds the wakes on their way, as the callers owe them.
-- - Runpool: internal/runpool/runpool.go. `admit`, `acquire`, `hold`, `release`, `clear` are
--   Admit, Acquire, Hold, Release, Clear. Runpool.Line is about the sorted line,
--   Runpool.Invariant says what a valid pool is, Runpool.Runs runs a recovery and then a history
--   of calls. The class of a member is a function `class_of` of it, as a Run has one class.
-- - Joinset: internal/joinset/joinset.go. `register`, `mark`, `complete`, `done`, `remove`,
--   `len` are Register, Mark, Complete, Done, Remove, Len; each loop is a function of its own.
--   Joinset.Index is about the reverse index, Joinset.Invariant says what a consistent set is.
-- - Dispatcher: internal/dispatcher/dispatcher.go. A state has the dispatcher's maps and the
--   goroutines at their phases; `dispatch`, `start`, `rise`, `quit`, `enter`, `leave`, `clear`
--   are the stretches of Dispatch between its locks, channels and callbacks, `step` chooses one.
--   Dispatcher.Workers counts goroutines, Dispatcher.Owed and Dispatcher.Runs follow a dispatch.
-- - Watchset: internal/watchset/watchset.go. `watch`, `cancel`, `notify` are Watch, the function
--   it returns, and Notify; `arm`, `disarm`, `fire`, `len` are those of Signals, which the
--   dispatcher uses.
-- - Kernel: kernel/kernel.go. The identities, phases, parks, failures; `pending` is
--   Wake.Pending.
-- - Driver: store/driver/driver.go. The record of a run and its transitions; `compact_terminal`,
--   `step_of`, `unwind_failures`, `next_order`, `clone` are CompactTerminal, Step,
--   UnwindFailures, NextOrder, Clone. A pointer that may be nil is an Option.
-- - Memstore: store/mem/mem.go. `create_run`, `get_active_run_id`, `get_run`, `get_run_head`,
--   `apply_transition`, `reap_terminal`, `request_cancel`, `list_nonterminal`, `all_runs` are
--   the methods of Store. A result is a value, one of the two errors, or the panic of a nil
--   pointer. Memstore.Invariant says what a valid state is, Memstore.Spec and Memstore.Refines
--   compare the calls with the same calls on the records alone.
-- - Storage: store/internal/storagepb/convert.go; Storage.Messages is
--   proto/durable/storage/v1/storage.proto as Go sees it, Storage.Records the exported
--   functions. Time stamps (timestamppb.New, AsTime) and the wire format (proto.Marshal,
--   proto.Unmarshal) are the interfaces Stamps and Codec; what the theorems need of them is
--   AreExact and Inverts.
-- - Blobcache: store/bbolt/blobcache.go. `set_input`, `set_state`, `set_output`, `fill`,
--   `drop_run`, `lookup`, `input`, `state`, `output`, `has` are setInput, setState, setOutput,
--   fill, drop, lookup, input, state, output, has. Blobcache.Runs follows histories of calls
--   against the blobs on file.
-- - Bbolt: the keys of store/bbolt/store.go and the loops over a prefix of them. `slot_key_for`,
--   `run_prefix`, `active_key`, `op_prefix`, `op_key`, `phase_byte`, `split_active_key`,
--   `split_op_rest`, `expiry_key` are slotKeyFor, runPrefix, activeKey, opPrefix, opKey,
--   phaseByte, splitActiveKey, splitOpRest, expiryKey; the time of `expiry_key` is the number
--   that expiryPrefix writes. A bucket is the list of its rows in the order of their keys, and a
--   nested bucket is a row of it; `visited` is the loop from Seek by Next while the prefix
--   lasts; `find_op`, `delete_nonterminal_stage` are findOp, deleteNonterminalStage, the latter
--   without the errors of bbolt, which undo the transaction. Bbolt.Keys takes keys apart,
--   Bbolt.Order is about their order, Bbolt.Scan about findOp, Bbolt.Clear about
--   deleteNonterminalStage.
--
-- Numbers are natural numbers where the source cannot make them negative: the capacities of the
-- token pool are positive, since WithConcurrencyClass drops others. Times are natural numbers,
-- the zero time being 0; a waiting time is an integer. An order of operations is a uint32 and
-- wraps around; an attempt count is a uint64 that only counts up.
--
-- Not modelled: the engine (engine/engine.go) and its goroutines, which call these packages; the
-- store on bbolt (store/bbolt/store.go), but for its blob cache, the keys of rows, findOp and
-- deleteNonterminalStage, and the opening of stores; internal/dirtyset and internal/frozen; the
-- authoring API and pipeline definitions; the code generator, telemetry adapters, examples and
-- benchmarks, which keep no state of the engine. A mutex makes an operation one step, so the
-- models have no memory order.
pub mod Base
pub mod Tokenpool
pub mod Joinset
pub mod Watchset
pub mod Kernel
pub mod Memstore
pub mod Storage
pub mod Blobcache
pub mod Bbolt
pub mod Driver
pub mod Dispatcher
pub mod Ledger
pub mod Runpool
