-- ===== src/Lib.antt =====
-- QtRvSim, a simulator of RISC-V processors with a pipeline, caches and a branch predictor: the parts
-- of the machine (src/machine) that compute, modelled from its C++ sources.
--
-- The core decodes an instruction, lets the arithmetic units compute, asks the branch predictor for
-- the next address, tells it each result, and reaches the memory through caches, which ask a
-- replacement policy for the block to drop. An exception goes down the pipeline to its end, where the
-- core records it in the control registers and goes on at the handler. The parts modelled here are
-- plain state: each is a record, and each method of the class that changes it is a function from the
-- state to the state. The signals to the user interface, the log and the warnings are left out, and
-- a core always has its control registers.
--
-- - Base: the shared names, Boolean tests, lists indexed by native numbers (`std::vector`), bit
--   operations, and integers (`quot` and `rem` round to zero as C++ does; `signed w` reads a pattern
--   of `w` bits as a signed number and `wrap w` is the pattern of a number).
-- - Alu: src/machine/execute/alu.cpp (`alu_combined_operate`, `alu64_operate`, `alu32_operate`,
--   `mul64_operate`, `mul32_operate`) and src/common/polyfills/mulh64.h. A register value is its
--   64-bit pattern. Alu.Fallback has the products for compilers with no 128-bit integers.
-- - Predictor: src/machine/predictor.h, predictor.cpp and predictor_types.h. Predictor.History is
--   `BranchHistoryRegister`, Predictor.TargetBuffer is `BranchTargetBuffer`, Predictor.HistoryTable is
--   `Predictor` with its subclasses as the field `kind`, Predictor.Smith the moves of a row's state,
--   Predictor.Stats the counters, and Predictor.Unit is `BranchPredictor`, which joins them.
-- - Cache: src/machine/memory/cache/cache_policy.h and cache_policy.cpp. Cache.Policy.Queue is
--   `CachePolicyLRU`, Cache.Policy.Frequency is `CachePolicyLFU`, Cache.Policy.Tree is
--   `CachePolicyPLRU`, and Cache.Policy.Recent is `CachePolicyNMRU` and `CachePolicyRAND`. An exception is
--   `none`, and the number that `std::rand` returns is an argument.
-- - Tlb: src/machine/memory/tlb/tlb_policy.h and tlb_policy.cpp. `TlbPolicy` has a constructor for
--   each subclass, and `make_tlb_policy`, `select_way` and `notify_access` are the functions of the
--   same names.
-- - Registers: src/machine/registers.h and registers.cpp, the register file.
-- - Csr: src/machine/csr/address.h, src/machine/csr/controlstate.h and controlstate.cpp, with
--   src/machine/bitfield.h. Csr.Address is `Address` and `PrivilegeLevel`, Csr.Field the bit fields,
--   Csr.Table the table `REGISTERS`, and Csr.State is `ControlState` with its methods.
-- - Core: src/machine/core.h, core.cpp, pipeline.h and core/core_state.h. Core.Stage has the interstage
--   registers, Core.State the state of a core, Core.Fetch, Core.Execute and Core.Access are the five
--   stages, Core.Atomic is `memory_special`, Core.Trap is `handle_exception`, Core.Hazard the hazard
--   unit, and Core.Step the steps and resets of `CoreSingle` and `CorePipelined`. A step may throw:
--   an action gives a result or an exception and the state that it leaves. Core.Memory is what the core
--   asks of its memory, an interface that the stages take as an argument, as they take what
--   src/machine/instruction.cpp says of an instruction word and the exception handlers.
-- - Cache.Location, Cache.Storage and Cache.Client: src/machine/memory/cache/cache.h, cache.cpp and
--   cache_types.h. Cache.Location has `compute_location` and `calc_base_address`, Cache.Storage is
--   `Cache` with its lines, counters, `kick` and `access`, and Cache.Client has the operations that
--   other parts call: `read`, `write`, `flush`, `sync`, `reset`, `location_status`. A buffer is a
--   function from the place of a byte, and `access` runs on fuel, where the size is enough, as each
--   block takes a byte at least. The memory below and the replacement policy are arguments, and
--   `MemoryLaws` says what the memory keeps: the theorems compare with the bytes that a client sees.
-- - Virtual: src/machine/memory/virtual and the permissions in src/machine/memory/memory_utils.h.
--   Virtual.Pte has the entries of both formats, and Virtual.Walk is `PageTableWalker::walk`: its loop is
--   a recursion on the level. A page fault is a value.
-- - Tlb.Storage and Tlb.Translate: src/machine/memory/tlb/tlb.h and tlb.cpp. Tlb.Storage is `TLB` with its
--   entries and what takes them out, and Tlb.Translate has `translate_virtual_to_physical` and the reads
--   and writes over pages, on fuel: their size is enough, as each page takes a byte at least.
--
-- Machine integers keep their wrap-around, written `% 2 ^ w`. A read out of the bounds of a table is
-- what the source does there. The loops over a table with a 16-bit counter run on 2 ^ 16 + 1
-- rounds of fuel (Predictor.Rows), as many as a counter that does not wrap takes for 2 ^ 16 rows: a
-- table below 2 ^ 16 rows needs fewer, and on a larger one the loop of the source does not end, which the model shows as `none`.
--
-- Not modelled: the tables of instructions, the memory and
-- its bus, the peripherals, the loader, the assembler, the emulation of system calls and the user
-- interfaces. They are large or only input and output, and the parts above depend on them only by
-- the interfaces that they take as arguments.
pub mod Base
pub mod Alu
pub mod Predictor
pub mod Cache
pub mod Tlb
pub mod Registers
pub mod Csr
pub mod Core
pub mod Virtual
