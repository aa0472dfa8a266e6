-- ===== src/Lib.antt =====
-- HR-OS: a bare-metal kernel in Rust with capabilities for its peripherals, a compiler for a small
-- language and a threaded virtual machine that runs what the compiler emits.
--
-- The parts and their files. A statement that the user types goes from the console (Drivers) to the
-- lexer (Compiler); the virtual machine (Vm) runs the words emitted for it. The reads and
-- writes of devices that a user asks for are checked against the capability registry (Caps) by the
-- guarded accesses (Memory), and the kernel switches tasks (Kernel, Sched).
-- - Caps.Registry: src/capabilities/registry.rs. `REGISTRY_BITS` is a list of eight words, passed and
--   returned by `acquire` and `release`; `available` and `is_claimed` read it.
-- - Caps.Access: the same file. `arm_addr_to_cap`, `riscv_addr_to_cap`, `check_access`; the target is
--   an argument, `Arch`.
-- - Caps.Tokens: src/capabilities/tokens.rs. `claim`, `drop_cap`, `steal`, `grant_superuser`,
--   `resolve_name`. Caps.Tokens.Ledger lists the tokens that exist; the steps of
--   Drivers.Repl.Owners are their claims and drops and the commands that change the same registry.
-- - Caps.Mask: crates/hros-cap/src/lib.rs. The masks of ranges of 4 KiB blocks, and
--   `verify_range_contiguous` (Caps.Mask.Range), whose fuel is one more than the windows it looks at.
-- - Caps.Audit: src/capabilities/audit.rs. `AuditLog` with `record_event`.
-- - Memory: src/kernel/memory.rs. The memory is a function from addresses to bytes. `peek_u32`,
--   `poke_u32` and the bit operations (Memory.Flat); `enforced_poke_u32` and `enforced_peek_u32`
--   (Memory.Guard), where the registry is eight words of the memory, at the address that `Board`
--   gives, and the audit log stands beside it. A read gives the bytes last written: registers of
--   devices whose read means something else, and the flash, are outside the model.
-- - Sched.Queue: crates/hros-kernel/src/scheduler.rs, `LockFreeTaskQueue`; Sched.Queue.Spsc runs one
--   producer and one consumer with a step for each atomic access. Sched.Shadow: `ShadowStack`.
-- - Sched.Wcet: crates/hros-kernel/src/wcet.rs, `total_wcet` and `rta_response_time`;
--   Sched.Wcet.Exact is the analysis in whole numbers that it is compared with.
-- - Kernel.Pool: src/kernel/pool.rs, `alloc`, `reset`, `remaining`.
-- - Kernel.Multitask: src/kernel/multitask.rs, the handler of PendSV and the spawning of tasks.
-- - Vm: src/kernel/exec.rs and src/compiler/primitives.rs. `vm_push`, `vm_pop`, the primitives and
--   `run_threaded_stream`.
-- - Compiler.Lexer: src/compiler/lexer.rs, `next_token` on the bytes that are left of the stream.
-- - Compiler.Names, Compiler.Symbols: src/compiler/parser.rs, `NameBuf` and the symbol table with
--   `hash`, `lookup_symbol` and `insert_symbol`.
-- - Compiler.Cursor, Compiler.Expr: the same file, `Cur` and the evaluation of expressions.
--   `eval_expr`, `resolve_term` and `parse_atomic_term` share the function `evaluate`, which runs on
--   fuel. Compiler.Expr.Grammar writes expressions as trees, with their tokens and their meaning.
-- - Compiler.Stream, Compiler.Fns: the same file, the state `Compiler`, `stream_push` and the programs
--   taken from the stream, and the table of functions with `import_fn` and `export_fn`.
-- - Compiler.Action, Compiler.Emit, Compiler.Body, Compiler.Command: the same file, `parse` with the
--   statements and the commands. An action of the parser takes the state of `Compiler` and the cursor,
--   and stops at the first error; the registry, the target and the memory are read only (`Env`).
--   Compiler.Action.Safe and Compiler.Action.Guarded have the rules for composed actions, by which the
--   children of Compiler.Body and Compiler.Command go through the statements and the commands.
-- - Compiler.Emitter: src/compiler/emitter.rs. The encodings; Compiler.Emitter.Thumb2 and
--   Compiler.Emitter.Riscv32 are the two implementations of `TargetEmitter` on the buffer of code.
-- - Compiler.Native: src/compiler/native.rs on ARM, from the words of a program to the code that is
--   in the buffer when `compile_and_run` jumps to it.
-- - Drivers.Uart: src/drivers/uart.rs, the formatted output and the receive ring.
-- - Drivers.Repl: src/drivers/repl.rs, the line editor `feed`, and the claim and drop commands.
-- - Prelude: natural numbers with their Boolean tests, lists, results, bits and a ring's window.
--
-- Machine integers are natural numbers with their wrap written out; `usize` has 32 bits, as on both
-- targets, and arithmetic that the source leaves unchecked wraps, as in a release build. The loops
-- of the analysis and of the output run on the bounds of the source (a hundred rounds, ten digits);
-- the evaluation of expressions runs on fuel, and twice the bytes and tokens to come and two more are
-- enough; a block of statements runs on one more than the tokens to come; the other loops are
-- structural. Atomic accesses are sequentially consistent.
--
-- Parameters: the addresses of the primitives (Vm.Linkage), the places of the registry and of the
-- audit log and what a raw write over the log makes of it (Memory.Guard.Board), the base of the heap
-- region, the tops of the task stacks and the task bodies, which the linker chooses.
--
-- Not modelled: the jump to the native code, which `StreamProgram::run` tries before the virtual
-- machine, the outcomes of the command line other than claims and drops, and the program store;
-- device registers, inline assembly other than the task switch, and the vector table.

pub mod Prelude
pub mod Caps
pub mod Sched
pub mod Memory
pub mod Vm
pub mod Compiler
pub mod Drivers
pub mod Kernel
