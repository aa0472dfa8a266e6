-- ===== src/Kernel/Multitask.antt =====
-- src/kernel/multitask.rs: the task control blocks, and the switch of `PendSV_Handler`.
-- The registers r4 to r11 go to the stack and back by `stmdb` and `ldmia`, which move the stack
-- pointer by 32 bytes; their contents are not modelled. Vector table and timer are not modelled.
pub mod Schedule
use hr_os.Prelude.{
  ℕ, zero, suc, ◌+◌, ◌-◌, ◌%◌, ◌^◌, Bool, true, false, ◌&&◌, not, Option, none, some, List, [], ◌∷◌,
  ◌==◌, leb, if◌then◌else◌, get_or, set, bit_or,
}

abbrev pub num_tasks : ℕ
num_tasks = 4

pub data TaskState : Type 0 where
  dead ready running : TaskState

abbrev pub code : TaskState → ℕ
code dead = 0
code ready = 1
code running = 2

pub record Tcb : Type 0 where
  pub sp : ℕ
  pub pc : ℕ
  pub state : ℕ
  pub counter : ℕ

abbrev pub dead_tcb : Tcb
dead_tcb = record { sp = 0; pc = 0; state = 0; counter = 0 }

-- `CURRENT_TASK`, `TCBS` and the process stack pointer.
pub record Tasks : Type 0 where
  pub current_task : ℕ
  pub tcbs : List Tcb
  pub psp : ℕ

-- The loop at label 8: the first task from `i` on, of `left` to look at, that is not the current
-- one and is ready.
unfoldable pub scan : ℕ → ℕ → Tasks → Option ℕ
scan zero i s = none
scan (suc left) i s =
    let later = scan left (i + 1) s in
    if not (i == s.current_task) && (get_or s.tcbs i dead_tcb).state == 1 then some i else later

-- The code at label 1.
unfoldable pub switch_to : ℕ → Tasks → Tasks
switch_to next s =
    let old = get_or s.tcbs s.current_task dead_tcb in
    let saved =
      set s.tcbs s.current_task (record old { sp = (s.psp + 2 ^ 32 - 32) % 2 ^ 32; state = 1 }) in
    let new = get_or saved next dead_tcb in
    record {
      current_task = next;
      tcbs = set saved next (record new { state = 2; counter = (new.counter + 1) % 2 ^ 32 });
      psp = (new.sp + 32) % 2 ^ 32;
    }

unfoldable pub pend_sv_handler : Tasks → Tasks
unfolding scan switch_to
pend_sv_handler s = elim (scan 5 0 s) [ some next ↦ switch_to next s | none ↦ s ]

-- Ticks of the timer in a row.
unfoldable pub ticks : ℕ → Tasks → Tasks
ticks zero s = s
ticks (suc n) s = ticks n (pend_sv_handler s)

abbrev pub sub32 : ℕ → ℕ → ℕ
sub32 a b = (a + 2 ^ 32 - b) % 2 ^ 32

-- The frame that a fresh task starts from: the words written to its stack.
unfoldable pub frame : ℕ → ℕ → List (ℕ × ℕ)
frame sp body_addr =
    (sub32 sp 4, 0x0100_0000)
    ∷ (sub32 sp 8, bit_or body_addr 1)
    ∷ (sub32 sp 12, 0)
    ∷ (sub32 sp 16, 0)
    ∷ (sub32 sp 20, 0)
    ∷ (sub32 sp 24, 0)
    ∷ (sub32 sp 28, 0)
    ∷ (sub32 sp 32, 0)
    ∷ []

-- `stack_top` and `body` are the linker's addresses of the task stacks and of the task bodies.
module _ (stack_top : ℕ → ℕ) (body : ℕ → ℕ) where
  unfoldable pub spawn_counter_task : ℕ → Tasks → Tasks × List (ℕ × ℕ) × Bool
  unfolding frame
  spawn_counter_task task_idx s =
      let sp = stack_top (task_idx + 1) in
      let body_addr = body (if task_idx == 0 then 1 else 2) in
      let old = get_or s.tcbs (task_idx + 1) dead_tcb in
      let fresh = record old { sp = sub32 sp 64; pc = body_addr; state = code ready } in
      if leb (num_tasks - 1) task_idx
      then (s, [], false)
      else (record s { tcbs = set s.tcbs (task_idx + 1) fresh }, frame sp body_addr, true)

  -- The JIT runner is a later phase of the source: the function spawns a counter task too.
  unfoldable pub spawn_jit_task : ℕ → Tasks → Tasks × List (ℕ × ℕ) × Bool
  unfolding spawn_counter_task
  spawn_jit_task slot_idx s = spawn_counter_task slot_idx s
