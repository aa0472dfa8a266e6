-- ===== src/Sched/Queue.antt =====
-- crates/hros-kernel/src/scheduler.rs, `LockFreeTaskQueue`: one call at a time.
-- A `*mut TaskControlBlock` is its address. `Sched.Queue.Spsc` splits the calls at their atomics.
pub mod Refine
pub mod Spsc
use hr_os.Prelude.{
  ℕ, ◌+◌, ◌-◌, ◌%◌, Option, none, some, List, Result, ok, err, Bool, ◌==◌, leb, if◌then◌else◌,
  get_or, set, replicate,
}

pub record LockFreeTaskQueue : Type 0 where
  pub head : ℕ
  pub tail : ℕ
  pub tasks : List ℕ

unfoldable pub new : LockFreeTaskQueue
new = record { head = 0; tail = 0; tasks = replicate 256 0 }

-- `Err(())` is `err tt`.
unfoldable pub push_task : LockFreeTaskQueue → ℕ → LockFreeTaskQueue × Result (Unit {0}) (Unit {0})
push_task q tcb =
    let current_tail = q.tail in
    let next_tail = (current_tail + 1) % 256 in
    if next_tail == q.head
    then (q, err tt)
    else (record q { tail = next_tail; tasks = set q.tasks current_tail tcb }, ok tt)

unfoldable pub pop_task : LockFreeTaskQueue → LockFreeTaskQueue × Option ℕ
pop_task q =
    let current_head = q.head in
    if current_head == q.tail
    then (q, none)
    else (record q { head = (current_head + 1) % 256 }, some (get_or q.tasks current_head 0))

unfoldable pub len : LockFreeTaskQueue → ℕ
len q = if leb q.head q.tail then q.tail - q.head else 256 - q.head + q.tail

unfoldable pub is_empty : LockFreeTaskQueue → Bool
is_empty q = q.head == q.tail

unfoldable pub is_full : LockFreeTaskQueue → Bool
is_full q = (q.tail + 1) % 256 == q.head
