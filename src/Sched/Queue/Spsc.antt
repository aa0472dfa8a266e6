-- ===== src/Sched/Queue/Spsc.antt =====
-- crates/hros-kernel/src/scheduler.rs: one producer core and one consumer core, interleaved at
-- every atomic access of `push_task` and `pop_task`. Memory is sequentially consistent: the
-- acquire and release orderings of the source are taken to give what they are there for.
mod Relies
mod Produce
mod Consume
pub mod History
use hr_os.Prelude.{
  ℕ, suc, ◌+◌, ◌-◌, ◌%◌, ◌<◌, ◌≡◌, ◌≢◌, refl, ap, ap₂, sym, Bool-cases, inl, inr, ◌∙◌, List, [],
  ◌∷◌, ◌++◌, ◌==◌, if◌then◌else◌, arith, length, length-set, length-replicate, replicate, get_or,
  set, get_or-set_self, get_or-set_ne,
}
use mathlib.Core.List.{append_assoc, append-nil}
use hr_os.Prelude.Ring.{window, length-window, window-mod, window-push, window-set, window-snoc}
use hr_os.Sched.Queue.{LockFreeTaskQueue, new, len}
use hr_os.Sched.Queue.Refine.{IsValid, contents, len_lem, window_of_ne_zero}

-- Where each core stands in its call, with the locals that it has read.
pub data Producer : Type 0 where
  idle : Producer
  tail_read checked : ℕ → ℕ → Producer
  written : ℕ → ℕ → Producer

pub data Consumer : Type 0 where
  idle : Consumer
  head_read checked : ℕ → Consumer
  slot_read : ℕ → ℕ → Consumer

-- The shared queue, and what has been pushed and popped so far.
pub record Shared : Type 0 where
  pub queue : LockFreeTaskQueue
  pub pushed : List ℕ
  pub popped : List ℕ

-- One access of `push_task tcb`; an idle producer begins a call.
unfoldable pub produce : Producer → ℕ → Shared → Shared × Producer
produce Producer.idle tcb s = (s, tail_read tcb s.queue.tail)
produce (tail_read tcb current_tail) _ s =
    if (current_tail + 1) % 256 == s.queue.head
    then (s, Producer.idle)
    else (s, Producer.checked tcb current_tail)
produce (Producer.checked tcb current_tail) _ s =
    let q = s.queue in
    (
      record s { queue = record q { tasks = set q.tasks current_tail tcb } },
      written tcb ((current_tail + 1) % 256),
    )
produce (written tcb next_tail) _ s =
    let q = s.queue in
    (
      record s { queue = record q { tail = next_tail }; pushed = s.pushed ++ tcb ∷ [] },
      Producer.idle,
    )

-- One access of `pop_task`.
unfoldable pub consume : Consumer → Shared → Shared × Consumer
consume Consumer.idle s = (s, head_read s.queue.head)
consume (head_read current_head) s =
    if current_head == s.queue.tail then (s, Consumer.idle) else (s, Consumer.checked current_head)
consume (Consumer.checked current_head) s =
    (s, slot_read ((current_head + 1) % 256) (get_or s.queue.tasks current_head 0))
consume (slot_read next_head tcb) s =
    let q = s.queue in
    (
      record s { queue = record q { head = next_head }; popped = s.popped ++ tcb ∷ [] },
      Consumer.idle,
    )

-- A schedule says which core moves next, and what the producer would push.
pub data Event : Type 0 where
  producer : ℕ → Event
  consumer : Event

pub record World : Type 0 where
  pub shared : Shared
  pub push_at : Producer
  pub pop_at : Consumer

unfoldable pub step : Event → World → World
step (producer tcb) w =
    let (s, p) = produce w.push_at tcb w.shared in
    record { shared = s; push_at = p; pop_at = w.pop_at }
step consumer w =
    let (s, c) = consume w.pop_at w.shared in record { shared = s; push_at = w.push_at; pop_at = c }

unfoldable pub run : List Event → World → World
run [] w = w
run (e ∷ es) w = run es (step e w)

abbrev pub boot : World
boot = record {
  shared = record {
    queue = record { head = 0; tail = 0; tasks = replicate 256 0 };
    pushed = [];
    popped = [];
  };
  push_at = Producer.idle;
  pop_at = Consumer.idle;
}
