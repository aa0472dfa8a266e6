-- ===== src/Sched/Queue/Spsc/History.antt =====
-- crates/hros-kernel/src/scheduler.rs: every interleaving of one producer and one consumer.
use hr_os.Prelude.{ℕ, ◌≡◌, refl, List, [], ◌∷◌, ◌++◌, arith, length-replicate}
use hr_os.Sched.Queue.{len}
use hr_os.Sched.Queue.Refine.{IsValid, contents}
use hr_os.Sched.Queue.Spsc.{Producer, Consumer, Event, producer, consumer, World, step, run, boot}
use hr_os.Sched.Queue.Spsc.Relies.{Inv}
use hr_os.Sched.Queue.Spsc.Produce.{produce-Inv}
use hr_os.Sched.Queue.Spsc.Consume.{consume-Inv}

step-Inv :
    (e : Event) (w : World)
    → Inv w.shared w.push_at w.pop_at
    → Inv (step e w).shared (step e w).push_at (step e w).pop_at
unfolding step
step-Inv (producer tcb) w v = produce-Inv w.shared w.pop_at w.push_at tcb v
step-Inv consumer w v = consume-Inv w.shared w.push_at w.pop_at v

run-Inv :
    (es : List Event) (w : World)
    → Inv w.shared w.push_at w.pop_at
    → Inv (run es w).shared (run es w).push_at (run es w).pop_at
unfolding run
run-Inv [] w v = v
run-Inv (e ∷ es) w v = run-Inv es (step e w) (step-Inv e w v)

boot-Inv : Inv boot.shared Producer.idle Consumer.idle
unfolding len
boot-Inv = record {
  valid = record {
    head_in = omega arith;
    tail_in = omega arith;
    slots = length-replicate {A = ℕ} 256 0;
  };
  history = refl;
  producing = tt;
  consuming = tt;
}

-- Whatever the interleaving of one producer and one consumer, the tasks popped, followed by those
-- in the queue, are the tasks pushed, in order: none is lost, duplicated or overtaken, and the
-- indices stay in range.
pub run-history :
    (schedule : List Event)
    → let s = (run schedule boot).shared in
      (s.pushed ≡ s.popped ++ contents s.queue) × IsValid s.queue
run-history schedule = let v = run-Inv schedule boot boot-Inv in (v.history, v.valid)
