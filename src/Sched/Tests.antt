-- ===== src/Sched/Tests.antt =====
-- crates/hros-kernel/src: the theorems at concrete queues and task sets, and runs of the code.
use hr_os.Prelude.{
  ℕ, ◌≤◌, ◌<◌, ◌≡◌, refl, some, none, [], ◌∷◌, ◌++◌, ◌⊎◌, ok, err, true, arith, take,
  length-replicate, replicate, List,
}
use hr_os.Sched.Queue.{LockFreeTaskQueue, push_task, pop_task}
use hr_os.Sched.Queue.Refine.{IsValid, contents, fifo_push, fifo_pop, push_refines, pop_refines}
use hr_os.Sched.Queue.Spsc.{Event, producer, consumer, run, boot, step, produce, consume}
use hr_os.Sched.Queue.Spsc.History.{run-history}
use hr_os.Sched.Shadow
use hr_os.Sched.Shadow.{ShadowStack, d_max}
use hr_os.Sched.Wcet.{response, panics, add_higher, rta_rounds, rta_response_time, total_wcet}
use hr_os.Sched.Wcet.Exact.{demand, interference}
use hr_os.Sched.Wcet.Analysis.{Fits, rta-least, rta-refuses}

abbrev wrapped : LockFreeTaskQueue
wrapped = record { head = 255; tail = 1; tasks = replicate 256 9 }

wrapped-IsValid : IsValid wrapped
wrapped-IsValid = record {
  head_in = omega arith;
  tail_in = omega arith;
  slots = length-replicate {A = ℕ} 256 9;
}

push_refines_example :
    let (q, r) = push_task wrapped 7 in (contents q, r) ≡ fifo_push (contents wrapped) 7
push_refines_example = push_refines 7 wrapped-IsValid

pop_refines_example : let (q, r) = pop_task wrapped in (contents q, r) ≡ fifo_pop (contents wrapped)
pop_refines_example = pop_refines wrapped-IsValid

-- The consumer reads the empty queue between the producer's write and its commit.
abbrev racing : List Event
racing =
    producer 7
    ∷ producer 0
    ∷ producer 0
    ∷ consumer
    ∷ consumer
    ∷ producer 0
    ∷ consumer
    ∷ consumer
    ∷ consumer
    ∷ consumer
    ∷ []

racing_pops : (run racing boot).shared.popped ≡ 7 ∷ []
unfolding run step produce consume
racing_pops = refl

run-history_example :
    let s = (run racing boot).shared in (s.pushed ≡ s.popped ++ contents s.queue) × IsValid s.queue
run-history_example = run-history racing

abbrev one_call : ShadowStack
one_call = record { slots = replicate 32 5; depth = 1 }

pop-push_example :
    let (pushed, r) = Shadow.push 99 one_call in
    ((1 < d_max)
      × (r ≡ ok tt)
      × Shadow.IsValid pushed
      × ((Shadow.pop pushed).1 ≡ some 99)
      × ((Shadow.pop pushed).0.depth ≡ 1)
      × (take 1 (Shadow.pop pushed).0.slots ≡ take 1 one_call.slots))
    ⊎ ((one_call.depth ≡ d_max) × (r ≡ err tt) × (pushed ≡ one_call))
pop-push_example =
    Shadow.pop-push 99 (record { size = length-replicate {A = ℕ} 32 5; bound = omega arith })

-- The examples of the source's own tests.
ledger : total_wcet 64 10 true (10 ∷ 20 ∷ []) (5 ∷ 3 ∷ []) ≡ 1763
unfolding total_wcet
ledger = refl

schedulable : rta_response_time 30 ((10, 50) ∷ (20, 100) ∷ []) 200 ≡ response (some 70)
unfolding rta_response_time rta_rounds add_higher
schedulable = refl

schedulable-Fits : Fits 30 ((10, 50) ∷ (20, 100) ∷ []) 200
unfolding demand interference
schedulable-Fits = omega arith

rta-least_example :
    (demand 30 ((10, 50) ∷ (20, 100) ∷ []) 70 ≡ 70)
    × (70 ≤ 200)
    × ((x : ℕ) → demand 30 ((10, 50) ∷ (20, 100) ∷ []) x ≤ x → 70 ≤ x)
rta-least_example = rta-least 30 ((10, 50) ∷ (20, 100) ∷ []) 200 70 schedulable-Fits schedulable

unschedulable : rta_response_time 20 ((40, 50) ∷ []) 50 ≡ response none
unfolding rta_response_time rta_rounds add_higher
unschedulable = refl

unschedulable-Fits : Fits 20 ((40, 50) ∷ []) 50
unfolding demand interference
unschedulable-Fits = omega arith

served : demand 20 ((40, 50) ∷ []) 100 ≤ 100
unfolding demand interference
served = omega arith

rta-refuses_example : 50 < 100
rta-refuses_example =
    rta-refuses 20 ((40, 50) ∷ []) 50 100 unschedulable-Fits (omega arith) unschedulable served

-- A product that leaves 32 bits, and the period 0.
wrapped_demand :
    (rta_response_time 13 ((5, 4_294_967_290) ∷ []) 78 ≡ response (some 13))
    × (rta_response_time 17 ((2, 48) ∷ (5, 4_294_967_276) ∷ []) 50 ≡ response none)
    × (rta_response_time 1 ((5, 0) ∷ []) 78 ≡ panics)
unfolding rta_response_time rta_rounds add_higher
wrapped_demand = (refl, refl, refl)
