-- ===== src/Sched/Queue/Refine.antt =====
-- crates/hros-kernel/src/scheduler.rs: the queue is a FIFO of at most 255 tasks.
use hr_os.Prelude.{
  ℕ, zero, suc, ◌+◌, ◌-◌, ◌%◌, ◌≤◌, ◌<◌, ◌≡◌, ◌≢◌, refl, ap, none, some, List, [], ◌∷◌, ◌++◌, ok,
  err, ltb, if◌then◌else◌, arith, length, length-set, get_or, Option, Result,
}
use hr_os.Prelude.Ring.{window, length-window, window-mod, window-push}
use hr_os.Sched.Queue.{LockFreeTaskQueue, push_task, pop_task, len}

pub record IsValid (q : LockFreeTaskQueue) : Type 0 where
  pub head_in : q.head < 256
  pub tail_in : q.tail < 256
  pub slots : length q.tasks ≡ 256

-- The tasks waiting, oldest first.
abbrev pub contents : LockFreeTaskQueue → List ℕ
contents q = window 0 q.tasks q.head (len q)

abbrev pub fifo_push : List ℕ → ℕ → List ℕ × Result (Unit {0}) (Unit {0})
fifo_push ts t = if ltb (length ts) 255 then (ts ++ t ∷ [], ok tt) else (ts, err tt)

abbrev pub fifo_pop : List ℕ → List ℕ × Option ℕ
fifo_pop [] = ([], none)
fifo_pop (t ∷ ts) = (ts, some t)

pub length-contents : (q : LockFreeTaskQueue) → length (contents q) ≡ len q
length-contents q = length-window 0 q.tasks q.head (len q)

-- The code tests the length, the FIFO its list.
pub window_of_ne_zero :
    (buf : List ℕ) (h n : ℕ)
    → n ≢ 0
    → window 0 buf h n ≡ get_or buf (h % 256) 0 ∷ window 0 buf (h + 1) (n - 1)
window_of_ne_zero buf h zero p = absurd (p refl)
window_of_ne_zero buf h (suc n) p =
    ap (λ k. get_or buf (h % 256) 0 ∷ window 0 buf (h + 1) k) (omega arith)

pub push-IsValid : {q : LockFreeTaskQueue} (t : ℕ) → IsValid q → IsValid (push_task q t).0
unfolding push_task
push-IsValid {q} t v = ground (arith, length-set q.tasks q.tail t)

pub pop-IsValid : {q : LockFreeTaskQueue} → IsValid q → IsValid (pop_task q).0
unfolding pop_task
pop-IsValid v = ground arith

pub len_lem :
    {q : LockFreeTaskQueue} → IsValid q → (len q ≤ 255) × (q.tail ≡ (q.head + len q) % 256)
unfolding len
len_lem v = ground arith

-- On a valid queue a push adds the task at the back of the FIFO, or fails when it holds 255 tasks.
pub push_refines :
    {q : LockFreeTaskQueue} (t : ℕ)
    → IsValid q
    → let (q', r) = push_task q t in (contents q', r) ≡ fifo_push (contents q) t
unfolding push_task len
push_refines {q} t v =
    ground (arith, length-contents q, len_lem v, window-push 0 q.tasks q.head (len q) q.tail t)

-- On a valid queue a pop takes the task at the front of the FIFO, or gives none when it is empty.
pub pop_refines :
    {q : LockFreeTaskQueue}
    → IsValid q
    → let (q', r) = pop_task q in (contents q', r) ≡ fifo_pop (contents q)
unfolding pop_task len
pop_refines {q} v = ground (
  arith,
  window_of_ne_zero q.tasks q.head (len q),
  window-mod 0 q.tasks (q.head + 1) ((q.head + 1) % 256) (len q - 1),
)
