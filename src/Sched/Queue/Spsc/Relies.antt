-- ===== src/Sched/Queue/Spsc/Relies.antt =====
-- crates/hros-kernel/src/scheduler.rs: what each core relies on between its accesses.
use hr_os.Prelude.{
  ℕ, suc, ◌+◌, ◌-◌, ◌%◌, ◌<◌, ◌≡◌, ◌≢◌, ap, ap₂, sym, ◌∙◌, [], ◌∷◌, ◌++◌, arith, get_or,
}
use hr_os.Prelude.Ring.{window, window-mod, window-snoc}
use hr_os.Sched.Queue.{LockFreeTaskQueue, len}
use hr_os.Sched.Queue.Refine.{IsValid, contents, len_lem, window_of_ne_zero}
use hr_os.Sched.Queue.Spsc.{Producer, Consumer, tail_read, written, head_read, slot_read, Shared}

-- What each core may rely on at its place, whatever the other one has done since.
abbrev pub Producing : LockFreeTaskQueue → Producer → Type 0
Producing q Producer.idle = Unit
Producing q (tail_read t ct) = ct ≡ q.tail
Producing q (Producer.checked t ct) = (ct ≡ q.tail) × (len q < 255)
Producing q (written t nt) =
    (nt ≡ (q.tail + 1) % 256) × (len q < 255) × (get_or q.tasks q.tail 0 ≡ t)

abbrev pub Consuming : LockFreeTaskQueue → Consumer → Type 0
Consuming q Consumer.idle = Unit
Consuming q (head_read ch) = ch ≡ q.head
Consuming q (Consumer.checked ch) = (ch ≡ q.head) × (0 < len q)
Consuming q (slot_read nh t) =
    (nh ≡ (q.head + 1) % 256) × (0 < len q) × (get_or q.tasks q.head 0 ≡ t)

pub record Inv (s : Shared) (p : Producer) (c : Consumer) : Type 0 where
  pub valid : IsValid s.queue
  pub history : s.pushed ≡ s.popped ++ contents s.queue
  pub producing : Producing s.queue p
  pub consuming : Consuming s.queue c

-- The number of waiting tasks when one end moves on by a slot.
pub len-tail :
    {q : LockFreeTaskQueue}
    → IsValid q
    → len q < 255
    → len (record q { tail = (q.tail + 1) % 256 }) ≡ len q + 1
unfolding len
len-tail v h = ground arith

pub len-head :
    {q : LockFreeTaskQueue}
    → IsValid q
    → 0 < len q
    → len (record q { head = (q.head + 1) % 256 }) ≡ len q - 1
unfolding len
len-head v h = ground arith

pub Consuming-keeps :
    (q q' : LockFreeTaskQueue) (c : Consumer)
    → q'.head ≡ q.head
    → (0 < len q → 0 < len q')
    → (0 < len q → get_or q'.tasks q.head 0 ≡ get_or q.tasks q.head 0)
    → Consuming q c
    → Consuming q' c
Consuming-keeps q q' Consumer.idle e more same h = tt
Consuming-keeps q q' (head_read ch) e more same h = h ∙ sym e
Consuming-keeps q q' (Consumer.checked ch) e more same h = (h.0 ∙ sym e, more h.1)
Consuming-keeps q q' (slot_read nh t) e more same h = (
  h.0 ∙ ap (λ k. (k + 1) % 256) (sym e),
  more h.1,
  ap (λ k. get_or q'.tasks k 0) e ∙ same h.1 ∙ h.2,
)

pub Producing-keeps :
    (q q' : LockFreeTaskQueue) (p : Producer)
    → q'.tail ≡ q.tail
    → q'.tasks ≡ q.tasks
    → (len q < 255 → len q' < 255)
    → Producing q p
    → Producing q' p
Producing-keeps q q' Producer.idle e same less h = tt
Producing-keeps q q' (tail_read t ct) e same less h = h ∙ sym e
Producing-keeps q q' (Producer.checked t ct) e same less h = (h.0 ∙ sym e, less h.1)
Producing-keeps q q' (written t nt) e same less h =
    (h.0 ∙ ap (λ k. (k + 1) % 256) (sym e), less h.1, ap₂ (λ b k. get_or b k 0) same e ∙ h.2)

-- The slot being filled is not the slot being emptied.
pub apart :
    (q : LockFreeTaskQueue) (ct : ℕ)
    → IsValid q
    → ct ≡ q.tail
    → len q < 255
    → 0 < len q
    → ct ≢ q.head
unfolding len
apart q ct v here room some_left e = ground arith

pub contents-tail :
    (q : LockFreeTaskQueue) (nt t : ℕ)
    → IsValid q
    → len (record q { tail = nt }) ≡ len q + 1
    → get_or q.tasks q.tail 0 ≡ t
    → contents (record q { tail = nt }) ≡ contents q ++ t ∷ []
contents-tail q nt t v longer slot =
    ap (window 0 q.tasks q.head) {y = suc (len q)} (longer ∙ omega arith)
    ∙ window-snoc 0 q.tasks q.head (len q)
    ∙ ap (λ k. contents q ++ k ∷ []) (ap (λ i. get_or q.tasks i 0) (sym (len_lem v).1) ∙ slot)

pub contents-head :
    (q : LockFreeTaskQueue) (nh t : ℕ)
    → IsValid q
    → nh ≡ (q.head + 1) % 256
    → 0 < len q
    → len (record q { head = nh }) ≡ len q - 1
    → get_or q.tasks q.head 0 ≡ t
    → contents q ≡ t ∷ contents (record q { head = nh })
contents-head q nh t v at left shorter slot =
    window_of_ne_zero q.tasks q.head (len q) (omega arith)
    ∙ ap₂ ◌∷◌ (ap (λ i. get_or q.tasks i 0) (omega (arith, v)) ∙ slot) (
        window-mod 0 q.tasks (q.head + 1) nh (len q - 1) (omega arith)
        ∙ ap (window 0 q.tasks nh) (sym shorter))
