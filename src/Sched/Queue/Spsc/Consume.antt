-- ===== src/Sched/Queue/Spsc/Consume.antt =====
-- crates/hros-kernel/src/scheduler.rs, `pop_task`: each access keeps the invariant.
use hr_os.Prelude.{
  ℕ, ◌+◌, ◌-◌, ◌%◌, ◌≡◌, refl, ap, sym, Bool-cases, inl, inr, ◌∙◌, [], ◌∷◌, ◌++◌, ◌==◌, arith,
  get_or,
}
use mathlib.Core.List.{append_assoc}
use hr_os.Sched.Queue.{len}
use hr_os.Sched.Queue.Refine.{contents}
use hr_os.Sched.Queue.Spsc.{Producer, Consumer, head_read, slot_read, Shared, consume}
use hr_os.Sched.Queue.Spsc.Relies.{Inv, len-head, Producing-keeps, contents-head}

module _ (s : Shared) (p : Producer) where
  checks_task :
      (ch : ℕ)
      → Inv s p (head_read ch)
      → Inv (consume (head_read ch) s).0 p (consume (head_read ch) s).1
  unfolding consume len
  checks_task ch v = elim (Bool-cases (ch == s.queue.tail)) [
    | inl empty ↦
        rw empty
          (record { valid = v.valid; history = v.history; producing = v.producing; consuming = tt })
    | inr task ↦ rw task (record {
      valid = v.valid;
      history = v.history;
      producing = v.producing;
      consuming = (v.consuming, ground (arith, v.valid, v.consuming, task));
    })
  ]

  commits_head :
      (nh t : ℕ)
      → Inv s p (slot_read nh t)
      → Inv
          (record s { queue = record (s.queue) { head = nh }; popped = s.popped ++ t ∷ [] })
          p
          Consumer.idle
  commits_head nh t v =
      let q = s.queue in
      let (at, left, slot) = v.consuming in
      let shorter : len (record q { head = nh }) ≡ len q - 1 =
        ap (λ k. len (record q { head = k })) at ∙ len-head v.valid left in
      record {
        valid = record { head_in = omega arith; tail_in = v.valid.tail_in; slots = v.valid.slots };
        history =
            v.history
            ∙ ap (λ ts. s.popped ++ ts) (contents-head q nh t v.valid at left shorter slot)
            ∙ sym (append_assoc s.popped (t ∷ []) (contents (record q { head = nh })));
        producing =
            Producing-keeps q (record q { head = nh }) p refl refl (λ h. omega (arith, shorter))
              v.producing;
        consuming = tt;
      }

  pub consume-Inv : (c : Consumer) → Inv s p c → Inv (consume c s).0 p (consume c s).1
  unfolding consume
  consume-Inv Consumer.idle v = record {
    valid = v.valid;
    history = v.history;
    producing = v.producing;
    consuming = refl;
  }
  consume-Inv (head_read ch) v = checks_task ch v
  consume-Inv (Consumer.checked ch) v = record {
    valid = v.valid;
    history = v.history;
    producing = v.producing;
    consuming = (
      ap (λ k. (k + 1) % 256) v.consuming.0,
      v.consuming.1,
      ap (λ k. get_or s.queue.tasks k 0) (sym v.consuming.0),
    );
  }
  consume-Inv (slot_read nh t) v = commits_head nh t v
