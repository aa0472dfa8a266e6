-- ===== src/Sched/Queue/Spsc/Produce.antt =====
-- crates/hros-kernel/src/scheduler.rs, `push_task`: each access keeps the invariant.
use hr_os.Prelude.{
  ℕ, ◌+◌, ◌%◌, ◌≡◌, refl, ap, sym, Bool-cases, inl, inr, ◌∙◌, [], ◌∷◌, ◌++◌, ◌==◌, arith,
  length-set, get_or, set, get_or-set_self, get_or-set_ne,
}
use mathlib.Core.List.{append_assoc}
use hr_os.Prelude.Ring.{window-set}
use hr_os.Sched.Queue.{len}
use hr_os.Sched.Queue.Refine.{contents, len_lem}
use hr_os.Sched.Queue.Spsc.{Producer, Consumer, tail_read, written, Shared, produce}
use hr_os.Sched.Queue.Spsc.Relies.{Inv, len-tail, Consuming-keeps, apart, contents-tail}

module _ (s : Shared) (c : Consumer) where
  checks_room :
      (t ct : ℕ)
      → Inv s (tail_read t ct) c
      → Inv (produce (tail_read t ct) 0 s).0 (produce (tail_read t ct) 0 s).1 c
  unfolding produce len
  checks_room t ct v = elim (Bool-cases ((ct + 1) % 256 == s.queue.head)) [
    | inl full ↦
        rw full
          (record { valid = v.valid; history = v.history; producing = tt; consuming = v.consuming })
    | inr room ↦ rw room (record {
      valid = v.valid;
      history = v.history;
      producing = (v.producing, ground (arith, v.valid, v.producing, room));
      consuming = v.consuming;
    })
  ]

  writes_slot :
      (t ct : ℕ)
      → Inv s (Producer.checked t ct) c
      → Inv
          (record s { queue = record (s.queue) { tasks = set s.queue.tasks ct t } })
          (written t ((ct + 1) % 256))
          c
  unfolding len
  writes_slot t ct v =
      let q = s.queue in
      let here : ct ≡ q.tail = v.producing.0 in
      record {
        valid = record {
          head_in = v.valid.head_in;
          tail_in = v.valid.tail_in;
          slots = length-set q.tasks ct t ∙ v.valid.slots;
        };
        history =
            v.history
            ∙ ap (λ ts. s.popped ++ ts)
                (sym (
                  window-set 0 q.tasks q.head (len q) ct t (omega arith)
                    (here ∙ (len_lem v.valid).1)));
        producing = (
          ap (λ k. (k + 1) % 256) here,
          v.producing.1,
          ap (λ k. get_or (set q.tasks ct t) k 0) (sym here)
              ∙ get_or-set_self q.tasks ct t 0 (omega (arith, v.valid)),
        );
        consuming =
            Consuming-keeps q (record q { tasks = set q.tasks ct t }) c refl (λ h. h)
              (λ h.
                get_or-set_ne q.tasks {i = ct} {j = q.head} t 0
                  (apart q ct v.valid here v.producing.1 h))
              v.consuming;
      }

  commits_tail :
      (t nt : ℕ)
      → Inv s (written t nt) c
      → Inv
          (record s { queue = record (s.queue) { tail = nt }; pushed = s.pushed ++ t ∷ [] })
          Producer.idle
          c
  commits_tail t nt v =
      let q = s.queue in
      let (at, room, slot) = v.producing in
      let longer : len (record q { tail = nt }) ≡ len q + 1 =
        ap (λ k. len (record q { tail = k })) at ∙ len-tail v.valid room in
      record {
        valid = record { head_in = v.valid.head_in; tail_in = omega arith; slots = v.valid.slots };
        history =
            ap (λ ts. ts ++ t ∷ []) v.history
            ∙ append_assoc s.popped (contents q) (t ∷ [])
            ∙ ap (λ ts. s.popped ++ ts) (sym (contents-tail q nt t v.valid longer slot));
        producing = tt;
        consuming =
            Consuming-keeps q (record q { tail = nt }) c refl (λ h. omega (arith, longer))
              (λ h. refl) v.consuming;
      }

  pub produce-Inv :
      (p : Producer) (tcb : ℕ) → Inv s p c → Inv (produce p tcb s).0 (produce p tcb s).1 c
  unfolding produce
  produce-Inv Producer.idle tcb v = record {
    valid = v.valid;
    history = v.history;
    producing = refl;
    consuming = v.consuming;
  }
  produce-Inv (tail_read t ct) tcb v = checks_room t ct v
  produce-Inv (Producer.checked t ct) tcb v = writes_slot t ct v
  produce-Inv (written t nt) tcb v = commits_tail t nt v
