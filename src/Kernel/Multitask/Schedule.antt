-- ===== src/Kernel/Multitask/Schedule.antt =====
-- src/kernel/multitask.rs: which task runs next.
use hr_os.Prelude.{
  ℕ, zero, suc, ◌+◌, ◌-◌, ◌%◌, ◌^◌, ◌≤◌, ◌<◌, ◌≡◌, ◌≢◌, refl, ap, sym, ◌∙◌, ◌⊎◌, ◌&&◌, not, some,
  ◌==◌, if◌then◌else◌, arith, Bool-cases, inl, inr, length, get_or, set, length-set,
  get_or-set_self, get_or-set_ne,
}
use hr_os.Kernel.Multitask.{sub32, dead_tcb, Tasks, scan, switch_to, pend_sv_handler, ticks}

abbrev pub state_of : Tasks → ℕ → ℕ
state_of s i = (get_or s.tcbs i dead_tcb).state

-- Some other task that is ready is found, and it comes no later than any other such task.
scan-found :
    (n i j : ℕ) (s : Tasks)
    → i ≤ j
    → j < i + n
    → j ≢ s.current_task
    → state_of s j ≡ 1
    → (next : ℕ) × (scan n i s ≡ some next)
      × (i ≤ next)
      × (next ≤ j)
      × (next ≢ s.current_task)
      × (state_of s next ≡ 1)
unfolding scan
scan-found zero i j s lo hi other ready = absurd (omega arith)
scan-found (suc n) i j s lo hi other ready =
    elim (Bool-cases (not (i == s.current_task) && state_of s i == 1)) [
      | inl taken ↦
          (i, ground (arith, taken), omega arith, lo, ground (arith, taken), ground (arith, taken))
      | inr passed ↦
          let (next, found, from, upto, free, up) =
            scan-found n (i + 1) j s (ground (arith, passed)) (omega arith) other ready in
          (next, ground (arith, passed, found), omega arith, upto, free, up)
    ]

pub record IsValid (s : Tasks) : Type 0 where
  pub table : length s.tcbs ≡ 5
  pub current_in : s.current_task < 5

-- The control blocks after a switch.
tcb-switch_to :
    {s : Tasks} (next i : ℕ)
    → IsValid s
    → next < 5
    → next ≢ s.current_task
    → get_or (switch_to next s).tcbs i dead_tcb ≡ (
        let old = get_or s.tcbs i dead_tcb in
        if i == next
        then record old { state = 2; counter = (old.counter + 1) % 2 ^ 32 }
        else if i == s.current_task
        then record old { sp = sub32 s.psp 32; state = 1 }
        else old)
unfolding switch_to
tcb-switch_to {s} next i v lt free =
    let old = get_or s.tcbs s.current_task dead_tcb in
    let saved = record old { sp = sub32 s.psp 32; state = 1 } in
    let table = set s.tcbs s.current_task saved in
    let new = get_or table next dead_tcb in
    let marked = record new { state = 2; counter = (new.counter + 1) % 2 ^ 32 } in
    ground (
      arith,
      v,
      length-set s.tcbs s.current_task saved,
      get_or-set_self table next marked dead_tcb,
      get_or-set_ne table {i = next} {j = i} marked dead_tcb,
      get_or-set_self s.tcbs s.current_task saved dead_tcb,
      get_or-set_ne s.tcbs {i = s.current_task} {j = i} saved dead_tcb,
      get_or-set_ne s.tcbs {i = s.current_task} {j = next} saved dead_tcb,
    )

switch_to-IsValid : {s : Tasks} (next : ℕ) → IsValid s → next < 5 → IsValid (switch_to next s)
unfolding switch_to
switch_to-IsValid {s} next v lt = record {
  table =
      length-set (set s.tcbs s.current_task _) next _
      ∙ length-set s.tcbs s.current_task _
      ∙ v.table;
  current_in = lt;
}

switched :
    (s : Tasks) (next j : ℕ)
    → IsValid s
    → next ≤ j
    → next < 5
    → next ≢ s.current_task
    → state_of s next ≡ 1
    → let s' = switch_to next s in
      (s'.current_task ≤ j)
      × (s'.current_task ≢ s.current_task)
      × (state_of s s'.current_task ≡ 1)
      × (state_of s' s'.current_task ≡ 2)
      × (state_of s' s.current_task ≡ 1)
      × ((get_or s'.tcbs s.current_task dead_tcb).sp ≡ sub32 s.psp 32)
      × (s'.psp ≡ ((get_or s.tcbs s'.current_task dead_tcb).sp + 32) % 2 ^ 32)
      × ((get_or s'.tcbs s'.current_task dead_tcb).counter
          ≡ ((get_or s.tcbs s'.current_task dead_tcb).counter + 1) % 2 ^ 32)
      × IsValid s'
unfolding switch_to
switched s next j v upto lt free up = (
  upto,
  free,
  up,
  ap (λ t. t.state) (tcb-switch_to next next v lt free) ∙ ground arith,
  ap (λ t. t.state) (tcb-switch_to next s.current_task v lt free) ∙ ground arith,
  ap (λ t. t.sp) (tcb-switch_to next s.current_task v lt free) ∙ ground arith,
  ground (
    arith,
    get_or-set_ne s.tcbs {i = s.current_task} {j = next}
        (record (get_or s.tcbs s.current_task dead_tcb) { sp = sub32 s.psp 32; state = 1 })
        dead_tcb,
  ),
  ap (λ t. t.counter) (tcb-switch_to next next v lt free) ∙ ground arith,
  switch_to-IsValid next v lt,
)

-- When a task other than the current one is ready, the handler switches to a ready task that comes
-- no later in the table, marks it running and the old one ready, raises the counter of the
-- new one, and keeps the old stack pointer for its return, below the eight registers that it saves.
pub pend_sv_switches :
    {s : Tasks} (j : ℕ)
    → IsValid s
    → j < 5
    → j ≢ s.current_task
    → state_of s j ≡ 1
    → let s' = pend_sv_handler s in
      (s'.current_task ≤ j)
      × (s'.current_task ≢ s.current_task)
      × (state_of s s'.current_task ≡ 1)
      × (state_of s' s'.current_task ≡ 2)
      × (state_of s' s.current_task ≡ 1)
      × ((get_or s'.tcbs s.current_task dead_tcb).sp ≡ sub32 s.psp 32)
      × (s'.psp ≡ ((get_or s.tcbs s'.current_task dead_tcb).sp + 32) % 2 ^ 32)
      × ((get_or s'.tcbs s'.current_task dead_tcb).counter
          ≡ ((get_or s.tcbs s'.current_task dead_tcb).counter + 1) % 2 ^ 32)
      × IsValid s'
unfolding pend_sv_handler
pend_sv_switches {s} j v hj other ready =
    let (next, found, from, upto, free, up) = scan-found 5 0 j s (omega arith) hj other ready in
    rw (found, pend_sv_handler) (switched s next j v upto (omega arith) free up)

-- The tasks 0 and 1 take turns.
record Pair (s : Tasks) : Type 0 where
  valid : IsValid s
  turns : (s.current_task ≡ 0) × (state_of s 1 ≡ 1) ⊎ (s.current_task ≡ 1) × (state_of s 0 ≡ 1)

scan-Pair : {s : Tasks} → Pair s → scan 5 0 s ≡ some (1 - s.current_task)
unfolding scan
scan-Pair {s} p = ground (arith, p.turns)

pend_sv-Pair : {s : Tasks} → Pair s → pend_sv_handler s ≡ switch_to (1 - s.current_task) s
unfolding pend_sv_handler
pend_sv-Pair {s} p = rw (scan-Pair p, pend_sv_handler)

turned :
    (next : ℕ) (s : Tasks)
    → next ≡ 1 - s.current_task
    → state_of (switch_to next s) s.current_task ≡ 1
    → (s.current_task ≡ 0) × (state_of s 1 ≡ 1) ⊎ (s.current_task ≡ 1) × (state_of s 0 ≡ 1)
    → (next ≡ 0) × (state_of (switch_to next s) 1 ≡ 1)
      ⊎ (next ≡ 1) × (state_of (switch_to next s) 0 ≡ 1)
turned next s e up (inl (at, _)) = inr (omega arith, ap (state_of (switch_to next s)) (sym at) ∙ up)
turned next s e up (inr (at, _)) = inl (omega arith, ap (state_of (switch_to next s)) (sym at) ∙ up)

tick-Pair :
    {s : Tasks} (i : ℕ)
    → Pair s
    → 2 ≤ i
    → Pair (pend_sv_handler s)
      × (get_or (pend_sv_handler s).tcbs i dead_tcb ≡ get_or s.tcbs i dead_tcb)
unfolding switch_to
tick-Pair {s} i p h =
    let next = 1 - s.current_task in
    let lt : next < 5 = omega arith in
    let free : next ≢ s.current_task = omega (arith, p.turns) in
    rw (pend_sv-Pair p) (
      record {
        valid = switch_to-IsValid next p.valid lt;
        turns =
            turned next s refl
              (ap (λ t. t.state) (tcb-switch_to next s.current_task p.valid lt free)
                ∙ ground (arith, free))
              p.turns;
      },
      tcb-switch_to next i p.valid lt free ∙ ground (arith, p.turns),
    )

-- The switch is not round-robin: while tasks 0 and 1 take turns, every task from 2 on keeps its
-- control block unchanged, ready or not, for any number of timer ticks, and never is current.
pub ticks-starve :
    (n : ℕ) {s : Tasks} (i : ℕ)
    → IsValid s
    → (s.current_task ≡ 0) × (state_of s 1 ≡ 1) ⊎ (s.current_task ≡ 1) × (state_of s 0 ≡ 1)
    → 2 ≤ i
    → ((ticks n s).current_task < 2)
      × (get_or (ticks n s).tcbs i dead_tcb ≡ get_or s.tcbs i dead_tcb)
unfolding ticks
ticks-starve zero i v turns h = (omega (arith, turns), refl)
ticks-starve (suc n) {s} i v turns h =
    let (p, same) = tick-Pair i (record { valid = v; turns = turns }) h in
    let (low, later) = ticks-starve n i p.valid p.turns h in (low, later ∙ same)
