-- ===== src/Kernel/Tests.antt =====
-- src/kernel: the theorems at concrete pools and task tables.
use hr_os.Prelude.{
  ℕ, ◌+◌, ◌-◌, ◌*◌, ◌%◌, ◌^◌, ◌≤◌, ◌<◌, ◌≡◌, ◌≢◌, refl, [], ◌∷◌, ◌⊎◌, inl, ok, err, arith, get_or,
}
use hr_os.Kernel.Pool.{Offsets, alloc, full, task_pool_size}
use hr_os.Kernel.Pool.Blocks.{alloc_lem, alloc_wraps}
use hr_os.Kernel.Pool.Blocks
use hr_os.Kernel.Multitask.{Tasks, Tcb, dead_tcb, pend_sv_handler, ticks, sub32}
use hr_os.Kernel.Multitask.Schedule
use hr_os.Kernel.Multitask.Schedule.{state_of, pend_sv_switches, ticks-starve}

abbrev used : Offsets
used = 100 ∷ 0 ∷ 0 ∷ 0 ∷ []

used-IsValid : Blocks.IsValid 0x2000_8000 used
used-IsValid = omega arith

alloc_lem_example :
    let (offs, r) = alloc 0x2000_8000 0 64 used in
    ((2048 < 100 + 64) × (r ≡ err full) × (offs ≡ used))
    ⊎ ((100 + 64 ≤ 2048)
        × (r ≡ ok (0x2000_8000 + 0 * task_pool_size + 100))
        × (get_or offs 0 0 ≡ 100 + 64)
        × (get_or offs 2 0 ≡ 0)
        × Blocks.IsValid 0x2000_8000 offs)
alloc_lem_example = alloc_lem 0 2 64 used-IsValid (omega arith) (omega arith) (omega arith)

alloc_wraps_example :
    let (offs, r) = alloc 0x2000_8000 0 (2 ^ 32 - 100) used in
    (r ≡ ok (0x2000_8000 + 0 * task_pool_size + 100)) × (get_or offs 0 0 ≡ 100 - 100)
alloc_wraps_example = alloc_wraps 0 100 used-IsValid (omega arith) (omega arith) (omega arith)

abbrev tcb : ℕ → ℕ → Tcb
tcb sp state = record { sp = sp; pc = 0; state = state; counter = 0 }

-- Task 0 runs, tasks 1 and 2 have been spawned.
abbrev spawned : Tasks
spawned = record {
  current_task = 0;
  tcbs = dead_tcb ∷ tcb 1000 1 ∷ tcb 2000 1 ∷ dead_tcb ∷ dead_tcb ∷ [];
  psp = 4000;
}

spawned-IsValid : Schedule.IsValid spawned
spawned-IsValid = omega arith

pend_sv_switches_example :
    let s = pend_sv_handler spawned in
    (s.current_task ≤ 2)
    × (s.current_task ≢ 0)
    × (state_of spawned s.current_task ≡ 1)
    × (state_of s s.current_task ≡ 2)
    × (state_of s 0 ≡ 1)
    × ((get_or s.tcbs 0 dead_tcb).sp ≡ sub32 4000 32)
    × (s.psp ≡ ((get_or spawned.tcbs s.current_task dead_tcb).sp + 32) % 2 ^ 32)
    × ((get_or s.tcbs s.current_task dead_tcb).counter
        ≡ ((get_or spawned.tcbs s.current_task dead_tcb).counter + 1) % 2 ^ 32)
    × Schedule.IsValid s
pend_sv_switches_example = pend_sv_switches 2 spawned-IsValid (omega arith) (omega arith) refl

ticks-starve_example :
    ((ticks 50 spawned).current_task < 2) × (get_or (ticks 50 spawned).tcbs 2 dead_tcb ≡ tcb 2000 1)
ticks-starve_example = ticks-starve 50 2 spawned-IsValid (inl (refl, refl)) (omega arith)
