-- ===== src/Memory/Tests.antt =====
-- src/kernel/memory.rs: the theorems at a concrete machine.
use hr_os.Prelude.{◌≡◌, refl, none, some, err, ok, arith, true, false, ◌⊎◌, ◌↔◌, ◌+◌, ◌*◌, set}
use hr_os.Caps.Registry.{available, is_claimed}
use hr_os.Caps.Access.{
  CapId, index, arm, addr_to_cap_id, arm_addr_to_cap, is_superuser_active, is_ram_flash,
  check_access,
}
use hr_os.Caps.Audit.{new, record_event}
use hr_os.Memory.{peek_u32, poke_u32, words_at}
use hr_os.Memory.Guard.{
  Board, Machine, bits, log_size, overlaps, capability_violation, enforced_poke_u32,
  enforced_peek_u32,
}
use hr_os.Memory.Guarded.{enforced_poke_u32_lem, enforced_poke-registry, enforced-check_access}

abbrev board : Board
board = record {
  arch = arm;
  registry_at = 0x2000_1000;
  log_at = 0x2000_3000;
  overwritten = λ _ _ log. log;
}

abbrev machine : Machine
machine = record { log = new; mem = λ _. 0 }

open_ram : (enforced_poke_u32 board 0 0x2000_0000 77 machine).1 ≡ ok tt
unfolding enforced_poke_u32 is_superuser_active available is_claimed addr_to_cap_id arm_addr_to_cap
    words_at peek_u32
open_ram = refl

in_ram : addr_to_cap_id arm (0x2000_1000 + 4 * 0) ≡ none
unfolding addr_to_cap_id arm_addr_to_cap
in_ram = refl

-- GPIOA and the superuser capability, taken by one write.
enforced_poke-registry_example :
    let (m', r) = enforced_poke_u32 board 0 (0x2000_1000 + 4 * 0) 0x8000_0001 machine in
    (r ≡ ok tt) × (bits board m' ≡ set (bits board machine) 0 0x8000_0001)
enforced_poke-registry_example =
    enforced_poke-registry board 0 0 0x8000_0001 machine (omega arith) (omega arith) in_ram

enforced-check_access_example : ((enforced_poke_u32 board 0 0x5000_0000 1 machine).1 ≡ ok tt) ↔ (
    (check_access arm (bits board machine) 0x5000_0000 ≡ ok tt)
    ⊎ ((check_access arm (bits board machine) 0x5000_0000 ≡ err CapId.super_user)
        × (addr_to_cap_id arm 0x5000_0000 ≡ none)
        × (is_ram_flash arm 0x5000_0000 ≡ false)))
enforced-check_access_example = enforced-check_access board 0 0x5000_0000 1 machine

enforced_poke_u32_lem_example :
    let (m', r) = enforced_poke_u32 board 9 0x4002_0010 1 machine in
    ((m' ≡ machine)
      × (r ≡ err capability_violation)
      × (enforced_peek_u32 board 0x4002_0010 machine ≡ err capability_violation)
      × (is_superuser_active (bits board machine) ≡ false)
      × ((c : CapId) × (addr_to_cap_id arm 0x4002_0010 ≡ some c)
          × (is_claimed (bits board machine) (index c) ≡ false)))
    ⊎ ((m'.mem ≡ poke_u32 0x4002_0010 1 machine.mem)
        × (r ≡ ok tt)
        × (enforced_peek_u32 board 0x4002_0010 machine ≡ ok (peek_u32 0x4002_0010 machine.mem))
        × ((bits board m' ≡ bits board machine) ⊎ (overlaps 0x4002_0010 0x2000_1000 32 ≡ true))
        × ((is_superuser_active (bits board machine) ≡ true)
              × ((m'.log ≡ record_event 9 0x4002_0010 1 machine.log)
                  ⊎ (overlaps 0x4002_0010 0x2000_3000 log_size ≡ true))
            ⊎ (is_superuser_active (bits board machine) ≡ false)
              × ((m'.log ≡ machine.log) ⊎ (overlaps 0x4002_0010 0x2000_3000 log_size ≡ true))
              × ((c : CapId)
                  → addr_to_cap_id arm 0x4002_0010 ≡ some c
                  → is_claimed (bits board machine) (index c) ≡ true)))
enforced_poke_u32_lem_example = enforced_poke_u32_lem board 9 0x4002_0010 1 machine
