-- ===== src/Memory/Guard.antt =====
-- src/kernel/memory.rs: the accesses that the capability registry guards.
use hr_os.Prelude.{
  ◌+◌, Bool, ltb, ◌&&◌, ℕ, not, none, some, List, Result, ok, err, if◌then◌else◌, codes,
}
use hr_os.Caps.Registry.{RegistryBits, is_claimed}
use hr_os.Caps.Access.{Arch, index, addr_to_cap_id, is_superuser_active}
use hr_os.Caps.Audit.{AuditLog, record_event}
use hr_os.Memory.Flat.{Memory, peek_u32, poke_u32, words_at}

pub data MemError : Type 0 where
  capability_violation permission_denied : MemError

pub as_bytes : MemError → List ℕ
as_bytes capability_violation = codes "E001: CAPABILITY_VIOLATION - Peripheral token not claimed"
as_bytes permission_denied =
    codes "E002: PERMISSION_DENIED - Unmapped MMIO access requires SuperUserCap"

-- Where the program lies: the linker places `REGISTRY_BITS` in SRAM, at 0x2000_1000 on ARM and at
-- 0x8000_1800 on RISC-V, and the audit log in `.bss`. `overwritten` is what a word written over the
-- log makes of it, which the layout of its fields decides.
pub record Board : Type 0 where
  pub arch : Arch
  pub registry_at : ℕ
  pub log_at : ℕ
  pub overwritten : ℕ → ℕ → AuditLog → AuditLog

-- What a guarded access reads and writes. The registry is eight words of the memory; the audit log
-- stands beside it, and its bytes are not kept in `mem`.
pub record Machine : Type 0 where
  pub log : AuditLog
  pub mem : Memory

abbrev pub bits : Board → Machine → RegistryBits
bits board m = words_at 8 board.registry_at m.mem

-- Sixteen entries of twelve bytes, the head and the count.
abbrev pub log_size : ℕ
log_size = 200

-- A word at `addr` and `size` bytes at `start` have a byte in common.
abbrev pub overlaps : ℕ → ℕ → ℕ → Bool
overlaps addr start size = ltb addr (start + size) && ltb start (addr + 4)

unfoldable pub write_volatile : Board → ℕ → ℕ → Machine → Machine
write_volatile board addr value m = record {
  log = if overlaps addr board.log_at log_size then board.overwritten addr value m.log else m.log;
  mem = poke_u32 addr value m.mem;
}

unfoldable pub enforced_poke_u32 :
    Board → ℕ → ℕ → ℕ → Machine → Machine × Result MemError (Unit {0})
enforced_poke_u32 board cycles addr value m =
    let written = write_volatile board addr value m in
    let recorded = record m { log = record_event cycles addr value m.log } in
    if is_superuser_active (bits board m)
    then (write_volatile board addr value recorded, ok tt)
    else elim (addr_to_cap_id board.arch addr) [
      | some cap_id ↦
          if not (is_claimed (bits board m) (index cap_id))
          then (m, err capability_violation)
          else (written, ok tt)
      | none ↦ (written, ok tt)
    ]

unfoldable pub enforced_peek_u32 : Board → ℕ → Machine → Result MemError ℕ
enforced_peek_u32 board addr m =
    let value = peek_u32 addr m.mem in
    if is_superuser_active (bits board m) then ok value else elim (addr_to_cap_id board.arch addr) [
      | some cap_id ↦
          if not (is_claimed (bits board m) (index cap_id))
          then err capability_violation
          else ok value
      | none ↦ ok value
    ]
