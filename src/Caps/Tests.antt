-- ===== src/Caps/Tests.antt =====
-- src/capabilities: the theorems at concrete registries, and runs of the code.
use hr_os.Prelude.{
  ◌+◌, ◌≡◌, refl, false, ◌||◌, ◌&&◌, not, some, List, [], ◌∷◌, ◌==◌, ok, err, arith, ◌-◌, ◌%◌,
  get_or, min, ◌^◌,
}
use hr_os.Caps.Registry.{registry_bits, available, is_claimed, acquire, release}
use hr_os.Caps.Registry.Laws.{IsValid}
use hr_os.Caps.Registry.Ownership.{is_claimed-acquire, is_claimed-release}
use hr_os.Caps.Access.{
  gpio_a, arm, addr_to_cap_id, arm_addr_to_cap, check_access, is_superuser_active, is_ram_flash,
}
use hr_os.Caps.Access.Check.{check_access-remedy, check_access-acquire, check_access-release}
use hr_os.Caps.Audit.{AuditEntry, blank, entries, total_audits}
use hr_os.Caps.Audit.Recent.{replay, replay-recent}

boot-IsValid : IsValid registry_bits
boot-IsValid = omega arith

claimed_twice :
    ((acquire (acquire registry_bits 5).0 5).1 ≡ false)
    × (is_claimed (acquire registry_bits 37).0 5 ≡ false)
unfolding acquire is_claimed available
claimed_twice = (refl, refl)

is_claimed-acquire_example :
    ((acquire registry_bits 37).1 ≡ not (is_claimed registry_bits 37))
    × (is_claimed (acquire registry_bits 37).0 5 ≡ ((5 == 37) || is_claimed registry_bits 5))
    × IsValid (acquire registry_bits 37).0
is_claimed-acquire_example = is_claimed-acquire 37 5 boot-IsValid (omega arith) (omega arith)

is_claimed-release_example :
    (is_claimed (release registry_bits 3) 7 ≡ (not (7 == 3) && is_claimed registry_bits 7))
    × IsValid (release registry_bits 3)
is_claimed-release_example = is_claimed-release 3 7 boot-IsValid (omega arith) (omega arith)

refused : check_access arm registry_bits 0x4002_0010 ≡ err gpio_a
unfolding check_access is_superuser_active available is_claimed addr_to_cap_id arm_addr_to_cap
refused = refl

check_access-remedy_example :
    (is_superuser_active registry_bits ≡ false)
    × (is_claimed registry_bits 0 ≡ false)
    × (check_access arm (acquire registry_bits 0).0 0x4002_0010 ≡ ok tt)
check_access-remedy_example = check_access-remedy arm 0x4002_0010 gpio_a boot-IsValid refused

granted : check_access arm registry_bits 0x2000_0000 ≡ ok tt
unfolding check_access is_superuser_active available is_claimed addr_to_cap_id arm_addr_to_cap
    is_ram_flash
granted = refl

check_access-acquire_example : check_access arm (acquire registry_bits 2).0 0x2000_0000 ≡ ok tt
check_access-acquire_example =
    check_access-acquire arm 0x2000_0000 2 boot-IsValid (omega arith) granted

superuser_off : is_superuser_active registry_bits ≡ false
unfolding is_superuser_active available
superuser_off = refl

guards : addr_to_cap_id arm 0x4002_0010 ≡ some gpio_a
unfolding addr_to_cap_id arm_addr_to_cap
guards = refl

check_access-release_example : check_access arm (release registry_bits 0) 0x4002_0010 ≡ err gpio_a
check_access-release_example =
    check_access-release arm 0x4002_0010 gpio_a boot-IsValid superuser_off guards

abbrev two_events : List AuditEntry
two_events =
    record { addr = 8; val = 2; timestamp_cycles = 20 }
    ∷ record { addr = 4; val = 1; timestamp_cycles = 10 }
    ∷ []

replay-recent_example :
    (get_or (entries (replay two_events)) (((replay two_events).head + 15 - 1) % 16) blank
      ≡ get_or two_events 1 blank)
    × (total_audits (replay two_events) ≡ min 2 (2 ^ 32 - 1))
replay-recent_example = replay-recent two_events 1 (omega arith) (omega arith)
