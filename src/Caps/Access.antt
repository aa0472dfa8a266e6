-- ===== src/Caps/Access.antt =====
-- src/capabilities/registry.rs: physical address to capability, and the access check.
-- The target architecture is an argument where the source says `#[cfg(target_arch)]`.
pub mod Check
use hr_os.Prelude.{
  ℕ, Bool, true, false, ◌&&◌, ◌||◌, not, Option, none, some, Result, ok, err, leb, if◌then◌else◌,
  List, codes,
}
use hr_os.Caps.Registry.{RegistryBits, available, is_claimed}

pub data Arch : Type 0 where
  arm riscv32 host : Arch

pub data CapId : Type 0 where
  gpio_a gpio_b uart0 spi0 i2c0 timer0 dma0 super_user : CapId

-- `cap_id as usize`.
abbrev pub index : CapId → ℕ
index gpio_a = 0
index gpio_b = 1
index uart0 = 2
index spi0 = 3
index i2c0 = 4
index timer0 = 5
index dma0 = 6
index super_user = 31

-- A `lo..=hi` pattern.
abbrev pub within : ℕ → ℕ → ℕ → Bool
within lo hi addr = leb lo addr && leb addr hi

unfoldable pub arm_addr_to_cap : ℕ → Option CapId
arm_addr_to_cap addr =
    if within 0x4002_0000 0x4002_03FF addr
    then some gpio_a
    else if within 0x4002_0400 0x4002_07FF addr
    then some gpio_b
    else if within 0x4001_1000 0x4001_13FF addr
    then some uart0
    else if within 0x4001_3000 0x4001_33FF addr
    then some spi0
    else if within 0x4001_5400 0x4001_57FF addr
    then some i2c0
    else if within 0x4000_0000 0x4000_03FF addr
    then some timer0
    else if within 0x4000_2000 0x4000_23FF addr
    then some dma0
    else none

unfoldable pub riscv_addr_to_cap : ℕ → Option CapId
riscv_addr_to_cap addr =
    if within 0x1001_2000 0x1001_2FFF addr
    then some gpio_a
    else if within 0x1001_3000 0x1001_3FFF addr
    then some uart0
    else if within 0x1001_4000 0x1001_4FFF addr
    then some spi0
    else if within 0x1002_0000 0x1002_0FFF addr
    then some i2c0
    else if within 0x1001_5000 0x1001_5FFF addr
    then some timer0
    else if within 0x1000_0000 0x1000_0FFF addr
    then some dma0
    else none

unfoldable pub addr_to_cap_id : Arch → ℕ → Option CapId
addr_to_cap_id arm addr = arm_addr_to_cap addr
addr_to_cap_id riscv32 addr = riscv_addr_to_cap addr
addr_to_cap_id host addr = none

unfoldable pub is_superuser_active : RegistryBits → Bool
is_superuser_active bits = not (available bits (index super_user))

unfoldable pub is_ram_flash : Arch → ℕ → Bool
is_ram_flash arm addr = within 0x0800_0000 0x080F_FFFF addr || within 0x2000_0000 0x2001_C000 addr
is_ram_flash riscv32 addr =
    within 0x2000_0000 0x2000_FFFF addr || within 0x8000_0000 0x8000_FFFF addr
is_ram_flash host addr = true

unfoldable pub check_access : Arch → RegistryBits → ℕ → Result CapId (Unit {0})
check_access arch bits addr =
    if is_superuser_active bits then ok tt else elim (addr_to_cap_id arch addr) [
      | some cap_id ↦ if not (is_claimed bits (index cap_id)) then err cap_id else ok tt
      | none ↦ if is_ram_flash arch addr then ok tt else err super_user
    ]
