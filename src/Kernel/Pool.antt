-- ===== src/Kernel/Pool.antt =====
-- src/kernel/pool.rs: bump allocation in four pools of 2048 bytes. The base of the region is the
-- linker's and a parameter. A `usize` has 32 bits, and sums wrap as in a release build.
pub mod Blocks
use hr_os.Prelude.{
  ℕ, ◌+◌, ◌-◌, ◌*◌, ◌/◌, ◌%◌, ◌^◌, List, [], ◌∷◌, Result, ok, err, leb, ltb, if◌then◌else◌, get_or,
  set,
}

abbrev pub pool_size : ℕ
pool_size = 8192

abbrev pub num_pools : ℕ
num_pools = 4

abbrev pub task_pool_size : ℕ
task_pool_size = pool_size / num_pools

abbrev pub Offsets : Type 0
Offsets = List ℕ

abbrev pub offsets : Offsets
offsets = 0 ∷ 0 ∷ 0 ∷ 0 ∷ []

pub data PoolError : Type 0 where
  bad_task full bad_align : PoolError

unfoldable pub alloc : ℕ → ℕ → ℕ → Offsets → Offsets × Result PoolError ℕ
alloc pool_base task_idx size offs =
    let off = get_or offs task_idx 0 in
    let base = (pool_base + task_idx * task_pool_size) % 2 ^ 32 in
    let addr = (base + off) % 2 ^ 32 in
    if leb num_pools task_idx
    then (offs, err bad_task)
    else if ltb task_pool_size ((off + size) % 2 ^ 32)
    then (offs, err full)
    else (set offs task_idx ((off + size) % 2 ^ 32), ok addr)

unfoldable pub reset : ℕ → Offsets → Offsets × Result PoolError (Unit {0})
reset task_idx offs =
    if leb num_pools task_idx then (offs, err bad_task) else (set offs task_idx 0, ok tt)

unfoldable pub remaining : ℕ → Offsets → Result PoolError ℕ
remaining task_idx offs =
    if leb num_pools task_idx then err bad_task else ok (task_pool_size - get_or offs task_idx 0)
