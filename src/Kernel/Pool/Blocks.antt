-- ===== src/Kernel/Pool/Blocks.antt =====
-- src/kernel/pool.rs: the blocks that one pool hands out.
use hr_os.Prelude.{
  ℕ, ◌+◌, ◌-◌, ◌*◌, ◌%◌, ◌^◌, ◌≤◌, ◌<◌, ◌≡◌, ◌≢◌, sym, ◌⊎◌, ok, err, arith, length, get_or,
  length-set, get_or-set_self, get_or-set_ne, All, All-set, All-get_or,
}
use hr_os.Kernel.Pool.{task_pool_size, num_pools, pool_size, Offsets, full, alloc}

-- Four offsets, each inside its pool; the region lies in the address space.
pub record IsValid (pool_base : ℕ) (offs : Offsets) : Type 0 where
  pub pools : length offs ≡ num_pools
  pub inside : All (λ off. off ≤ task_pool_size) offs
  pub region : pool_base + pool_size < 2 ^ 32

offset_le :
    {pool_base : ℕ} {offs : Offsets} (t : ℕ)
    → IsValid pool_base offs
    → get_or offs t 0 ≤ task_pool_size
offset_le {offs = offs} t v =
    All-get_or (λ off. off ≤ task_pool_size) offs t 0 v.inside (omega arith)

-- While offset and size do not wrap, an allocation from a task's pool either fails with `Full`,
-- which happens exactly when the size exceeds what remains, and changes nothing; or it returns a
-- block that starts where the last one ended and lies inside that task's part of the region,
-- reduces what remains by the size, and leaves the other pools alone.
pub alloc_lem :
    {pool_base : ℕ} {offs : Offsets} (t other size : ℕ)
    → IsValid pool_base offs
    → t < num_pools
    → other ≢ t
    → get_or offs t 0 + size < 2 ^ 32
    → let (offs', r) = alloc pool_base t size offs in
      ((task_pool_size < get_or offs t 0 + size) × (r ≡ err full) × (offs' ≡ offs))
      ⊎ ((get_or offs t 0 + size ≤ task_pool_size)
          × (r ≡ ok (pool_base + t * task_pool_size + get_or offs t 0))
          × (get_or offs' t 0 ≡ get_or offs t 0 + size)
          × (get_or offs' other 0 ≡ get_or offs other 0)
          × IsValid pool_base offs')
unfolding alloc
alloc_lem {pool_base} {offs} t other size v ht apart fits = ground (
  arith,
  v,
  offset_le t v,
  length-set offs t (get_or offs t 0 + size),
  get_or-set_self offs t (get_or offs t 0 + size) 0,
  get_or-set_ne offs {i = t} {j = other} (get_or offs t 0 + size) 0 (λ e. apart (sym e)),
  All-set (λ off. off ≤ task_pool_size) offs t (get_or offs t 0 + size) v.inside,
)

-- A size near 2 ^ 32 defeats the check: once a task has allocated at least `back` bytes, asking
-- for 2 ^ 32 - back bytes succeeds and moves the pool's offset back by `back`, so that later
-- blocks overlap earlier ones.
pub alloc_wraps :
    {pool_base : ℕ} {offs : Offsets} (t back : ℕ)
    → IsValid pool_base offs
    → t < num_pools
    → 0 < back
    → back ≤ get_or offs t 0
    → let (offs', r) = alloc pool_base t (2 ^ 32 - back) offs in
      (r ≡ ok (pool_base + t * task_pool_size + get_or offs t 0))
      × (get_or offs' t 0 ≡ get_or offs t 0 - back)
unfolding alloc
alloc_wraps {pool_base} {offs} t back v ht pos le =
    let wrapped : (get_or offs t 0 + (2 ^ 32 - back)) % 2 ^ 32 ≡ get_or offs t 0 - back =
      omega (arith, offset_le t v) in
    ground (
      arith,
      v.region,
      v.pools,
      wrapped,
      offset_le t v,
      get_or-set_self offs t (get_or offs t 0 - back) 0,
    )
