-- ===== src/Sched/Shadow.antt =====
-- crates/hros-kernel/src/scheduler.rs, `ShadowStack`: the bounded stack of return addresses.
use hr_os.Prelude.{
  zero, suc, [], ◌∷◌, ap, refl, take, ℕ, ◌+◌, ◌-◌, ◌≤◌, ◌<◌, ◌≡◌, ◌⊎◌, Option, none, some, List,
  Result, ok, err, ◌==◌, leb, if◌then◌else◌, arith, length, get_or, set, length-set,
  get_or-set_self,
}

abbrev pub d_max : ℕ
d_max = 32

pub record ShadowStack : Type 0 where
  pub slots : List ℕ
  pub depth : ℕ

unfoldable pub push : ℕ → ShadowStack → ShadowStack × Result (Unit {0}) (Unit {0})
push ret_addr s =
    if leb d_max s.depth
    then (s, err tt)
    else (record { slots = set s.slots s.depth ret_addr; depth = s.depth + 1 }, ok tt)

unfoldable pub pop : ShadowStack → ShadowStack × Option ℕ
pop s =
    if s.depth == 0
    then (s, none)
    else (record s { depth = s.depth - 1 }, some (get_or s.slots (s.depth - 1) 0))

pub record IsValid (s : ShadowStack) : Type 0 where
  pub size : length s.slots ≡ d_max
  pub bound : s.depth ≤ d_max

take-set {ℓ} : {A : Type ℓ} (n : ℕ) (xs : List A) (v : A) → take n (set xs n v) ≡ take n xs
take-set zero xs v = refl
take-set (suc n) [] v = refl
take-set (suc n) (x ∷ xs) v = ap (λ r. x ∷ r) (take-set n xs v)

-- A push below the maximal depth succeeds, and the pop after it returns the address and restores
-- the depth and the return addresses below it; a push at the maximal depth fails and changes
-- nothing.
pub pop-push :
    {s : ShadowStack} (ret_addr : ℕ)
    → IsValid s
    → let (pushed, r) = push ret_addr s in
      ((s.depth < d_max)
        × (r ≡ ok tt)
        × IsValid pushed
        × ((pop pushed).1 ≡ some ret_addr)
        × ((pop pushed).0.depth ≡ s.depth)
        × (take s.depth (pop pushed).0.slots ≡ take s.depth s.slots))
      ⊎ ((s.depth ≡ d_max) × (r ≡ err tt) × (pushed ≡ s))
unfolding push pop
pop-push {s} ret_addr v = ground (
  arith,
  length-set s.slots s.depth ret_addr,
  get_or-set_self s.slots s.depth ret_addr 0,
  take-set s.depth s.slots ret_addr,
)
