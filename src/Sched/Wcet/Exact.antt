-- ===== src/Sched/Wcet/Exact.antt =====
-- crates/hros-kernel/src/wcet.rs: the analysis in whole numbers, with no bound on their size.
use hr_os.Prelude.{
  ℕ, zero, suc, ◌+◌, ◌-◌, ◌*◌, ◌/◌, ◌≤◌, ◌<◌, ◌≡◌, Option, none, some, List, [], ◌∷◌, arith, All,
  ◌==◌, ltb, if◌then◌else◌,
}
use native.Mathlib.Nat.{le-div_iff_mul-le, div-mul-le_self, le_trans}

-- The work that the tasks of higher priority bring in within `r`, pairs of a work and a period.
unfoldable pub interference : List (ℕ × ℕ) → ℕ → ℕ
interference [] r = 0
interference ((w_tj, p_j) ∷ higher) r = (r + p_j - 1) / p_j * w_tj + interference higher r

unfoldable pub demand : ℕ → List (ℕ × ℕ) → ℕ → ℕ
unfolding interference
demand w_ti higher r = w_ti + interference higher r

unfoldable pub exact_rounds : ℕ → ℕ → List (ℕ × ℕ) → ℕ → ℕ → Option ℕ
exact_rounds zero w_ti higher deadline r = none
exact_rounds (suc rounds) w_ti higher deadline r =
    let next = demand w_ti higher r in
    let again = exact_rounds rounds w_ti higher deadline next in
    if ltb deadline next then none else if next == r then some r else again

-- Every period is positive.
abbrev pub Periodic : List (ℕ × ℕ) → Type 0
Periodic = All (λ task. 0 < task.1)

pub none-ne-some {ℓ} : {A : Type ℓ} {a : A} → ◌≡◌ {A = Option A} none (some a) → ⊥
none-ne-some e = cc

div_mono : (x y p : ℕ) → 0 < p → x ≤ y → x / p ≤ y / p
div_mono x y p pos le = (le-div_iff_mul-le pos).1 (le_trans (div-mul-le_self x p) le)

pub interference_mono :
    (higher : List (ℕ × ℕ)) (x y : ℕ)
    → Periodic higher
    → x ≤ y
    → interference higher x ≤ interference higher y
unfolding interference
interference_mono [] x y h le = omega arith
interference_mono ((w, p) ∷ higher) x y h le =
    grind (arith, interference_mono higher x y h.1 le, div_mono (x + p - 1) (y + p - 1) p)

pub demand_mono :
    (w : ℕ) (higher : List (ℕ × ℕ)) (x y : ℕ)
    → Periodic higher
    → x ≤ y
    → demand w higher x ≤ demand w higher y
unfolding demand
demand_mono w higher x y h le = omega (arith, interference_mono higher x y h le)

pub rounds_sound :
    (n w : ℕ) (higher : List (ℕ × ℕ)) (deadline r found : ℕ)
    → Periodic higher
    → exact_rounds n w higher deadline r ≡ some found
    → (demand w higher found ≡ found) × (found ≤ deadline)
unfolding exact_rounds
rounds_sound zero w higher deadline r found h e = cc
rounds_sound (suc n) w higher deadline r found h e =
    ground (arith, rounds_sound n w higher deadline (demand w higher r) found h)

pub rounds-least :
    (n w : ℕ) (higher : List (ℕ × ℕ)) (deadline r x found : ℕ)
    → Periodic higher
    → exact_rounds n w higher deadline r ≡ some found
    → r ≤ x
    → demand w higher x ≤ x
    → found ≤ x
unfolding exact_rounds
rounds-least zero w higher deadline r x found h e le fix = absurd (none-ne-some e)
rounds-least (suc n) w higher deadline r x found h e le fix = ground (
  arith,
  rounds-least n w higher deadline (demand w higher r) x found h,
  demand_mono w higher r x h le,
)

-- Every round raises the estimate, so a refusal before the rounds run out is a missed deadline.
pub rounds_complete :
    (n w : ℕ) (higher : List (ℕ × ℕ)) (deadline r x : ℕ)
    → Periodic higher
    → exact_rounds n w higher deadline r ≡ none
    → r ≤ demand w higher r
    → deadline < r + n
    → r ≤ x
    → demand w higher x ≤ x
    → deadline < x
unfolding exact_rounds
rounds_complete zero w higher deadline r x h e up enough le served = omega arith
rounds_complete (suc n) w higher deadline r x h e up enough le served = ground (
  arith,
  rounds_complete n w higher deadline (demand w higher r) x h,
  demand_mono w higher r (demand w higher r) h up,
  demand_mono w higher r x h le,
)
