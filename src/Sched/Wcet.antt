-- ===== src/Sched/Wcet.antt =====
-- crates/hros-kernel/src/wcet.rs: the worst-case ledger and the response-time analysis.
-- `usize` has 32 bits, and sums and products wrap, as in a release build.
pub mod Exact
pub mod Analysis
use hr_os.Prelude.{
  ℕ, zero, suc, ◌+◌, ◌-◌, ◌*◌, ◌/◌, ◌%◌, ◌^◌, Bool, Option, none, some, List, [], ◌∷◌, ◌==◌, ltb,
  if◌then◌else◌,
}

unfoldable pub t_jit : ℕ → ℕ
t_jit s_bytes = s_bytes * 25 % 2 ^ 32

unfoldable pub t_cap : ℕ → Bool → ℕ
t_cap n_accesses vector = n_accesses * (if vector then 1 else 3) % 2 ^ 32

abbrev pub t_ctx : ℕ
t_ctx = 43

unfoldable pub t_exec : List ℕ → List ℕ → ℕ
t_exec (c ∷ bb_costs) (b ∷ bounds) = (c * b + t_exec bb_costs bounds) % 2 ^ 32
t_exec _ _ = 0

unfoldable pub total_wcet : ℕ → ℕ → Bool → List ℕ → List ℕ → ℕ
unfolding t_jit t_cap t_exec
total_wcet s_bytes n_cap vector bb_costs bounds =
    (t_jit s_bytes + t_cap n_cap vector + t_exec bb_costs bounds + t_ctx) % 2 ^ 32

-- The answer of the analysis, or the panic of a division by the period 0.
pub data Response : Type 0 where
  response : Option ℕ → Response
  panics : Response

-- The inner loop: `next`, and what the tasks of higher priority add to it within `r`.
unfoldable pub add_higher : ℕ → List (ℕ × ℕ) → ℕ → Option ℕ
add_higher next [] r = some next
add_higher next ((w_tj, p_j) ∷ higher) r =
    let rest =
      add_higher ((next + (r + p_j + (2 ^ 32 - 1)) % 2 ^ 32 / p_j * w_tj) % 2 ^ 32) higher r in
    if p_j == 0 then none else rest

-- The outer loop, with the rounds left.
unfoldable pub rta_rounds : ℕ → ℕ → List (ℕ × ℕ) → ℕ → ℕ → Response
rta_rounds zero w_ti higher deadline r = response none
rta_rounds (suc rounds) w_ti higher deadline r = elim (add_higher w_ti higher r) [
  | none ↦ panics
  | some next ↦
      let again = rta_rounds rounds w_ti higher deadline next in
      if ltb deadline next then response none else if next == r then response (some r) else again
]

unfoldable pub rta_response_time : ℕ → List (ℕ × ℕ) → ℕ → Response
rta_response_time w_ti higher deadline = rta_rounds 100 w_ti higher deadline w_ti
