-- ===== src/Sched/Wcet/Analysis.antt =====
-- crates/hros-kernel/src/wcet.rs: what `rta_response_time` finds is the least fixed point.
use hr_os.Prelude.{
  ℕ, zero, suc, ◌+◌, ◌-◌, ◌*◌, ◌/◌, ◌%◌, ◌^◌, ◌≤◌, ◌<◌, ◌≡◌, refl, Option, none, some, List, [],
  ◌∷◌, arith, All, ap, sym, ◌∙◌, false, ◌==◌,
}
use hr_os.Sched.Wcet.{response, add_higher, rta_rounds, rta_response_time}
use hr_os.Sched.Wcet.Exact.{
  Periodic, interference, demand, exact_rounds, interference_mono, rounds_sound, rounds-least,
  rounds_complete,
}

-- The task set fits the machine up to the deadline: the task's own work meets it, and neither a
-- deadline rounded up to a period nor the demand at the deadline leaves 32 bits.
pub record Fits (w : ℕ) (higher : List (ℕ × ℕ)) (deadline : ℕ) : Type 0 where
  pub own : w ≤ deadline
  pub periods : All (λ task. (0 < task.1) × (deadline + task.1 < 2 ^ 32)) higher
  pub load : demand w higher deadline < 2 ^ 32

Fits-Periodic :
    (higher : List (ℕ × ℕ)) (deadline : ℕ)
    → All (λ task. (0 < task.1) × (deadline + task.1 < 2 ^ 32)) higher
    → Periodic higher
Fits-Periodic [] deadline h = tt
Fits-Periodic ((w, p) ∷ higher) deadline (h, rest) = (h.0, Fits-Periodic higher deadline rest)

-- One wrapped sum of the inner loop, where it does not wrap.
ceil_exact :
    (next w p r : ℕ)
    → 0 < p
    → r + p < 2 ^ 32
    → next + (r + p - 1) / p * w < 2 ^ 32
    → (next + (r + p + (2 ^ 32 - 1)) % 2 ^ 32 / p * w) % 2 ^ 32 ≡ next + (r + p - 1) / p * w
ceil_exact next w p r pos room small =
    let wraps : (r + p + (2 ^ 32 - 1)) % 2 ^ 32 ≡ r + p - 1 = omega arith in
    ap (λ (n : ℕ). (next + n / p * w) % 2 ^ 32) wraps ∙ mod_small (next + (r + p - 1) / p * w) small
  where
    mod_small : (n : ℕ) → n < 2 ^ 32 → n % 2 ^ 32 ≡ n
    mod_small n h = omega arith

add_higher-exact :
    (next : ℕ) (higher : List (ℕ × ℕ)) (deadline r : ℕ)
    → All (λ task. (0 < task.1) × (deadline + task.1 < 2 ^ 32)) higher
    → r ≤ deadline
    → next + interference higher r < 2 ^ 32
    → add_higher next higher r ≡ some (next + interference higher r)
unfolding add_higher interference
add_higher-exact next [] deadline r h le small = ap some (omega arith)
add_higher-exact next ((w, p) ∷ higher) deadline r (h, rest) le small =
    let one : (next + (r + p + (2 ^ 32 - 1)) % 2 ^ 32 / p * w) % 2 ^ 32
        ≡ next + (r + p - 1) / p * w =
      ceil_exact next w p r h.0 (omega (arith, h.1)) (omega arith) in
    let all : add_higher (next + (r + p - 1) / p * w) higher r
        ≡ some (next + (r + p - 1) / p * w + interference higher r) =
      add_higher-exact (next + (r + p - 1) / p * w) higher deadline r rest le (omega arith) in
    let divides : (p == 0) ≡ false = ground (arith, h.0) in
    rw (divides, one) (all ∙ ap some (omega arith))

-- While the estimate stays within the deadline, the rounds are those in whole numbers.
rta_rounds-exact :
    (n w : ℕ) (higher : List (ℕ × ℕ)) (deadline r : ℕ)
    → Fits w higher deadline
    → r ≤ deadline
    → rta_rounds n w higher deadline r ≡ response (exact_rounds n w higher deadline r)
unfolding rta_rounds exact_rounds demand
rta_rounds-exact zero w higher deadline r fits le = refl
rta_rounds-exact (suc n) w higher deadline r fits le =
    let step : add_higher w higher r ≡ some (w + interference higher r) =
      add_higher-exact w higher deadline r fits.periods le (
        omega (
          arith,
          fits.load,
          interference_mono higher r deadline (Fits-Periodic higher deadline fits.periods) le,
        )) in
    rw (step, rta_rounds)
      (ground (arith, rta_rounds-exact n w higher deadline (w + interference higher r) fits))

-- For a task set that fits 32 bits up to the deadline: a response time that is found meets the
-- deadline, is a fixed point of the demand, taken in whole numbers, and is at most every time by
-- which that demand is served.
pub rta-least :
    (w : ℕ) (higher : List (ℕ × ℕ)) (deadline r : ℕ)
    → Fits w higher deadline
    → rta_response_time w higher deadline ≡ response (some r)
    → (demand w higher r ≡ r) × (r ≤ deadline) × ((x : ℕ) → demand w higher x ≤ x → r ≤ x)
unfolding rta_response_time demand
rta-least w higher deadline r fits found =
    let h = Fits-Periodic higher deadline fits.periods in
    let e : exact_rounds 100 w higher deadline w ≡ some r =
      answer (sym (rta_rounds-exact 100 w higher deadline w fits fits.own) ∙ found) in
    let (fixed, meets) = rounds_sound 100 w higher deadline w r h e in
    (
      fixed,
      meets,
      λ x served. rounds-least 100 w higher deadline w x r h e (at_least x served) served,
    )
  where
    answer : {a b : Option ℕ} → response a ≡ response b → a ≡ b
    answer e = cc

    at_least : (x : ℕ) → demand w higher x ≤ x → w ≤ x
    at_least x served = omega arith

-- For a task set that fits 32 bits up to a deadline less than a hundred above the task's own work,
-- a refusal means that no time up to the deadline serves the demand.
pub rta-refuses :
    (w : ℕ) (higher : List (ℕ × ℕ)) (deadline x : ℕ)
    → Fits w higher deadline
    → deadline < w + 100
    → rta_response_time w higher deadline ≡ response none
    → demand w higher x ≤ x
    → deadline < x
unfolding rta_response_time demand
rta-refuses w higher deadline x fits enough refused served =
    let e : exact_rounds 100 w higher deadline w ≡ none =
      answer (sym (rta_rounds-exact 100 w higher deadline w fits fits.own) ∙ refused) in
    rounds_complete 100 w higher deadline w x (Fits-Periodic higher deadline fits.periods) e
      (omega arith) enough (omega arith) served
  where
    answer : {a b : Option ℕ} → response a ≡ response b → a ≡ b
    answer e = cc
