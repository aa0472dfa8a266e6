-- ===== src/Compiler/Symbols/Probe.antt =====
-- src/compiler/parser.rs: the steps of the probe in the symbol table.
use hr_os.Prelude.{
  ℕ, zero, suc, ◌+◌, ◌%◌, ◌≤◌, ◌<◌, ◌≡◌, refl, inl, inr, true, false, not, ◌||◌, Bool-cases, none,
  some, List, ok, err, ◌==◌, arith, length, get_or, set, take, drop, take-append, bytes_eq→≡,
  bytes_eq_refl,
}
use mathlib.Core.Path.{subst}
use hr_os.Compiler.Names.{symbol_table_full}
use hr_os.Compiler.Symbols.{
  Symbol, symbol_slots, empty_symbol, hash, holds, fill, lookup_from, insert_from,
}

-- The slot at a step of the probe for a name.
abbrev pub slot : List Symbol → List ℕ → ℕ → Symbol
slot symbols name step = get_or symbols ((hash name + step) % symbol_slots) empty_symbol

pub holds-fill : (s : Symbol) (bytes : List ℕ) (value : ℕ) → holds (fill s bytes value) bytes ≡ true
unfolding holds fill
holds-fill s bytes value =
    ground (arith, take-append bytes (drop (length bytes) s.name), bytes_eq_refl bytes)

pub holds_unique : (s : Symbol) (a b : List ℕ) → holds s a ≡ true → holds s b ≡ true → a ≡ b
unfolding holds
holds_unique s a b ha hb =
    ground (arith, bytes_eq→≡ (take (length a) s.name) a, bytes_eq→≡ (take (length b) s.name) b)

-- A step that the probe for a name goes past.
abbrev pub Passed : List Symbol → List ℕ → ℕ → Type 0
Passed symbols name k =
    ((slot symbols name k).used ≡ true) × (holds (slot symbols name k) name ≡ false)

abbrev pub PassedUpTo : List Symbol → List ℕ → ℕ → ℕ → Type 0
PassedUpTo symbols name step k = (j : ℕ) → step ≤ j → j < k → Passed symbols name j

-- What an insertion finds: every slot taken by other names, or the first slot that is free or has
-- the name.
pub data Found (symbols : List Symbol) (name : List ℕ) (value step left : ℕ) : Type 0 where
  nowhere :
      insert_from symbols name value left step ≡ (symbols, err symbol_table_full)
      → PassedUpTo symbols name step (step + left)
      → Found symbols name value step left
  somewhere :
      (k : ℕ)
      → step ≤ k
      → k < step + left
      → PassedUpTo symbols name step k
      → (not (slot symbols name k).used || holds (slot symbols name k) name) ≡ true
      → insert_from symbols name value left step ≡ (
        set symbols ((hash name + k) % symbol_slots) (fill (slot symbols name k) name value),
        ok tt,
      )
      → Found symbols name value step left

extend :
    (symbols : List Symbol) (name : List ℕ) {step k : ℕ}
    → Passed symbols name step
    → PassedUpTo symbols name (step + 1) k
    → PassedUpTo symbols name step k
extend symbols name {step} p ps j a b = elim (Bool-cases (j == step)) [
  | inl e ↦ subst (Passed symbols name) (ground (arith, e)) p
  | inr e ↦ ps j (ground (arith, e)) b
]

pub insert_outcome :
    (symbols : List Symbol) (name : List ℕ) (value left step : ℕ)
    → Found symbols name value step left
unfolding insert_from
insert_outcome symbols name value zero step = nowhere refl (λ j a b. absurd (omega arith))
insert_outcome symbols name value (suc left) step =
    elim (Bool-cases (not (slot symbols name step).used || holds (slot symbols name step) name)) [
      | inl stop ↦
          somewhere step (omega arith) (omega arith) (λ j a b. absurd (omega arith)) stop
            (ground (arith, stop))
      | inr go ↦
          let here : Passed symbols name step = ground (arith, go) in
          elim (insert_outcome symbols name value left (step + 1)) [
            | nowhere e ps ↦
                nowhere (ground (arith, go, e))
                  (extend symbols name here (λ j a b. ps j a (omega arith)))
            | somewhere k a b ps stop e ↦
                somewhere k (omega arith) (omega arith) (extend symbols name here ps) stop
                  (ground (arith, go, e))
          ]
    ]

-- Every slot on a used slot's probe, up to it, is used: deletions do not exist, and an insertion
-- takes the first slot that is free.
pub record IsValid (symbols : List Symbol) : Type 0 where
  pub slots : length symbols ≡ symbol_slots
  pub no_gap :
      (name : List ℕ) (j k : ℕ)
      → j < k
      → k < symbol_slots
      → (slot symbols name k).used ≡ true
      → holds (slot symbols name k) name ≡ true
      → (slot symbols name j).used ≡ true

pub lookup-passed :
    (symbols : List Symbol) (name : List ℕ) (left step k : ℕ)
    → PassedUpTo symbols name step k
    → step ≤ k
    → k < step + left
    → (slot symbols name k).used ≡ true
    → holds (slot symbols name k) name ≡ true
    → lookup_from symbols name left step ≡ some (slot symbols name k).value
unfolding lookup_from
lookup-passed symbols name zero step k ps a b used here = absurd (omega arith)
lookup-passed symbols name (suc left) step k ps a b used here = elim (Bool-cases (step == k)) [
  | inl e ↦ let at : step ≡ k = ground (arith, e) in rw (at, used, here) refl
  | inr e ↦
      let lt : step < k = ground (arith, e) in
      let p = ps step (omega arith) lt in
      ground (
        arith,
        p.0,
        p.1,
        lookup-passed symbols name left (step + 1) k (λ j x y. ps j (omega arith) y) (omega arith)
            (omega arith) used here,
      )
]

pub lookup-absent :
    (symbols : List Symbol) (name : List ℕ) (left step : ℕ)
    → ((j : ℕ)
        → step ≤ j
        → j < step + left
        → (slot symbols name j).used ≡ true
        → holds (slot symbols name j) name ≡ false)
    → lookup_from symbols name left step ≡ none
unfolding lookup_from
lookup-absent symbols name zero step h = refl
lookup-absent symbols name (suc left) step h = ground (
  arith,
  h step (omega arith) (omega arith),
  lookup-absent symbols name left (step + 1) (λ j a b. h j (omega arith) (omega arith)),
)
