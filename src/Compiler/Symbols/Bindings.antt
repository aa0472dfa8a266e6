-- ===== src/Compiler/Symbols/Bindings.antt =====
-- src/compiler/parser.rs: the symbol table is a finite map.
use hr_os.Prelude.{
  ℕ, zero, suc, ◌+◌, ◌-◌, ◌%◌, ◌<◌, ◌≡◌, ◌≢◌, refl, sym, ap, ◌∙◌, ◌⊎◌, inl, inr, true, false, not,
  ◌||◌, Bool-cases, none, some, List, ok, err, ◌==◌, if◌then◌else◌, arith, get_or, set, length-set,
  get_or-set_self, get_or-set_ne, replicate, length-replicate, get_or-replicate, bytes_eq,
  bytes_eq→≡, bytes_eq_refl,
}
use mathlib.Core.Path.{subst}
use hr_os.Compiler.Names.{symbol_table_full, NameBuf, as_slice}
use hr_os.Compiler.Symbols.{
  Symbol, symbol_slots, empty_symbol, hash, holds, fill, lookup_from, lookup_symbol, insert_symbol,
}
use hr_os.Compiler.Symbols.Probe.{
  slot, holds-fill, holds_unique, PassedUpTo, nowhere, somewhere, insert_outcome, IsValid,
  lookup-passed, lookup-absent,
}

module _ (symbols : List Symbol) (v : IsValid symbols) (name : List ℕ) (value k : ℕ) where
  abbrev target : ℕ
  target = (hash name + k) % symbol_slots

  abbrev filled : Symbol
  filled = fill (slot symbols name k) name value

  slot-hit :
      (m : List ℕ) (j : ℕ)
      → (hash m + j) % symbol_slots ≡ target
      → slot (set symbols target filled) m j ≡ filled
  slot-hit m j e =
      ap (λ i. get_or (set symbols target filled) i empty_symbol) e
      ∙ get_or-set_self symbols target filled empty_symbol (omega (arith, v.slots))

  slot-miss :
      (m : List ℕ) (j : ℕ)
      → (hash m + j) % symbol_slots ≢ target
      → slot (set symbols target filled) m j ≡ slot symbols m j
  slot-miss m j e =
      get_or-set_ne symbols {i = target} {j = (hash m + j) % symbol_slots} filled empty_symbol
        (λ h. e (sym h))

  filled-other : (m : List ℕ) → m ≢ name → holds filled m ≡ false
  filled-other m ne = elim (Bool-cases (holds filled m)) [
    | inl h ↦
        absurd (ne (holds_unique filled m name h (holds-fill (slot symbols name k) name value)))
    | inr h ↦ h
  ]

  module _
      (stop : (not (slot symbols name k).used || holds (slot symbols name k) name) ≡ true) where
    -- Past a slot that was free, the probe for another name finds nothing.
    absent-past :
        (m : List ℕ) (left step : ℕ)
        → m ≢ name
        → step + suc left ≡ symbol_slots
        → (slot symbols m step).used ≡ false
        → lookup_from (set symbols target filled) m left (step + 1) ≡ none
    absent-past m left step ne size free =
        lookup-absent (set symbols target filled) m left (step + 1) (λ j a b used.
          elim (Bool-cases ((hash m + j) % symbol_slots == target)) [
            | inl e ↦ ap (λ s. holds s m) (slot-hit m j (ground (arith, e))) ∙ filled-other m ne
            | inr e ↦
                let same = slot-miss m j (ground (arith, e)) in
                elim (Bool-cases (holds (slot symbols m j) m)) [
                  | inl here ↦ absurd (
                      ground (
                        arith,
                        free,
                        v.no_gap m step j (omega arith) (omega arith)
                            (sym (ap (λ s. s.used) same) ∙ used) here,
                      ))
                  | inr gone ↦ ap (λ s. holds s m) same ∙ gone
                ]
          ])

    lookup-other :
        (m : List ℕ) (left step : ℕ)
        → m ≢ name
        → step + left ≡ symbol_slots
        → lookup_from (set symbols target filled) m left step ≡ lookup_from symbols m left step
    unfolding lookup_from fill
    lookup-other m zero step ne size = refl
    lookup-other m (suc left) step ne size =
        elim (Bool-cases ((hash m + step) % symbol_slots == target)) [
          | inl e ↦
              let at : (hash m + step) % symbol_slots ≡ target = ground (arith, e) in
              let old : slot symbols m step ≡ slot symbols name k =
                ap (λ i. get_or symbols i empty_symbol) at in
              elim (Bool-cases (slot symbols name k).used) [
                | inl taken ↦
                    let mine : holds (slot symbols name k) name ≡ true =
                      ground (arith, stop, taken) in
                    let other : holds (slot symbols name k) m ≡ false =
                      elim (Bool-cases (holds (slot symbols name k) m)) [
                        | inl h ↦ absurd (ne (holds_unique (slot symbols name k) m name h mine))
                        | inr h ↦ h
                      ] in
                    rw (slot-hit m step at, old, taken, other, filled-other m ne)
                      (lookup-other m left (step + 1) ne (omega arith))
                | inr free ↦
                    rw (slot-hit m step at, old, free, filled-other m ne)
                      (absent-past m left step ne size (ap (λ s. s.used) old ∙ free))
              ]
          | inr e ↦
              rw
                (
                  slot-miss m step (ground (arith, e)),
                  lookup-other m left (step + 1) ne (omega arith),
                )
                refl
        ]

    still-used :
        (m : List ℕ) (j : ℕ)
        → (slot symbols m j).used ≡ true
        → (slot (set symbols target filled) m j).used ≡ true
    unfolding fill
    still-used m j used = elim (Bool-cases ((hash m + j) % symbol_slots == target)) [
      | inl e ↦ ap (λ s. s.used) (slot-hit m j (ground (arith, e)))
      | inr e ↦ ap (λ s. s.used) (slot-miss m j (ground (arith, e))) ∙ used
    ]

    insert-IsValid :
        PassedUpTo symbols name 0 k → k < symbol_slots → IsValid (set symbols target filled)
    insert-IsValid ps lt = record {
      slots = length-set symbols target filled ∙ v.slots;
      no_gap = λ m j l a b used here.
          still-used m j (elim (Bool-cases ((hash m + l) % symbol_slots == target)) [
            | inl e ↦
                let at : (hash m + l) % symbol_slots ≡ target = ground (arith, e) in
                let same : m ≡ name =
                  holds_unique filled m name (sym (ap (λ s. holds s m) (slot-hit m l at)) ∙ here)
                    (holds-fill (slot symbols name k) name value) in
                let level : l ≡ k =
                  omega (arith, sym (ap (λ n. (hash n + l) % symbol_slots) same) ∙ at) in
                subst (λ n. (slot symbols n j).used ≡ true) (sym same)
                  (ps j (omega arith) (omega arith)).0
            | inr e ↦
                let miss = slot-miss m l (ground (arith, e)) in
                v.no_gap m j l a b (sym (ap (λ s. s.used) miss) ∙ used)
                  (sym (ap (λ s. holds s m) miss) ∙ here)
          ]);
    }

    lookup-same :
        PassedUpTo symbols name 0 k
        → k < symbol_slots
        → lookup_from (set symbols target filled) name symbol_slots 0 ≡ some value
    unfolding fill
    lookup-same ps lt =
        let table = set symbols target filled in
        let hit = slot-hit name k refl in
        lookup-passed table name symbol_slots 0 k
          (λ j a b.
            let miss = slot-miss name j (λ e. absurd (omega (arith, e))) in
            (ap (λ s. s.used) miss ∙ (ps j a b).0, ap (λ s. holds s name) miss ∙ (ps j a b).1))
          (omega arith) lt (ap (λ s. s.used) hit)
          (ap (λ s. holds s name) hit ∙ holds-fill (slot symbols name k) name value)
        ∙ ap (λ s. some s.value) hit

    lookup-inserted :
        PassedUpTo symbols name 0 k
        → k < symbol_slots
        → (m : List ℕ)
        → lookup_from (set symbols target filled) m symbol_slots 0
          ≡ (if bytes_eq name m then some value else lookup_from symbols m symbol_slots 0)
    lookup-inserted ps lt m = elim (Bool-cases (bytes_eq name m)) [
      | inl e ↦ rw (e, sym (bytes_eq→≡ name m e)) (lookup-same ps lt)
      | inr e ↦
          let ne : m ≢ name = λ h. absurd (ground (arith, e, bytes_eq_refl name, h)) in
          rw e (lookup-other m symbol_slots 0 ne refl)
    ]

-- Inserting into a valid table either binds the name to the value and changes no other binding, and
-- the table stays valid; or it fails with `SymbolTableFull` and changes nothing, which happens only
-- when no slot is free and the name is not bound.
pub lookup-insert :
    {symbols : List Symbol} (buf : NameBuf) (value : ℕ)
    → IsValid symbols
    → let (symbols', r) = insert_symbol buf value symbols in
      ((r ≡ ok tt)
        × IsValid symbols'
        × ((m : List ℕ)
            → lookup_symbol symbols' m
              ≡ (if bytes_eq (as_slice buf) m then some value else lookup_symbol symbols m)))
      ⊎ ((r ≡ err symbol_table_full)
          × (symbols' ≡ symbols)
          × (lookup_symbol symbols (as_slice buf) ≡ none)
          × ((i : ℕ) → i < symbol_slots → (get_or symbols i empty_symbol).used ≡ true))
unfolding insert_symbol lookup_symbol
lookup-insert {symbols} buf value v =
    elim (insert_outcome symbols (as_slice buf) value symbol_slots 0) [
      | nowhere e ps ↦ inr (
        ap (λ r. r.1) e,
        ap (λ r. r.0) e,
        lookup-absent symbols (as_slice buf) symbol_slots 0 (λ j a b used. (ps j a b).1),
        λ i lt.
            let j = (i + symbol_slots - hash (as_slice buf) % symbol_slots) % symbol_slots in
            ap (λ at. (get_or symbols at empty_symbol).used) (omega arith)
            ∙ (ps j (omega arith) (omega arith)).0,
      )
      | somewhere k a b ps stop e ↦
          let at = ap (λ r. r.0) e in
          let name = as_slice buf in
          inl (
            ap (λ r. r.1) e,
            subst IsValid (sym at) (insert-IsValid symbols v name value k stop ps b),
            λ m.
                ap (λ t. lookup_from t m symbol_slots 0) at
                ∙ lookup-inserted symbols v name value k stop ps b m,
          )
    ]

-- The table that the compiler starts with.
pub boot-IsValid : IsValid (replicate symbol_slots empty_symbol)
boot-IsValid = record {
  slots = length-replicate symbol_slots empty_symbol;
  no_gap = λ name j k a b used here. absurd (
      ground (
        arith,
        sym (
              ap (λ s. s.used)
                (get_or-replicate symbol_slots empty_symbol ((hash name + k) % symbol_slots)))
            ∙ used,
      ));
}
