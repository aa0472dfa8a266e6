-- ===== src/Compiler/Fns/Table.antt =====
-- src/compiler/parser.rs: a function stored is found again, and its program has its words.
use mathlib.Core.Path.{subst}
use hr_os.Prelude.{
  ℕ, zero, suc, ◌-◌, ◌≤◌, ◌<◌, ◌≡◌, ◌≢◌, refl, ap, sym, ◌∙◌, ◌⊎◌, inl, inr, Bool, true, false, ◌&&◌,
  Bool-cases, Option, none, some, Option-cases, List, [], ◌++◌, Result, ok, err, ltb, ◌==◌,
  if◌then◌else◌, arith, length, get_or, take, drop, replicate, take-append, length-set,
  get_or-set_self, get_or-set_ne, bytes_eq_refl,
}
use hr_os.Compiler.Names.{
  ParseError, stream_full, name_too_long, duplicate_fn, fn_table_full, NameBuf, name_max,
  from_slice, as_slice, eq_bytes, as_slice-from_slice,
}
use hr_os.Compiler.Stream.{Compiler, max_fns, fn_body_words, no_name}
use hr_os.Compiler.Fns.{
  find_index, name_at, fn_allocated, find_fn, alloc_fn_slot, store_fn, import_fn, export_fn,
}

pub record IsValid (c : Compiler) : Type 0 where
  pub names : length c.fn_names ≡ max_fns
  pub bodies : length c.fn_bodies ≡ max_fns
  pub lens : length c.fn_body_lens ≡ max_fns

find-none : (test : ℕ → Bool) → find_index test 2 0 ≡ none → (j : ℕ) → j < 2 → test j ≡ false
unfolding find_index
find-none test h zero lt = ground (arith, h)
find-none test h (suc zero) lt = ground (arith, h)
find-none test h (suc (suc j)) lt = absurd (omega arith)

pub find-some : (test : ℕ → Bool) (i : ℕ) → find_index test 2 0 ≡ some i → (i < 2) × (test i ≡ true)
unfolding find_index
find-some test i h = ground (arith, h)

find-only :
    (test : ℕ → Bool) (i : ℕ)
    → i < 2
    → test i ≡ true
    → ((j : ℕ) → j < 2 → j ≢ i → test j ≡ false)
    → find_index test 2 0 ≡ some i
unfolding find_index
find-only test zero lt h others = rw h refl
find-only test (suc zero) lt h others = rw (others 0 (omega arith) (omega arith), h) refl
find-only test (suc (suc i)) lt h others = absurd (omega arith)

abbrev pub exported : ℕ → List ℕ → ℕ → Option (List ℕ)
exported room body len = if ltb room len then none else some (take len body)

abbrev pub exported_from : Compiler → ℕ → Option ℕ → Option (List ℕ)
exported_from c room none = none
exported_from c room (some i) = exported room (get_or c.fn_bodies i []) (get_or c.fn_body_lens i 0)

pub export_at :
    (c : Compiler) (name : List ℕ) (room i : ℕ)
    → find_fn name c ≡ some i
    → export_fn name room c ≡ exported room (get_or c.fn_bodies i []) (get_or c.fn_body_lens i 0)
unfolding export_fn
export_at c name room i h = ap (exported_from c room) h

module _ (c : Compiler) (v : IsValid c) (i : ℕ) (lt : i < 2) (buf : NameBuf) (name words : List ℕ)
    (same : as_slice buf ≡ name) (named : 0 < buf.len) (free : find_fn name c ≡ none) where
  abbrev stored : Compiler
  unfolding store_fn
  stored = (store_fn i buf words c).0

  name_at-hit : name_at stored i ≡ buf
  unfolding store_fn
  name_at-hit = get_or-set_self c.fn_names i buf no_name (omega (arith, v.names, lt))

  name_at-miss : (j : ℕ) → j ≢ i → name_at stored j ≡ name_at c j
  unfolding store_fn
  name_at-miss j ne = get_or-set_ne c.fn_names {i = i} {j = j} buf no_name (λ e. ne (sym e))

  find-store : find_fn name stored ≡ some i
  unfolding find_fn fn_allocated eq_bytes store_fn
  find-store =
      find-only (λ j. fn_allocated stored j && eq_bytes (name_at stored j) name) i lt
        (rw (name_at-hit, same, bytes_eq_refl name) (ground (arith, named)))
        (λ j jlt ne.
          rw (name_at-miss j ne)
            (find-none (λ k. fn_allocated c k && eq_bytes (name_at c k) name) free j jlt))

  export-store : (room : ℕ) → length words ≤ room → export_fn name room stored ≡ some words
  unfolding export_fn store_fn
  export-store room fits =
      let len = get_or-set_self c.fn_body_lens i (length words) 0 (omega (arith, v.lens, lt)) in
      let kept = words ++ drop (length words) (get_or c.fn_bodies i []) in
      let body = get_or-set_self c.fn_bodies i kept [] (omega (arith, v.bodies, lt)) in
      export_at stored name room i find-store
      ∙ ap (exported room (get_or stored.fn_bodies i [])) len
      ∙ ap (λ b. exported room b (length words)) body
      ∙ rw (take-append words (drop (length words) (get_or c.fn_bodies i [])))
          (ground (arith, fits))

-- The lengths of the three tables after a function is stored.
pub store-IsValid :
    {c : Compiler} (v : IsValid c) (i : ℕ) (buf : NameBuf) (words : List ℕ)
    → IsValid (store_fn i buf words c).0
unfolding store_fn
store-IsValid {c} v i buf words = record {
  names = length-set c.fn_names i buf ∙ v.names;
  bodies =
      length-set c.fn_bodies i (words ++ drop (length words) (get_or c.fn_bodies i [])) ∙ v.bodies;
  lens = length-set c.fn_body_lens i (length words) ∙ v.lens;
}

-- What the search for a place finds: the name taken, both places taken, or a place.
pub data Place (buf : NameBuf) (c : Compiler) : Type 0 where
  taken :
      (i : ℕ)
      → find_fn (as_slice buf) c ≡ some i
      → alloc_fn_slot buf c ≡ (c, err duplicate_fn)
      → Place buf c
  full :
      ((i : ℕ) → i < max_fns → (name_at c i).len ≢ 0)
      → alloc_fn_slot buf c ≡ (c, err fn_table_full)
      → Place buf c
  free :
      (i : ℕ)
      → i < max_fns
      → find_fn (as_slice buf) c ≡ none
      → alloc_fn_slot buf c ≡ (c, ok i)
      → Place buf c

abbrev free_place : Compiler → Option ℕ → Compiler × Result ParseError ℕ
free_place c (some i) = (c, ok i)
free_place c none = (c, err fn_table_full)

abbrev place_from : Compiler → Option ℕ → Option ℕ → Compiler × Result ParseError ℕ
place_from c (some i) empty = (c, err duplicate_fn)
place_from c none empty = free_place c empty

abbrev empty_at : Compiler → ℕ → Bool
empty_at c i = (name_at c i).len == 0

alloc_at :
    (buf : NameBuf) (c : Compiler)
    → alloc_fn_slot buf c
      ≡ place_from c (find_fn (as_slice buf) c) (find_index (empty_at c) max_fns 0)
unfolding alloc_fn_slot
alloc_at buf c = elim (Option-cases (find_fn (as_slice buf) c)) [
  | inr (i, e) ↦ ground (arith, e)
  | inl e ↦ ground (arith, e)
]

pub place : (buf : NameBuf) (c : Compiler) → Place buf c
place buf c = elim (Option-cases (find_fn (as_slice buf) c)) [
  | inr (i, e) ↦
      taken i e (alloc_at buf c ∙ ap (λ o. place_from c o (find_index (empty_at c) max_fns 0)) e)
  | inl e ↦
      let at = alloc_at buf c ∙ ap (λ o. place_from c o (find_index (empty_at c) max_fns 0)) e in
      elim (Option-cases (find_index (empty_at c) max_fns 0)) [
        | inr (i, f) ↦ free i (find-some (empty_at c) i f).0 e (at ∙ ap (free_place c) f)
        | inl f ↦
            full (λ i lt z. absurd (ground (arith, find-none (empty_at c) f i lt, z)))
              (at ∙ ap (free_place c) f)
      ]
]

-- The outcomes of an import.
abbrev pub Imported : List ℕ → List ℕ → Compiler → Compiler × Result ParseError (Unit {0}) → Type 0
Imported name words c (c', r) =
    ((r ≡ ok tt) × IsValid c' × (export_fn name fn_body_words c' ≡ some words))
    ⊎ ((c' ≡ c)
        × ((r ≡ err name_too_long) × (name_max < length name)
            ⊎ (r ≡ err stream_full) × (fn_body_words < length words)
            ⊎ (r ≡ err duplicate_fn) × ((i : ℕ) × (find_fn name c ≡ some i))
            ⊎ (r ≡ err fn_table_full) × ((i : ℕ) → i < max_fns → (name_at c i).len ≢ 0)))

abbrev and_store :
    NameBuf → List ℕ → Compiler × Result ParseError ℕ → Compiler × Result ParseError (Unit {0})
and_store buf words (c, ok i) = store_fn i buf words c
and_store buf words (c, err e) = (c, err e)

module _ (c : Compiler) (v : IsValid c) (buf : NameBuf) (name words : List ℕ)
    (same : as_slice buf ≡ name) (named : 0 < buf.len) (fits : length words ≤ fn_body_words) where
  placed-Imported : Imported name words c (and_store buf words (alloc_fn_slot buf c))
  unfolding store_fn
  placed-Imported = elim (place buf c) [
    | taken i e at ↦
        subst (λ a. Imported name words c (and_store buf words a)) (sym at)
          (inr (refl, inr (inr (inl (refl, (i, subst (λ n. find_fn n c ≡ some i) same e))))))
    | full none_free at ↦
        subst (λ a. Imported name words c (and_store buf words a)) (sym at)
          (inr (refl, inr (inr (inr (refl, none_free)))))
    | free i lt e at ↦
        subst (λ a. Imported name words c (and_store buf words a)) (sym at)
          (inl (
            refl,
            store-IsValid v i buf words,
            export-store c v i lt buf name words same named (subst (λ n. find_fn n c ≡ none) same e)
                fn_body_words fits,
          ))
  ]

stored_bind :
    (buf : NameBuf) (words : List ℕ) (a : Compiler × Result ParseError ℕ)
    → elim a.1 [ ok i ↦ store_fn i buf words a.0 | err e ↦ (a.0, err e) ] ≡ and_store buf words a
stored_bind buf words (c, ok i) = refl
stored_bind buf words (c, err e) = refl

abbrev buffer : List ℕ → NameBuf
buffer name = record { len = length name; bytes = name ++ replicate (name_max - length name) 0 }

import_at :
    (name words : List ℕ) (c : Compiler)
    → ltb name_max (length name) ≡ false
    → ltb fn_body_words (length words) ≡ false
    → import_fn name words c ≡ and_store (buffer name) words (alloc_fn_slot (buffer name) c)
unfolding import_fn
import_at name words c short fits =
    rw (short, fits) (stored_bind (buffer name) words (alloc_fn_slot (buffer name) c))

-- Storing a function under a name that is not empty either succeeds, and then reading it back
-- gives its words and the tables stay well formed; or it fails and changes nothing, with an error
-- that says why: the name or the body is too long, the name is taken, or both places are.
pub export-import :
    {c : Compiler} (name words : List ℕ)
    → IsValid c
    → 0 < length name
    → Imported name words c (import_fn name words c)
unfolding import_fn from_slice
export-import {c} name words v some_name = elim (Bool-cases (ltb name_max (length name))) [
  | inl long ↦ rw long (inr (refl, inl (refl, ground (arith, long))))
  | inr short ↦ elim (Bool-cases (ltb fn_body_words (length words))) [
    | inl large ↦ rw (short, large) (inr (refl, inr (inl (refl, ground (arith, large)))))
    | inr fits ↦
        let made : from_slice name ≡ ok (buffer name) = rw short refl in
        subst (Imported name words c) (sym (import_at name words c short fits)) (
          placed-Imported c v (buffer name) name words
            (as_slice-from_slice name (buffer name) made).0 some_name (ground (arith, fits)))
  ]
]
