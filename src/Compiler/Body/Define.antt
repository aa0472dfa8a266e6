-- ===== src/Compiler/Body/Define.antt =====
-- src/compiler/parser.rs: the functions that the parser defines touch granted addresses only.
use mathlib.Core.Path.{subst}
use hr_os.Prelude.{
  ℕ, zero, suc, ◌-◌, ◌≤◌, ◌<◌, ◌≡◌, ◌≢◌, refl, ap, sym, ◌∙◌, inl, inr, ◌⊎◌, Bool-cases, List, [],
  ◌∷◌, ◌++◌, Result, ok, err, ltb, if◌then◌else◌, arith, length, get_or, set, take, drop,
  length-append, get_or-set_self, get_or-set_ne, take-append,
}
use hr_os.Compiler.Names.{ParseError, stream_full, NameBuf}
use hr_os.Compiler.Cursor.{Cur}
use hr_os.Compiler.Expr.{Halt}
use hr_os.Compiler.Stream.{Compiler, max_fns, fn_body_words, stream_reset}
use hr_os.Compiler.Stream.Programs.{emitted}
use hr_os.Compiler.Fns.{alloc_fn_slot, store_fn, short_body, store_stream, define_fn}
use hr_os.Compiler.Fns.Table
use hr_os.Compiler.Fns.Table.{Place, taken, full, free, place, store-IsValid}
use hr_os.Compiler.Emit.Writes.{Same, Sized, length-emitted, then_m}
use hr_os.Compiler.Action.{Env, ◌>>◌, on_compiler, pure}
use hr_os.Compiler.Action.Safe.{continue, at_cursor}
use hr_os.Compiler.Action.Guarded.{Guarded, Follows, Body, Bodies, Grows-refl}
use hr_os.Compiler.Body.Guarded.{Body-Same}
use hr_os.Compiler.Body.Blocks.{whole_block-Guards}
use hr_os.Compiler.Body.{whole_block, define_body}

-- The buffers have their sizes, and the bodies are those of granted accesses.
pub record Good (env : Env) (c : Compiler) : Type 0 where
  pub sized : Sized c
  pub valid : Table.IsValid c
  pub rooms : (i : ℕ) → i < max_fns → length (get_or c.fn_bodies i []) ≡ fn_body_words
  pub bodies : Bodies env c

pub Good-Same : {env : Env} {base c : Compiler} → Good env base → Same base c → Good env c
Good-Same g s = record {
  sized = s.sized;
  valid = record {
    names = ap length s.names ∙ g.valid.names;
    bodies = ap length s.bodies ∙ g.valid.bodies;
    lens = ap length s.lens ∙ g.valid.lens;
  };
  rooms = λ i lt. rw s.bodies (g.rooms i lt);
  bodies = λ i lt. Body-Same i s (g.bodies i lt);
}

length-drop : (xs : List ℕ) (n : ℕ) → length (drop n xs) ≡ length xs - n
length-drop xs zero = omega arith
length-drop [] (suc n) = omega arith
length-drop (x ∷ xs) (suc n) = length-drop xs n ∙ omega arith

abbrev defined :
    NameBuf → Compiler × Result ParseError (Unit {0}) → Compiler × Result ParseError (Unit {0})
defined name r = then_m (λ _ c. then_m (store_stream name) (alloc_fn_slot name c)) r

module _ {env : Env} where
  module _ (c : Compiler) (g : Good env c) (i : ℕ) (lt : i < max_fns) (name : NameBuf)
      (words : List ℕ) (fits : length words ≤ fn_body_words) (guarded : Guarded env words) where
    abbrev old : List ℕ
    old = get_or c.fn_bodies i []

    abbrev kept : List ℕ
    kept = words ++ drop (length words) old

    abbrev after : Compiler
    after = record c {
      fn_names = set c.fn_names i name;
      fn_body_lens = set c.fn_body_lens i (length words);
      fn_bodies = set c.fn_bodies i kept;
    }

    body_hit : get_or after.fn_bodies i [] ≡ kept
    body_hit = get_or-set_self c.fn_bodies i kept [] (omega (arith, g.valid.bodies, lt))

    len_hit : get_or after.fn_body_lens i 0 ≡ length words
    len_hit = get_or-set_self c.fn_body_lens i (length words) 0 (omega (arith, g.valid.lens, lt))

    length-kept : length kept ≡ fn_body_words
    length-kept =
        length-append words (drop (length words) old)
        ∙ omega (arith, length-drop old (length words), g.rooms i lt, fits)

    new-Body : Body env after i
    new-Body = record {
      inside = rw (body_hit, len_hit, length-kept) fits;
      guarded = rw (body_hit, len_hit, take-append words (drop (length words) old)) guarded;
    }

    old-Body : (j : ℕ) → j < max_fns → i ≢ j → Body env after j
    old-Body j jlt ne = record {
      inside =
          rw
            (
              get_or-set_ne c.fn_body_lens {i = i} {j = j} (length words) 0 ne,
              get_or-set_ne c.fn_bodies {i = i} {j = j} kept [] ne,
            )
            (g.bodies j jlt).inside;
      guarded =
          rw
            (
              get_or-set_ne c.fn_body_lens {i = i} {j = j} (length words) 0 ne,
              get_or-set_ne c.fn_bodies {i = i} {j = j} kept [] ne,
            )
            (g.bodies j jlt).guarded;
    }

    same_or_not : (j : ℕ) → (i ≡ j) ⊎ (i ≢ j)
    same_or_not j = omega arith

    store-Good : Good env (store_fn i name words c).0
    unfolding store_fn
    store-Good = record {
      sized = record { size = g.sized.size; full = g.sized.full };
      valid = store-IsValid g.valid i name words;
      rooms = λ j jlt. elim (same_or_not j) [
        | inl e ↦
            subst (λ k. length (get_or after.fn_bodies k []) ≡ fn_body_words) e
              (ap length body_hit ∙ length-kept)
        | inr ne ↦ ap length (get_or-set_ne c.fn_bodies {i = i} {j = j} kept [] ne) ∙ g.rooms j jlt
      ];
      bodies = λ j jlt. elim (same_or_not j) [
        | inl e ↦ subst (λ k. Body env after k) e new-Body
        | inr ne ↦ old-Body j jlt ne
      ];
    }

  then_store :
      (name : NameBuf) (c : Compiler)
      → Guarded env (emitted c)
      → c.stream_len ≤ fn_body_words
      → Good env c
      → Good env (then_m (store_stream name) (alloc_fn_slot name c)).0
  unfolding store_stream
  then_store name c guarded fits g = elim (place name c) [
    | taken i e at ↦ subst (λ r. Good env (then_m (store_stream name) r).0) (sym at) g
    | full none at ↦ subst (λ r. Good env (then_m (store_stream name) r).0) (sym at) g
    | free i lt e at ↦
        subst (λ r. Good env (then_m (store_stream name) r).0) (sym at)
          (store-Good c g i lt name (emitted c) (omega (arith, length-emitted c g.sized)) guarded)
  ]

  define_fn-Good :
      (name : NameBuf) (c : Compiler)
      → Guarded env (emitted c)
      → Good env c
      → Good env (define_fn name c).0
  unfolding define_fn short_body
  define_fn-Good name c guarded g = elim (Bool-cases (ltb fn_body_words c.stream_len)) [
    | inl e ↦
        subst (λ b. Good env (defined name (if b then (c, err stream_full) else (c, ok tt))).0)
          (sym e) g
    | inr e ↦
        subst (λ b. Good env (defined name (if b then (c, err stream_full) else (c, ok tt))).0)
          (sym e) (then_store name c guarded (ground (arith, e)) g)
  ]

  after_define :
      (name : NameBuf) (cur : Cur) (r : Compiler × Result ParseError (Unit {0}))
      → Good env r.0
      → Good env (continue (λ _. pure name) (at_cursor cur r)).0
  after_define name cur (c, ok a) g = g
  after_define name cur (c, err e) g = g

  define_after :
      (name : NameBuf) (base : Compiler) (r : Compiler × Result Halt (Unit {0} × Cur))
      → base.stream_len ≡ 0
      → Good env base
      → Follows env base r
      → Good env (continue (λ _. on_compiler (define_fn name) >> pure name) r).0
  define_after name base (c, err e) empty g f = Good-Same g f
  define_after name base (c, ok (_, cur)) empty g f =
      let guarded : Guarded env (emitted c) =
        subst (λ ws. Guarded env ws)
          (sym (f.emits.words ∙ ap (λ n. take n base.stream ++ f.words) empty)) f.guarded in
      let done = define_fn-Good name c guarded (Good-Same g f.emits.same) in
      after_define name cur (define_fn name c) done

  pub define_body-Good :
      (name : NameBuf) (c : Compiler) (cur : Cur)
      → Good env c
      → Good env (define_body env name c cur).0
  unfolding define_body stream_reset
  define_body-Good name c cur g =
      let base : Compiler = record c { stream_len = 0 } in
      let sized : Sized base = record { size = g.sized.size; full = omega arith } in
      let good = Good-Same g (record { names = refl; bodies = refl; lens = refl; sized = sized }) in
      define_after name base (whole_block env base cur) refl good (
        (whole_block-Guards env base sized good.bodies).follows base cur
          (Grows-refl env base sized))
