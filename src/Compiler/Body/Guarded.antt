-- ===== src/Compiler/Body/Guarded.antt =====
-- src/compiler/parser.rs: a body writes the words of accesses that the registry grants.
use mathlib.Core.Path.{subst}
use hr_os.Prelude.{
  ℕ, ◌-◌, ◌<◌, ◌≡◌, refl, ap, ap₂, sym, ◌∙◌, inl, inr, ◌||◌, ◌&&◌, none, some, Option-cases, List,
  [], ◌∷◌, ◌++◌, ltb, ◌==◌, arith, length, get_or, take, drop,
}
use hr_os.Vm.Threaded.{assemble}
use hr_os.Compiler.Names.{loop_too_large, eq_bytes}
use hr_os.Compiler.Cursor.{Cur}
use hr_os.Compiler.Stream.{Compiler, max_fns}
use hr_os.Compiler.Stream.Programs.{emitted}
use hr_os.Compiler.Fns.{name_at, fn_allocated, find_fn, need_fn, push_fn, splice_call}
use hr_os.Compiler.Fns.Table.{find-some}
use hr_os.Compiler.Fns.Calls.{need_at, need_from}
use hr_os.Compiler.Emit.{emit_poke, emit_peek, unroll_from}
use hr_os.Compiler.Emit.Writes.{
  Same, Sized, Writes, then_m, Emits-len, length-emitted, emit_poke-Writes, emit_peek-Writes,
  push_body-Writes,
}
use hr_os.Compiler.Emit.Copies.{repeat, unroll-Writes}
use hr_os.Compiler.Emit.Guarded.{
  poke_at, peek_at, code, Granted, operations, times, Granted-times, code-times,
}
use hr_os.Compiler.Action.{Env, on_compiler}
use hr_os.Compiler.Action.Safe.{at_cursor}
use hr_os.Compiler.Action.Guarded.{
  Guarded, Grows, Follows, Body, Bodies, write-Follows, Guards, bind-Guards, pure-Guards,
  fail-Guards, if-Guards, eval-Guards, atomic-Guards, expect_semicolon-Guards, check-Guards,
  on_compiler-Guards,
}
use hr_os.Compiler.Body.{max_loop_unroll, in_loop_range, poke_stmt, peek_stmt}

pub in_loop_range-Guards :
    {env : Env} {base : Compiler} (count : ℕ) → Guards env base (in_loop_range count)
in_loop_range-Guards count =
    if-Guards (count == 0 || ltb max_loop_unroll count) (fail-Guards loop_too_large)
      (pure-Guards tt)

pub found_in_table : (name : List ℕ) (c : Compiler) (i : ℕ) → find_fn name c ≡ some i → i < max_fns
unfolding find_fn
found_in_table name c i e = (find-some (λ j. fn_allocated c j && eq_bytes (name_at c j) name) i e).0

repeat-Guarded : {env : Env} {ws : List ℕ} (n : ℕ) → Guarded env ws → Guarded env (repeat n ws)
repeat-Guarded {env} n g = record {
  accesses = times n g.accesses;
  granted = Granted-times env n g.accesses g.granted;
  words = ap (repeat n) g.words ∙ sym (code-times env.link n g.accesses);
}

-- What is behind a prefix.
slice-behind : (xs ys : List ℕ) → take (length ys) (drop (length xs) (xs ++ ys)) ≡ ys
slice-behind [] [] = refl
slice-behind [] (y ∷ ys) = ap (λ t. y ∷ t) (slice-behind [] ys)
slice-behind (x ∷ xs) ys = slice-behind xs ys

module _ {env : Env} where
  pub poke_stmt-Guards : {base : Compiler} → Guards env base (poke_stmt env)
  unfolding poke_stmt code operations assemble Granted
  poke_stmt-Guards = bind-Guards atomic-Guards (λ addr. bind-Guards (eval-Guards none) (λ val.
      bind-Guards expect_semicolon-Guards (λ _.
        check-Guards addr (on_compiler (emit_poke env.link addr val)) (λ e.
          on_compiler-Guards (code env.link (poke_at addr val ∷ [])) (emit_poke env.link addr val)
            (record { accesses = poke_at addr val ∷ []; granted = (e, tt); words = refl })
            (emit_poke-Writes env.link addr val)))))

  pub peek_stmt-Guards : {base : Compiler} → Guards env base (peek_stmt env)
  unfolding peek_stmt code operations assemble Granted
  peek_stmt-Guards = bind-Guards atomic-Guards (λ addr. bind-Guards expect_semicolon-Guards (λ _.
      check-Guards addr (on_compiler (emit_peek env.link addr)) (λ e.
        on_compiler-Guards (code env.link (peek_at addr ∷ [])) (emit_peek env.link addr)
          (record { accesses = peek_at addr ∷ []; granted = (e, tt); words = refl })
          (emit_peek-Writes env.link addr))))

  -- What was written since the loop began is copied.
  unroll-Follows :
      (base : Compiler) (count : ℕ) (c : Compiler) (cur : Cur)
      → Sized base
      → Grows env base c
      → Follows env base (on_compiler (unroll_from count base.stream_len) c cur)
  unfolding unroll_from
  unroll-Follows base count c cur s g =
      let start = base.stream_len in
      let len = c.stream_len - start in
      let total = Emits-len base g.words c s g.emits in
      let body : take len (drop start (emitted c)) ≡ g.words =
        ap (λ t. take len (drop start t)) g.emits.words
        ∙ ap₂ (λ n k. take n (drop k (emitted base ++ g.words)))
            (let same : len ≡ length g.words = omega arith in same) (sym (length-emitted base s))
        ∙ slice-behind (emitted base) g.words in
      write-Follows (repeat (count - 1) g.words) cur (unroll_from count start c) g
        (repeat-Guarded (count - 1) g.guarded)
        (subst (λ ws. Writes c (repeat (count - 1) ws) (unroll_from count start c)) body
          (unroll-Writes (count - 1) start len c g.emits.same.sized (omega arith)))

  pub unroll-Guards :
      (base : Compiler) (count : ℕ)
      → Sized base
      → Guards env base (on_compiler (unroll_from count base.stream_len))
  unroll-Guards base count s = record { follows = λ c cur g. unroll-Follows base count c cur s g }

  -- A call writes the words of a function's body.
  pub Body-Same : {base c : Compiler} (i : ℕ) → Same base c → Body env base i → Body env c i
  Body-Same i same b = record {
    inside = rw (same.lens, same.bodies) b.inside;
    guarded = rw (same.lens, same.bodies) b.guarded;
  }

  push-Follows :
      (base : Compiler) (i : ℕ) (c : Compiler) (cur : Cur)
      → Body env base i
      → Grows env base c
      → Follows env base (at_cursor cur (push_fn i c))
  unfolding push_fn
  push-Follows base i c cur b g =
      let here = Body-Same i g.emits.same b in
      let len = get_or c.fn_body_lens i 0 in
      let body = get_or c.fn_bodies i [] in
      write-Follows (take len body) cur (push_fn i c) g here.guarded
        (push_body-Writes len 0 body c g.emits.same.sized (omega (arith, here.inside)))

  splice-Follows :
      (base : Compiler) (name : List ℕ) (c : Compiler) (cur : Cur)
      → Bodies env base
      → Grows env base c
      → Follows env base (on_compiler (splice_call name) c cur)
  unfolding splice_call need_fn
  splice-Follows base name c cur bodies g = elim (Option-cases (find_fn name c)) [
    | inl e ↦
        subst (λ r. Follows env base (at_cursor cur (then_m push_fn r))) (sym (ap (need_from c) e))
          g.emits.same
    | inr (i, e) ↦
        subst (λ r. Follows env base (at_cursor cur (then_m push_fn r))) (sym (need_at name c i e))
          (push-Follows base i c cur (bodies i (found_in_table name c i e)) g)
  ]

  pub splice-Guards :
      (base : Compiler) (name : List ℕ)
      → Bodies env base
      → Guards env base (on_compiler (splice_call name))
  splice-Guards base name bodies = record {
    follows = λ c cur g. splice-Follows base name c cur bodies g;
  }
