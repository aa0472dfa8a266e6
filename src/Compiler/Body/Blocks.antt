-- ===== src/Compiler/Body/Blocks.antt =====
-- src/compiler/parser.rs: blocks, loops and functions write the words of granted accesses.
use hr_os.Prelude.{ℕ, zero, suc, ◌+◌, some, List, ◌++◌, Result, ok, err, codes, bytes_eq}
use hr_os.Compiler.Lexer.{Token, identifier, rbrace, eof}
use hr_os.Compiler.Names.{unexpected_token}
use hr_os.Compiler.Cursor.{room}
use hr_os.Compiler.Expr.{Halt}
use hr_os.Compiler.Stream.{Compiler}
use hr_os.Compiler.Emit.{unroll_from}
use hr_os.Compiler.Emit.Writes.{Sized, Same-trans, Emits-trans}
use hr_os.Compiler.Action.{
  Env, P, ◌>>=◌, ◌>>◌, on_compiler, is_lparen, is_rparen, is_lbrace, expect,
}
use hr_os.Compiler.Action.Guarded.{
  Guarded-append, Grows, Follows, Bodies, Grows-refl, Guards, bind-Guards, pure-Guards, fail-Guards,
  if-Guards, take_token-Guards, look-Guards, eval-Guards, atomic-Guards, expect-Guards,
  expect_semicolon-Guards,
}
use hr_os.Compiler.Body.Guarded.{
  in_loop_range-Guards, poke_stmt-Guards, peek_stmt-Guards, unroll-Guards, splice-Guards, Body-Same,
}
use hr_os.Compiler.Body.{
  loop_stmt, call_stmt, expr_stmt, other_stmt, stmt_from, stream_pos, parse_body_stmt, block_from,
  block, whole_block,
}

Follows-trans :
    {A : Type 0} {env : Env} {base c : Compiler} (r : Compiler × Result Halt A)
    → Grows env base c
    → Follows env c r
    → Follows env base r
Follows-trans (c', ok a) g f = record {
  words = g.words ++ f.words;
  guarded = Guarded-append g.guarded f.guarded;
  emits = Emits-trans g.emits f.emits;
}
Follows-trans (c', err e) g f = Same-trans g.emits.same f

-- From every good compiler.
Always : Env → P (Unit {0}) → Type 0
Always env m = (base : Compiler) → Sized base → Bodies env base → Guards env base m

module _ {env : Env} where
  -- The loop's body grows the compiler that the loop found.
  inner_loop :
      (count : ℕ) (rest : P (Unit {0})) (base : Compiler)
      → Always env rest
      → Bodies env base
      → Guards env base (
          stream_pos >>= (λ start.
            expect is_lbrace unexpected_token >> (rest >> on_compiler (unroll_from count start))))
  unfolding stream_pos Always
  inner_loop count rest base all bodies = record {
    follows = λ c cur g.
        let sized = g.emits.same.sized in
        let here : Bodies env c = λ i lt. Body-Same i g.emits.same (bodies i lt) in
        let tail =
          bind-Guards (expect-Guards is_lbrace unexpected_token)
            (λ _. bind-Guards (all c sized here) (λ _. unroll-Guards c count sized)) in
        Follows-trans
          ((expect is_lbrace unexpected_token
              >> (rest >> on_compiler (unroll_from count c.stream_len)))
            c cur)
          g (tail.follows c cur (Grows-refl env c sized));
  }

  loop_stmt-Guards :
      (rest : P (Unit {0})) (base : Compiler)
      → Always env rest
      → Bodies env base
      → Guards env base (loop_stmt env rest)
  unfolding loop_stmt
  loop_stmt-Guards rest base all bodies = bind-Guards atomic-Guards (λ count.
      bind-Guards (in_loop_range-Guards count) (λ _. inner_loop count rest base all bodies))

  call_stmt-Guards :
      (id : List ℕ) (base : Compiler) → Bodies env base → Guards env base (call_stmt env id)
  unfolding call_stmt
  call_stmt-Guards id base bodies = bind-Guards take_token-Guards (λ _.
      bind-Guards (expect-Guards is_rparen unexpected_token)
        (λ _. bind-Guards expect_semicolon-Guards (λ _. splice-Guards base id bodies)))

  other_stmt-Guards :
      (id : List ℕ) (base : Compiler) → Bodies env base → Guards env base (other_stmt env id)
  unfolding other_stmt expr_stmt
  other_stmt-Guards id base bodies = bind-Guards look-Guards (λ tok.
      if-Guards (is_lparen tok) (call_stmt-Guards id base bodies)
        (bind-Guards (eval-Guards (some (identifier id))) (λ _. expect_semicolon-Guards)))

  stmt_from-Guards :
      (rest : P (Unit {0})) (tok : Token) (base : Compiler)
      → Always env rest
      → Bodies env base
      → Guards env base (stmt_from env rest tok)
  unfolding stmt_from
  stmt_from-Guards rest (identifier id) base all bodies =
      if-Guards (bytes_eq id (codes "poke")) poke_stmt-Guards (
        if-Guards (bytes_eq id (codes "peek")) peek_stmt-Guards (
          if-Guards (bytes_eq id (codes "loop")) (loop_stmt-Guards rest base all bodies)
            (other_stmt-Guards id base bodies)))
  stmt_from-Guards rest _ base all bodies = fail-Guards unexpected_token

  block_from-Guards :
      (rest : P (Unit {0})) (tok : Token) (base : Compiler)
      → Always env rest
      → Sized base
      → Bodies env base
      → Guards env base (block_from env rest tok)
  unfolding block_from parse_body_stmt Always
  block_from-Guards rest rbrace base all sized bodies =
      bind-Guards take_token-Guards (λ _. pure-Guards tt)
  block_from-Guards rest eof base all sized bodies = fail-Guards unexpected_token
  block_from-Guards rest _ base all sized bodies =
      bind-Guards (bind-Guards take_token-Guards (λ tok. stmt_from-Guards rest tok base all bodies))
        (λ _. all base sized bodies)

block-Always : (env : Env) (fuel : ℕ) → Always env (block env fuel)
unfolding block Always
block-Always env zero base sized bodies = record { follows = λ c cur g. g.emits.same }
block-Always env (suc fuel) base sized bodies =
    bind-Guards look-Guards
      (λ tok. block_from-Guards (block env fuel) tok base (block-Always env fuel) sized bodies)

pub whole_block-Guards :
    (env : Env) (base : Compiler) → Sized base → Bodies env base → Guards env base (whole_block env)
unfolding whole_block Always
whole_block-Guards env base sized bodies = record {
  follows = λ c cur g. (block-Always env (room cur + 1) base sized bodies).follows c cur g;
}
