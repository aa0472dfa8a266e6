-- ===== src/Compiler/Body/Safe.antt =====
-- src/compiler/parser.rs: the statements of a body end, and so do its blocks.
use hr_os.Prelude.{
  ℕ, Bool, zero, suc, ◌+◌, ◌≤◌, ◌<◌, ◌≡◌, ◌≢◌, inl, inr, ◌||◌, none, some, List, Result, ok, err,
  arith, codes, bytes_eq, ltb, ◌==◌, sym, ◌∙◌, ap,
}
use hr_os.Compiler.Lexer.{Token, identifier, rbrace, eof}
use hr_os.Compiler.Names.{NameBuf, unexpected_token, loop_too_large}
use hr_os.Compiler.Emit.{emit_poke, emit_peek, unroll_from}
use hr_os.Compiler.Fns.{splice_call, define_fn, build_call_program}
use hr_os.Compiler.Cursor.{Cur, next, peek, room, next-room, peek-room, next-peek, peek-next}
use hr_os.Compiler.Expr.{Halt, starved, failed}
use hr_os.Compiler.Stream.{Compiler, stream_reset, stream_halt, take_program, build_value_program}
use hr_os.Compiler.Action.{Env, P, insert, take_token, look, is_lparen, is_rparen, is_lbrace}
use hr_os.Compiler.Action.Safe.{
  Within, Settles, Keeps, continue, bind_result, bind-Settles, pure-Settles, fail-Settles,
  if-Settles, on_compiler-Settles, take_token-Settles, look-Settles, eval-Settles, atomic-Settles,
  check-Settles, expect-Settles, expect_semicolon-Settles, expect_name-Settles,
}
use hr_os.Compiler.Body.{
  max_loop_unroll, stream_pos, in_loop_range, poke_stmt, peek_stmt, loop_stmt, call_stmt, expr_stmt,
  other_stmt, stmt_from, parse_body_stmt, block_from, block, whole_block, define_body, parse_fn,
}

pub within_all :
    {A : Type 0} (n m : ℕ) (r : Result Halt (A × Cur)) → m ≤ n → Within m r → Within n r
within_all n m (ok (a, cur)) le w = omega arith
within_all n m (err starved) le w = w
within_all n m (err (failed e)) le w = tt

pub in_loop_range-Settles :
    {I : Compiler → Type 0} {n : ℕ} (count : ℕ) → Settles I n (in_loop_range count)
in_loop_range-Settles count =
    if-Settles (count == 0 || ltb max_loop_unroll count) (fail-Settles loop_too_large)
      (pure-Settles tt)

stream_pos-Settles : {I : Compiler → Type 0} {n : ℕ} → Settles I n stream_pos
unfolding stream_pos
stream_pos-Settles = record { within = λ c cur lt. lt; keeps = λ c cur i. i }

-- What the lines of the console may do to the compiler, apart from the body of a function.
pub record Stable (env : Env) (I : Compiler → Type 0) : Type 0 where
  pub poke_word : (addr val : ℕ) → Keeps I (emit_poke env.link addr val)
  pub peek_word : (addr : ℕ) → Keeps I (emit_peek env.link addr)
  pub copies : (count : ℕ) → Keeps I (unroll_from count 0)
  pub reset : Keeps I stream_reset
  pub halt : Keeps I (stream_halt env.link)
  pub program : (yields_value : Bool) → Keeps I (take_program yields_value)
  pub value : (v : ℕ) → Keeps I (build_value_program env.link v)
  pub call : (name : List ℕ) → Keeps I (build_call_program env.link name)
  pub binding : (name : NameBuf) (v : ℕ) → Keeps I (insert name v)
  pub body : (name : NameBuf) (c : Compiler) (cur : Cur) → I c → I (define_body env name c cur).0

-- No invariant.
abbrev pub Anything : Compiler → Type 0
Anything c = Unit

pub anything : (env : Env) → Stable env Anything
anything env = record {
  poke_word = λ addr val c i. i;
  peek_word = λ addr c i. i;
  copies = λ count c i. i;
  reset = λ c i. i;
  halt = λ c i. i;
  program = λ y c i. i;
  value = λ v c i. i;
  call = λ name c i. i;
  binding = λ name v c i. i;
  body = λ name c cur i. i;
}

module _ (env : Env) where
  pub poke_stmt-Settles :
      {I : Compiler → Type 0} {n : ℕ} → Stable env I → Settles I n (poke_stmt env)
  unfolding poke_stmt
  poke_stmt-Settles stable = bind-Settles (atomic-Settles env) (λ addr.
      bind-Settles (eval-Settles env none) (λ val. bind-Settles expect_semicolon-Settles (λ _.
        bind-Settles (check-Settles env addr)
          (λ _. on_compiler-Settles (emit_poke env.link addr val) (stable.poke_word addr val)))))

  pub peek_stmt-Settles :
      {I : Compiler → Type 0} {n : ℕ} → Stable env I → Settles I n (peek_stmt env)
  unfolding peek_stmt
  peek_stmt-Settles stable = bind-Settles (atomic-Settles env) (λ addr.
      bind-Settles expect_semicolon-Settles (λ _.
        bind-Settles (check-Settles env addr)
          (λ _. on_compiler-Settles (emit_peek env.link addr) (stable.peek_word addr))))

  loop_stmt-Settles :
      {n : ℕ} {rest : P (Unit {0})}
      → Settles Anything n rest
      → Settles Anything n (loop_stmt env rest)
  unfolding loop_stmt
  loop_stmt-Settles s = bind-Settles (atomic-Settles env) (λ count.
      bind-Settles (in_loop_range-Settles count) (λ _. bind-Settles stream_pos-Settles (λ start.
        bind-Settles (expect-Settles is_lbrace unexpected_token)
          (λ _. bind-Settles s (λ _. on_compiler-Settles (unroll_from count start) (λ c i. i))))))

  call_stmt-Settles : {n : ℕ} (id : List ℕ) → Settles Anything n (call_stmt env id)
  unfolding call_stmt
  call_stmt-Settles id = bind-Settles take_token-Settles (λ _.
      bind-Settles (expect-Settles is_rparen unexpected_token) (λ _.
        bind-Settles expect_semicolon-Settles
          (λ _. on_compiler-Settles (splice_call id) (λ c i. i))))

  other_stmt-Settles : {n : ℕ} (id : List ℕ) → Settles Anything n (other_stmt env id)
  unfolding other_stmt expr_stmt
  other_stmt-Settles id = bind-Settles look-Settles (λ tok.
      if-Settles (is_lparen tok) (call_stmt-Settles id)
        (bind-Settles (eval-Settles env (some (identifier id))) (λ _. expect_semicolon-Settles)))

  stmt_from-Settles :
      {n : ℕ} {rest : P (Unit {0})} (tok : Token)
      → Settles Anything n rest
      → Settles Anything n (stmt_from env rest tok)
  unfolding stmt_from
  stmt_from-Settles (identifier id) s =
      if-Settles (bytes_eq id (codes "poke")) (poke_stmt-Settles (anything env)) (
        if-Settles (bytes_eq id (codes "peek")) (peek_stmt-Settles (anything env))
          (if-Settles (bytes_eq id (codes "loop")) (loop_stmt-Settles s) (other_stmt-Settles id)))
  stmt_from-Settles _ s = fail-Settles _

  -- A statement takes a token, so that what follows it has one token less to come.
  stmt_within :
      (n : ℕ) (rest : P (Unit {0})) (c : Compiler) (cur : Cur)
      → Settles Anything n rest
      → (next cur).0 ≢ eof
      → room cur < suc n
      → Within n (parse_body_stmt env rest c cur).1
  unfolding parse_body_stmt take_token
  stmt_within n rest c cur s proper lt = elim (next-room cur).1 [
    | inl less ↦ (stmt_from-Settles (next cur).0 s).within c (next cur).1 (omega arith)
    | inr e ↦ absurd (proper e)
  ]

  then_rest :
      (n : ℕ) (rest : P (Unit {0})) (c : Compiler) (cur : Cur)
      → Settles Anything n rest
      → (next cur).0 ≢ eof
      → room cur < suc n
      → Within (suc n) (continue (λ _. rest) (parse_body_stmt env rest c cur)).1
  then_rest n rest c cur s proper lt =
      let (c', r) = parse_body_stmt env rest c cur in
      within_all (suc n) n (continue (λ _. rest) (c', r)).1 (omega arith)
        (bind_result n c' r (λ _. rest) (stmt_within n rest c cur s proper lt) (λ _. s))

  block_within :
      (n : ℕ) (rest : P (Unit {0})) (tok : Token) (c : Compiler) (cur : Cur)
      → Settles Anything n rest
      → tok ≡ (next cur).0
      → room cur < suc n
      → Within (suc n) (block_from env rest tok c cur).1
  unfolding block_from
  block_within n rest rbrace c cur s e lt =
      (bind-Settles {I = Anything} take_token-Settles (λ _. pure-Settles tt)).within c cur lt
  block_within n rest eof c cur s e lt = tt
  block_within n rest _ c cur s e lt = then_rest n rest c cur s (λ e'. cc) lt

  block-Settles : (fuel : ℕ) → Settles Anything fuel (block env fuel)
  unfolding block look
  block-Settles zero = record { within = λ c cur lt. absurd (omega arith); keeps = λ c cur i. i }
  block-Settles (suc fuel) = record {
    within = λ c cur lt.
        block_within fuel (block env fuel) (peek cur).0 c (peek cur).1 (block-Settles fuel)
          (peek-next cur ∙ ap (λ r. r.0) (sym (next-peek cur))) (omega (arith, peek-room cur));
    keeps = λ c cur i. i;
  }

  pub whole_block-Settles : {n : ℕ} → Settles Anything n (whole_block env)
  unfolding whole_block
  whole_block-Settles {n = n} = record {
    within = λ c cur lt.
        within_all n (room cur + 1) (block env (room cur + 1) c cur).1 (omega arith)
          ((block-Settles (room cur + 1)).within c cur (omega arith));
    keeps = λ c cur i. i;
  }

define_body-ends : (n : ℕ) (env : Env) (name : NameBuf) → Settles Anything n (define_body env name)
unfolding define_body
define_body-ends n env name = bind-Settles (on_compiler-Settles stream_reset (λ c i. i)) (λ _.
    bind-Settles (whole_block-Settles env) (λ _.
      bind-Settles (on_compiler-Settles (define_fn name) (λ c i. i)) (λ _. pure-Settles name)))

pub define_body-Settles :
    {I : Compiler → Type 0} {n : ℕ} (env : Env) (name : NameBuf)
    → Stable env I
    → Settles I n (define_body env name)
define_body-Settles {n = n} env name stable = record {
  within = λ c cur lt. (define_body-ends n env name).within c cur lt;
  keeps = λ c cur i. stable.body name c cur i;
}

pub parse_fn-Settles :
    {I : Compiler → Type 0} {n : ℕ} (env : Env) → Stable env I → Settles I n (parse_fn env)
unfolding parse_fn
parse_fn-Settles env stable = bind-Settles expect_name-Settles (λ name.
    bind-Settles (expect-Settles is_lparen unexpected_token) (λ _.
      bind-Settles (expect-Settles is_rparen unexpected_token) (λ _.
        bind-Settles (expect-Settles is_lbrace unexpected_token)
          (λ _. define_body-Settles env name stable))))
