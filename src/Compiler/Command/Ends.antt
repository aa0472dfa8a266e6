-- ===== src/Compiler/Command/Ends.antt =====
-- src/compiler/parser.rs: the entry `parse` ends on every line.
use hr_os.Prelude.{
  ℕ, suc, ◌≡◌, ◌⊎◌, inl, inr, refl, none, some, List, [], ◌∷◌, Result, ok, err, arith, bytes_eq,
}
use hr_os.Compiler.Lexer.{
  Token, identifier, operator, literal, lparen, eof, error, kw_let, kw_fn, new,
}
use hr_os.Compiler.Names.{ParseError, unexpected_token, empty_line, lex_error}
use hr_os.Compiler.Cursor.{Cur, room}
use hr_os.Compiler.Expr.{Halt, starved, failed}
use hr_os.Compiler.Stream.{Compiler, build_value_program}
use hr_os.Compiler.Fns.{build_call_program}
use hr_os.Compiler.Action.{Env, P, ◌>>=◌, take_token, is_lparen, is_rparen}
use hr_os.Compiler.Action.Safe.{
  Within, Settles, bind-Settles, pure-Settles, fail-Settles, if-Settles, on_compiler-Settles,
  take_token-Settles, look-Settles, eval-Settles, expect-Settles, expect_semicolon-Settles,
}
use hr_os.Compiler.Body.Safe.{Stable, anything, parse_fn-Settles}
use hr_os.Compiler.Command.{
  Outcome, fn_defined, run, claim, drop, set_bit, clr_bit, help, banner, sys_audit, bench, store,
  load, store_list, flash_test, pool_free, pool_stats, spawn, value_command, call_command,
  other_command, commands, first_match, parse_command, parse_first, parse,
}
use hr_os.Compiler.Command.Safe.{
  with_name-Settles, plain-Settles, parse_let-Settles, peek_command-Settles, poke_command-Settles,
  bit_command-Settles, pwm_command-Settles, pwm_duty_command-Settles, spi_tx_command-Settles,
  pool_alloc_command-Settles, loop_command-Settles,
}

infixr 4 ◌also◌
data AllSettle (I : Compiler → Type 0) (n : ℕ) : List (List ℕ × P Outcome) → Type 0 where
  no_more : AllSettle I n []
  ◌also◌ :
      {name : List ℕ} {command : P Outcome} {rest : List (List ℕ × P Outcome)}
      → Settles I n command
      → AllSettle I n rest
      → AllSettle I n ((name, command) ∷ rest)

first_match-Settles :
    {I : Compiler → Type 0} {n : ℕ} (id : List ℕ) (other : P Outcome)
    (entries : List (List ℕ × P Outcome))
    → Settles I n other
    → AllSettle I n entries
    → Settles I n (first_match id other entries)
unfolding first_match
first_match-Settles id other [] s no_more = s
first_match-Settles id other ((name, command) ∷ rest) s (one also more) =
    if-Settles (bytes_eq id name) one (first_match-Settles id other rest s more)

module _ (env : Env) {I : Compiler → Type 0} (stable : Stable env I) where
  value_command-Settles : {n : ℕ} (first : Token) → Settles I n (value_command env first)
  unfolding value_command
  value_command-Settles first = bind-Settles (eval-Settles env (some first)) (λ value.
      bind-Settles expect_semicolon-Settles (λ _.
        bind-Settles (on_compiler-Settles (build_value_program env.link value) (stable.value value))
          (λ program. pure-Settles (run program))))

  call_command-Settles : {n : ℕ} (id : List ℕ) → Settles I n (call_command env id)
  unfolding call_command
  call_command-Settles id = bind-Settles take_token-Settles (λ _.
      bind-Settles (expect-Settles is_rparen unexpected_token) (λ _.
        bind-Settles expect_semicolon-Settles (λ _.
          bind-Settles (on_compiler-Settles (build_call_program env.link id) (stable.call id))
            (λ program. pure-Settles (run program)))))

  other_command-Settles : {n : ℕ} (id : List ℕ) → Settles I n (other_command env id)
  unfolding other_command
  other_command-Settles id = bind-Settles look-Settles (λ tok.
      if-Settles (is_lparen tok) (call_command-Settles id) (value_command-Settles (identifier id)))

  commands-AllSettle : (n : ℕ) → AllSettle I n (commands env)
  unfolding commands
  commands-AllSettle n =
      peek_command-Settles env stable
      also poke_command-Settles env stable
      also with_name-Settles claim
      also with_name-Settles drop
      also bit_command-Settles env stable set_bit
      also bit_command-Settles env stable clr_bit
      also plain-Settles help
      also plain-Settles banner
      also plain-Settles sys_audit
      also plain-Settles bench
      also pwm_command-Settles env stable
      also pwm_duty_command-Settles env stable
      also with_name-Settles store
      also with_name-Settles load
      also plain-Settles store_list
      also loop_command-Settles env stable
      also plain-Settles flash_test
      also pool_alloc_command-Settles env stable
      also plain-Settles pool_free
      also pure-Settles pool_stats
      also pure-Settles pool_stats
      also with_name-Settles spawn
      also spi_tx_command-Settles env stable
      also no_more

  parse_first-Settles : {n : ℕ} (first : Token) → Settles I n (parse_first env first)
  unfolding parse_first parse_command
  parse_first-Settles {n = n} eof = fail-Settles empty_line
  parse_first-Settles {n = n} kw_let = parse_let-Settles env stable
  parse_first-Settles {n = n} kw_fn =
      bind-Settles (parse_fn-Settles env stable) (λ name. pure-Settles (fn_defined name))
  parse_first-Settles {n = n} (identifier id) =
      first_match-Settles id (other_command env id) (commands env) (other_command-Settles id)
        (commands-AllSettle n)
  parse_first-Settles {n = n} (literal v) = value_command-Settles (literal v)
  parse_first-Settles {n = n} (operator op) = value_command-Settles (operator op)
  parse_first-Settles {n = n} lparen = value_command-Settles lparen
  parse_first-Settles {n = n} (error message) = fail-Settles (lex_error message)
  parse_first-Settles {n = n} _ = fail-Settles unexpected_token

  pub line-Settles : {n : ℕ} → Settles I n (take_token >>= parse_first env)
  line-Settles = bind-Settles take_token-Settles parse_first-Settles

abbrev Ends : Result Halt Outcome → Type 0
Ends r = ((outcome : Outcome) × (r ≡ ok outcome)) ⊎ ((e : ParseError) × (r ≡ err (failed e)))

Ends-within :
    (n : ℕ) (r : Result Halt (Outcome × Cur))
    → Within n r
    → Ends (elim r [ ok (outcome, _) ↦ ok outcome | err e ↦ err e ])
Ends-within n (ok (outcome, cur)) w = inl (outcome, refl)
Ends-within n (err starved) w = absurd w
Ends-within n (err (failed e)) w = inr (e, refl)

-- Every line is parsed to an outcome or to an error of the parser, whatever the state of the
-- compiler: the fuel of expressions, of blocks and of loops never runs out.
pub parse-ends :
    (env : Env) (line : List ℕ) (c : Compiler)
    → ((outcome : Outcome) × ((parse env line c).1 ≡ ok outcome))
      ⊎ ((e : ParseError) × ((parse env line c).1 ≡ err (failed e)))
unfolding parse new
parse-ends env line c =
    let cur : Cur = record { lx = new line; ahead = none } in
    Ends-within (suc (room cur)) ((take_token >>= parse_first env) c cur).1
      ((line-Settles env (anything env)).within c cur (omega arith))
