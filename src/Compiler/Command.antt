-- ===== src/Compiler/Command.antt =====
-- src/compiler/parser.rs: the commands of the console, and the entry `parse`.
pub mod Safe
pub mod Ends
pub mod Keeps
pub mod Invariant
pub mod Runs
mod Tests
use hr_os.Prelude.{
  ℕ, zero, suc, ◌+◌, ◌%◌, Bool, true, false, Option, none, some, List, [], ◌∷◌, Result, ok, err,
  ◌==◌, if◌then◌else◌, codes, bytes_eq,
}
use hr_os.Compiler.Lexer.{
  Token, identifier, operator, literal, lparen, rbrace, eof, error, kw_let, kw_fn, new,
}
use hr_os.Compiler.Names.{ParseError, unexpected_token, empty_line, lex_error, NameBuf}
use hr_os.Compiler.Symbols.{insert_symbol}
use hr_os.Compiler.Cursor.{Cur, room}
use hr_os.Compiler.Expr.{Halt}
use hr_os.Compiler.Stream.{
  Compiler, StreamProgram, M, stream_reset, stream_halt, take_program, build_value_program,
}
use hr_os.Compiler.Fns.{build_call_program}
use hr_os.Compiler.Emit.{unroll_from}
use hr_os.Compiler.Action.{
  Env, P, insert, ◌>>=◌, ◌>>◌, pure, fail, on_compiler, take_token, look, eval, atomic, is_lparen,
  is_rparen, is_lbrace, is_equals, expect, expect_semicolon, expect_name, allow_optional_semicolon,
  check, check_timer_cap, check_spi_cap,
}
use hr_os.Compiler.Body.{starve, in_loop_range, poke_stmt, peek_stmt, parse_fn}

pub data Outcome : Type 0 where
  empty : Outcome
  bound : NameBuf → ℕ → Outcome
  fn_defined : NameBuf → Outcome
  run : StreamProgram → Outcome
  claim drop store load spawn : NameBuf → Outcome
  set_bit clr_bit enforced_poke pwm : ℕ → ℕ → Outcome
  enforced_peek pwm_duty spi_tx pool_alloc : ℕ → Outcome
  help banner sys_audit bench flash_test store_list pool_free pool_stats : Outcome

-- A command that takes a name, one that takes no argument, and one that takes two terms.
unfoldable pub with_name : (NameBuf → Outcome) → P Outcome
unfolding expect_name expect_semicolon
with_name outcome = do name ← expect_name; expect_semicolon; pure (outcome name)

unfoldable pub plain : Outcome → P Outcome
unfolding allow_optional_semicolon
plain outcome = do allow_optional_semicolon; pure outcome

module _ (env : Env) where
  -- `let NAME = expr;`
  unfoldable pub parse_let : P Outcome
  unfolding expect_name expect eval expect_semicolon insert
  parse_let = do
    name ← expect_name
    expect is_equals unexpected_token
    value ← eval env none
    expect_semicolon
    on_compiler (insert name value)
    pure (bound name value)

  unfoldable pub peek_command : P Outcome
  unfolding atomic expect_semicolon check
  peek_command = do addr ← atomic env; expect_semicolon; check env addr; pure (enforced_peek addr)

  unfoldable pub poke_command : P Outcome
  unfolding atomic eval expect_semicolon check
  poke_command = do
    addr ← atomic env
    val ← eval env none
    expect_semicolon
    check env addr
    pure (enforced_poke addr val)

  unfoldable pub bit_command : (ℕ → ℕ → Outcome) → P Outcome
  unfolding atomic expect_semicolon check
  bit_command outcome = do
    addr ← atomic env
    bit ← atomic env
    expect_semicolon
    check env addr
    pure (outcome addr bit)

  unfoldable pub pwm_command : P Outcome
  unfolding atomic expect_semicolon check_timer_cap
  pwm_command = do
    period ← atomic env
    duty ← atomic env
    expect_semicolon
    check_timer_cap env
    pure (pwm period duty)

  unfoldable pub pwm_duty_command : P Outcome
  unfolding atomic expect_semicolon check_timer_cap
  pwm_duty_command = do
    duty ← atomic env
    expect_semicolon
    check_timer_cap env
    pure (pwm_duty duty)

  unfoldable pub spi_tx_command : P Outcome
  unfolding atomic expect_semicolon check_spi_cap
  spi_tx_command = do b ← atomic env; expect_semicolon; check_spi_cap env; pure (spi_tx (b % 256))

  unfoldable pub pool_alloc_command : P Outcome
  unfolding atomic expect_semicolon
  pool_alloc_command = do size ← atomic env; expect_semicolon; pure (pool_alloc size)

  -- The body of a `loop` command: pokes and peeks are compiled, any other token is skipped.
  unfoldable pub loop_item : Token → P (Unit {0})
  unfolding poke_stmt peek_stmt
  loop_item (identifier id) =
      if bytes_eq id (codes "poke")
      then poke_stmt env
      else if bytes_eq id (codes "peek")
      then peek_stmt env
      else pure tt
  loop_item _ = pure tt

  unfoldable pub loop_items_from : P (Unit {0}) → Token → P (Unit {0})
  unfolding take_token loop_item
  loop_items_from rest rbrace = take_token >> pure tt
  loop_items_from rest eof = fail unexpected_token
  loop_items_from rest _ = do tok ← take_token; loop_item tok; rest

  unfoldable pub loop_items : ℕ → P (Unit {0})
  unfolding look loop_items_from
  loop_items zero = starve
  loop_items (suc fuel) = do tok ← look; loop_items_from (loop_items fuel) tok

  unfoldable pub all_loop_items : P (Unit {0})
  unfolding loop_items
  all_loop_items c cur = loop_items (room cur + 1) c cur

  unfoldable pub loop_command : P Outcome
  unfolding atomic expect stream_reset all_loop_items unroll_from stream_halt take_program
  loop_command = do
    count ← atomic env
    in_loop_range count
    expect is_lbrace unexpected_token
    on_compiler stream_reset
    all_loop_items
    on_compiler (unroll_from count 0)
    on_compiler (stream_halt env.link)
    program ← on_compiler (take_program Bool.false)
    pure (run program)

  -- A value that is evaluated and printed.
  unfoldable pub value_command : Token → P Outcome
  unfolding eval expect_semicolon build_value_program
  value_command first = do
    value ← eval env (some first)
    expect_semicolon
    program ← on_compiler (build_value_program env.link value)
    pure (run program)

  unfoldable pub call_command : List ℕ → P Outcome
  unfolding take_token expect expect_semicolon build_call_program
  call_command id = do
    take_token
    expect is_rparen unexpected_token
    expect_semicolon
    program ← on_compiler (build_call_program env.link id)
    pure (run program)

  unfoldable pub other_command : List ℕ → P Outcome
  unfolding look call_command value_command
  other_command id = do
    tok ← look
    if is_lparen tok then call_command id else value_command (identifier id)

  -- The arms of the match on the command's name.
  unfoldable pub commands : List (List ℕ × P Outcome)
  unfolding peek_command poke_command with_name bit_command plain pwm_command pwm_duty_command
      loop_command pool_alloc_command spi_tx_command
  commands =
      (codes "peek", peek_command)
      ∷ (codes "poke", poke_command)
      ∷ (codes "cap_claim", with_name claim)
      ∷ (codes "cap_drop", with_name drop)
      ∷ (codes "reg_set_bit", bit_command set_bit)
      ∷ (codes "reg_clr_bit", bit_command clr_bit)
      ∷ (codes "help", plain help)
      ∷ (codes "banner", plain banner)
      ∷ (codes "sys_audit", plain sys_audit)
      ∷ (codes "bench", plain bench)
      ∷ (codes "pwm", pwm_command)
      ∷ (codes "pwm_duty", pwm_duty_command)
      ∷ (codes "store", with_name store)
      ∷ (codes "load", with_name load)
      ∷ (codes "store_list", plain store_list)
      ∷ (codes "loop", loop_command)
      ∷ (codes "flash_test", plain flash_test)
      ∷ (codes "pool_alloc", pool_alloc_command)
      ∷ (codes "pool_free", plain pool_free)
      ∷ (codes "pool_stats;", pure pool_stats)
      ∷ (codes "pool_stats", pure pool_stats)
      ∷ (codes "spawn", with_name spawn)
      ∷ (codes "spi_tx", spi_tx_command)
      ∷ []

-- The first arm that matches.
unfoldable pub first_match : {A : Type 0} → List ℕ → A → List (List ℕ × A) → A
first_match id other [] = other
first_match id other ((name, command) ∷ rest) =
    let later = first_match id other rest in if bytes_eq id name then command else later

unfoldable pub parse_command : Env → List ℕ → P Outcome
unfolding commands first_match other_command
parse_command env id = first_match id (other_command env id) (commands env)

unfoldable pub parse_first : Env → Token → P Outcome
unfolding parse_let parse_fn parse_command value_command
parse_first env eof = fail empty_line
parse_first env kw_let = parse_let env
parse_first env kw_fn = do name ← parse_fn env; pure (fn_defined name)
parse_first env (identifier id) = parse_command env id
parse_first env (literal v) = value_command env (literal v)
parse_first env (operator op) = value_command env (operator op)
parse_first env lparen = value_command env lparen
parse_first env (error message) = fail (lex_error message)
parse_first env _ = fail unexpected_token

-- One line of the console.
unfoldable pub parse : Env → List ℕ → Compiler → Compiler × Result Halt Outcome
unfolding take_token parse_first
parse env line c =
    let (c', r) =
      (do first ← take_token; parse_first env first) c (record { lx = new line; ahead = none }) in
    (c', elim r [ ok (outcome, _) ↦ ok outcome | err e ↦ err e ])
