-- ===== src/Compiler/Expr.antt =====
-- src/compiler/parser.rs: the evaluation of expressions, from left to right with no precedence.
-- The recursion runs on fuel, and `starved` says that it ran out; `Compiler.Expr.Total` gives the
-- fuel that is enough. An error ends the line, so the cursor behind it is dropped.
pub mod Total
pub mod Grammar
pub mod Meaning
use hr_os.Prelude.{
  ℕ, zero, suc, ◌+◌, ◌-◌, ◌*◌, ◌/◌, ◌%◌, ◌^◌, Bool, ◌||◌, Option, none, some, List, Result, ok, err,
  ◌>>=◌, ◌==◌, if◌then◌else◌, codes, bytes_eq,
}
use hr_os.Memory.{Memory, peek_u32}
use hr_os.Compiler.Lexer.{Token, identifier, operator, literal, lparen, rparen, error}
use hr_os.Compiler.Names.{ParseError, lex_error, unexpected_token, unknown_symbol, div_by_zero}
use hr_os.Compiler.Symbols.{Symbol, lookup_symbol}
use hr_os.Compiler.Cursor.{Cur, next, peek}

pub data Halt : Type 0 where
  starved : Halt
  failed : ParseError → Halt

abbrev pub is_arithmetic : ℕ → Bool
is_arithmetic op = op == b'+' || op == b'-' || op == b'*' || op == b'/' || op == b'%'

-- The `match op` of the loop.
unfoldable pub apply : ℕ → ℕ → ℕ → Result Halt ℕ
apply op acc rhs =
    if op == b'+'
    then ok ((acc + rhs) % 2 ^ 32)
    else if op == b'-'
    then ok ((acc + 2 ^ 32 - rhs) % 2 ^ 32)
    else if op == b'*'
    then ok (acc * rhs % 2 ^ 32)
    else if op == b'/'
    then if rhs == 0 then err (failed div_by_zero) else ok (acc / rhs)
    else if rhs == 0
    then err (failed div_by_zero)
    else ok (acc % rhs)

-- What is evaluated next: the term that begins with a token already taken, or the operators behind
-- the value so far.
pub data Ask : Type 0 where
  term : Token → Ask
  loop : ℕ → Ask

abbrev pub Answer : Type 0
Answer = Result Halt (ℕ × Cur)

-- The closing parenthesis.
unfoldable pub close : ℕ → Cur → Answer
close value cur =
    let (tok, cur') = next cur in
    elim tok [ rparen ↦ ok (value, cur') | _ ↦ err (failed unexpected_token) ]

unfoldable pub found : Option ℕ → Cur → Answer
found (some value) cur = ok (value, cur)
found none cur = err (failed unknown_symbol)

module _ (symbols : List Symbol) (mem : Memory) where
  -- An expression whose first token is taken: a term, and the operators behind it.
  unfoldable pub head_then : (Ask → Cur → Answer) → Token → Cur → Answer
  head_then eval tok cur = do (value, cur') ← eval (term tok) cur; eval (loop value) cur'

  -- `peek ADDR`: the memory is read at once.
  unfoldable pub read_term : (Ask → Cur → Answer) → Cur → Answer
  read_term eval cur =
      let (tok, cur₁) = next cur in
      do (addr, cur₂) ← eval (term tok) cur₁; ok (peek_u32 addr mem, cur₂)

  unfoldable pub term_from : (Ask → Cur → Answer) → Token → Cur → Answer
  unfolding head_then close found read_term
  term_from eval lparen cur =
      let (tok, cur₁) = next cur in do (value, cur₂) ← head_then eval tok cur₁; close value cur₂
  term_from eval (literal value) cur = ok (value, cur)
  term_from eval (identifier id) cur =
      if bytes_eq id (codes "peek")
      then read_term eval cur
      else found (lookup_symbol symbols id) cur
  term_from eval (error msg) cur = err (failed (lex_error msg))
  term_from eval _ cur = err (failed unexpected_token)

  -- The operand behind an operator, and the operators behind it.
  unfoldable pub operate : (Ask → Cur → Answer) → ℕ → ℕ → Cur → Answer
  unfolding apply
  operate eval acc op cur =
      let (tok, cur₁) = next cur in
      do (rhs, cur₂) ← eval (term tok) cur₁; acc' ← apply op acc rhs; eval (loop acc') cur₂

  unfoldable pub loop_from : (Ask → Cur → Answer) → ℕ → Token → Cur → Answer
  unfolding operate
  loop_from eval acc (operator op) cur =
      if is_arithmetic op then operate eval acc op (next cur).1 else ok (acc, cur)
  loop_from eval acc _ cur = ok (acc, cur)

  unfoldable pub evaluate : ℕ → Ask → Cur → Answer
  unfolding term_from loop_from
  evaluate zero ask cur = err starved
  evaluate (suc fuel) (term tok) cur = term_from (evaluate fuel) tok cur
  evaluate (suc fuel) (loop acc) cur =
      let (tok, cur₁) = peek cur in loop_from (evaluate fuel) acc tok cur₁

  -- `eval_expr` with its first token taken, or to come.
  unfoldable pub eval_expr : ℕ → Option Token → Cur → Answer
  unfolding evaluate head_then
  eval_expr fuel (some tok) cur = head_then (evaluate fuel) tok cur
  eval_expr fuel none cur = let (tok, cur₁) = next cur in head_then (evaluate fuel) tok cur₁

  unfoldable pub parse_atomic_term : ℕ → Cur → Answer
  unfolding evaluate
  parse_atomic_term fuel cur = let (tok, cur₁) = next cur in evaluate fuel (term tok) cur₁
