-- ===== src/Compiler/Expr/Grammar.antt =====
-- src/compiler/parser.rs: the grammar of expressions, how they are written and what they mean.
use hr_os.Prelude.{
  zero, refl, ◌-◌, ◌*◌, ◌/◌, ◌%◌, ◌^◌, ℕ, suc, ◌+◌, ◌≤◌, ◌≡◌, true, false, Option, none, some, List,
  [], ◌∷◌, ◌++◌, Result, ok, err, ◌>>=◌, arith, codes, bytes_eq,
}
use hr_os.Memory.{Memory, peek_u32}
use hr_os.Compiler.Lexer.{Token, identifier, operator, literal, lparen, rparen}
use hr_os.Compiler.Names.{unknown_symbol, div_by_zero}
use hr_os.Compiler.Symbols.{Symbol, lookup_symbol}
use hr_os.Compiler.Expr.{Halt, failed, is_arithmetic, apply}

-- The operators, how they are written, and what they do to two `u32`.
pub data Arith : Type 0 where
  plus minus times over remainder : Arith

unfoldable pub byte : Arith → ℕ
byte plus = b'+'
byte minus = b'-'
byte times = b'*'
byte over = b'/'
byte remainder = b'%'

unfoldable pub compute : Arith → ℕ → ℕ → Result Halt ℕ
compute plus a b = ok ((a + b) % 2 ^ 32)
compute minus a b = ok ((a + 2 ^ 32 - b) % 2 ^ 32)
compute times a b = ok (a * b % 2 ^ 32)
compute over a zero = err (failed div_by_zero)
compute over a (suc b) = ok (a / suc b)
compute remainder a zero = err (failed div_by_zero)
compute remainder a (suc b) = ok (a % suc b)

pub apply-byte : (op : Arith) (a b : ℕ) → apply (byte op) a b ≡ compute op a b
unfolding apply byte compute
apply-byte plus a b = refl
apply-byte minus a b = refl
apply-byte times a b = refl
apply-byte over a zero = refl
apply-byte over a (suc b) = ground arith
apply-byte remainder a zero = refl
apply-byte remainder a (suc b) = ground arith

pub is_arithmetic-byte : (op : Arith) → is_arithmetic (byte op) ≡ true
unfolding byte
is_arithmetic-byte plus = refl
is_arithmetic-byte minus = refl
is_arithmetic-byte times = refl
is_arithmetic-byte over = refl
is_arithmetic-byte remainder = refl

-- Terms, and the operators that follow one, each with its operand.
mutual
  pub data Term : Type 0 where
    lit : ℕ → Term
    name : List ℕ → Term
    read : Term → Term
    paren : Term → Ops → Term

  pub data Ops : Type 0 where
    done : Ops
    op_then : Arith → Term → Ops → Ops

-- How they are written.
unfoldable mutual
  unfolding byte

  pub term_tokens : Term → List Token
  term_tokens (lit v) = literal v ∷ []
  term_tokens (name id) = identifier id ∷ []
  term_tokens (read t) = identifier (codes "peek") ∷ term_tokens t
  term_tokens (paren t ops) = lparen ∷ (term_tokens t ++ (ops_tokens ops ++ rparen ∷ []))

  pub ops_tokens : Ops → List Token
  ops_tokens done = []
  ops_tokens (op_then op t ops) = operator (byte op) ∷ term_tokens t ++ ops_tokens ops

-- No constant is named `peek`.
unfoldable mutual
  pub TermProper : Term → Type 0
  TermProper (lit v) = Unit
  TermProper (name id) = bytes_eq id (codes "peek") ≡ false
  TermProper (read t) = TermProper t
  TermProper (paren t ops) = TermProper t × OpsProper ops

  pub OpsProper : Ops → Type 0
  OpsProper done = Unit
  OpsProper (op_then op t ops) = TermProper t × OpsProper ops

unfoldable mutual
  pub term_size : Term → ℕ
  term_size (lit v) = 1
  term_size (name id) = 1
  term_size (read t) = suc (term_size t)
  term_size (paren t ops) = suc (term_size t + ops_size ops)

  pub ops_size : Ops → ℕ
  ops_size done = 1
  ops_size (op_then op t ops) = suc (term_size t + ops_size ops)

unfoldable pub named : Option ℕ → Result Halt ℕ
named (some v) = ok v
named none = err (failed unknown_symbol)

module _ (symbols : List Symbol) (mem : Memory) where
  -- What they mean: the value from left to right, or the first error.
  unfoldable mutual
    unfolding named compute

    pub term_value : Term → Result Halt ℕ
    term_value (lit v) = ok v
    term_value (name id) = named (lookup_symbol symbols id)
    term_value (read t) = do addr ← term_value t; ok (peek_u32 addr mem)
    term_value (paren t ops) = do v ← term_value t; ops_value ops v

    pub ops_value : Ops → ℕ → Result Halt ℕ
    ops_value done acc = ok acc
    ops_value (op_then op t ops) acc = do
      rhs ← term_value t
      acc' ← compute op acc rhs
      ops_value ops acc'

pub term_size-pos : (t : Term) → 1 ≤ term_size t
unfolding term_size
term_size-pos (lit v) = omega arith
term_size-pos (name id) = omega arith
term_size-pos (read t) = omega arith
term_size-pos (paren t ops) = omega arith

pub ops_size-pos : (ops : Ops) → 1 ≤ ops_size ops
unfolding ops_size
ops_size-pos done = omega arith
ops_size-pos (op_then op t ops) = omega arith
