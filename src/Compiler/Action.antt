-- ===== src/Compiler/Action.antt =====
-- src/compiler/parser.rs: the actions of the parser, on the state of `Compiler` and the cursor. `?`
-- stops at the first error; what was written to the compiler stays written, the cursor is dropped.
pub mod Safe
pub mod Guarded
use hr_os.Prelude.{
  ℕ, ◌+◌, ◌*◌, ◌==◌, Bool, true, false, Option, none, some, Result, ok, err, if◌then◌else◌,
}
use hr_os.Caps.Registry.{RegistryBits}
use hr_os.Caps.Access.{Arch, riscv32, check_access}
use hr_os.Memory.{Memory}
use hr_os.Vm.{Linkage}
use hr_os.Compiler.Lexer.{
  Token, identifier, lparen, rparen, lbrace, rbrace, semicolon, eof, operator,
}
use hr_os.Compiler.Names.{
  ParseError, unexpected_token, missing_semicolon, capability_violation, NameBuf, from_slice,
}
use hr_os.Compiler.Symbols.{insert_symbol}
use hr_os.Compiler.Cursor.{Cur, next, peek, room}
use hr_os.Compiler.Expr.{Halt, starved, failed, eval_expr, parse_atomic_term}
use hr_os.Compiler.Stream.{Compiler, M}

-- What the parser reads and does not change.
pub record Env : Type 0 where
  pub link : Linkage
  pub arch : Arch
  pub bits : RegistryBits
  pub mem : Memory

abbrev pub P : Type 0 → Type 0
P A = Compiler → Cur → Compiler × Result Halt (A × Cur)

infixl 5 ◌>>=◌ ◌>>◌
abbrev pub ◌>>=◌ : {A B : Type 0} → P A → (A → P B) → P B
◌>>=◌ m f c cur =
    let (c', r) = m c cur in elim r [ ok (a, cur') ↦ f a c' cur' | err e ↦ (c', err e) ]

abbrev pub ◌>>◌ : {A B : Type 0} → P A → P B → P B
m >> n = m >>= (λ _. n)

abbrev pub pure : {A : Type 0} → A → P A
pure a c cur = (c, ok (a, cur))

abbrev pub fail : {A : Type 0} → ParseError → P A
fail e c cur = (c, err (failed e))

-- An action on the compiler alone.
abbrev pub on_compiler : {A : Type 0} → M A → P A
on_compiler m c cur =
    let (c', r) = m c in elim r [ ok a ↦ (c', ok (a, cur)) | err e ↦ (c', err (failed e)) ]

abbrev pub of_result : {A : Type 0} → Result ParseError A → P A
of_result (ok a) = pure a
of_result (err e) = fail e

-- `cur.next()` and `cur.peek()`.
unfoldable pub take_token : P Token
take_token c cur = (c, ok (next cur))

unfoldable pub look : P Token
look c cur = (c, ok (peek cur))

-- Expressions, with the fuel that is enough for the tokens to come.
unfoldable pub eval : Env → Option Token → P ℕ
eval env first c cur = (c, eval_expr c.symbols env.mem (2 * room cur + 2) first cur)

unfoldable pub atomic : Env → P ℕ
atomic env c cur = (c, parse_atomic_term c.symbols env.mem (2 * room cur + 2) cur)

abbrev pub is_lparen : Token → Bool
is_lparen lparen = true
is_lparen _ = false

abbrev pub is_rparen : Token → Bool
is_rparen rparen = true
is_rparen _ = false

abbrev pub is_lbrace : Token → Bool
is_lbrace lbrace = true
is_lbrace _ = false

abbrev pub is_equals : Token → Bool
is_equals (operator op) = op == b'='
is_equals _ = false

abbrev pub is_semicolon : Token → Bool
is_semicolon semicolon = true
is_semicolon _ = false

abbrev pub ends_line : Token → Bool
ends_line semicolon = true
ends_line eof = true
ends_line _ = false

-- The next token must pass the test.
unfoldable pub expect : (Token → Bool) → ParseError → P (Unit {0})
unfolding take_token
expect test e = do tok ← take_token; if test tok then pure tt else fail e

unfoldable pub expect_semicolon : P (Unit {0})
unfolding expect
expect_semicolon = expect ends_line missing_semicolon

abbrev pub name_of : Token → P NameBuf
name_of (identifier id) = of_result (from_slice id)
name_of _ = fail unexpected_token

unfoldable pub expect_name : P NameBuf
unfolding take_token from_slice
expect_name = do tok ← take_token; name_of tok

unfoldable pub allow_optional_semicolon : P (Unit {0})
unfolding take_token look
allow_optional_semicolon = do
  tok ← look
  if is_semicolon tok then take_token >> pure tt else pure tt

abbrev pub granted : {E : Type 0} → Result E (Unit {0}) → P (Unit {0})
granted (ok _) = pure tt
granted (err _) = fail capability_violation

-- `check_access(addr).map_err(|_| ParseError::CapabilityViolation)?`
unfoldable pub check : Env → ℕ → P (Unit {0})
check env addr = granted (check_access env.arch env.bits addr)

abbrev pub timer_probe : Arch → ℕ
timer_probe riscv32 = 0x1001_5000
timer_probe _ = 0x4000_0000

abbrev pub spi_probe : Arch → ℕ
spi_probe riscv32 = 0x1001_4000
spi_probe _ = 0x4001_3000

unfoldable pub check_timer_cap : Env → P (Unit {0})
unfolding check
check_timer_cap env = check env (timer_probe env.arch)

unfoldable pub check_spi_cap : Env → P (Unit {0})
unfolding check
check_spi_cap env = check env (spi_probe env.arch)

-- `self.insert_symbol(&name, value)`
unfoldable pub insert : NameBuf → ℕ → M (Unit {0})
unfolding insert_symbol
insert name value c =
    let (symbols, r) = insert_symbol name value c.symbols in (record c { symbols = symbols }, r)
