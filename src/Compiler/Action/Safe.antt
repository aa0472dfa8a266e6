-- ===== src/Compiler/Action/Safe.antt =====
-- src/compiler/parser.rs: actions of the parser that do not run out of fuel, and keep an invariant of
-- the compiler.
use hr_os.Prelude.{
  ℕ, ◌+◌, ◌*◌, ◌<◌, Bool, true, false, Option, Result, ok, err, arith, if◌then◌else◌,
}
use hr_os.Compiler.Lexer.{Token}
use hr_os.Compiler.Names.{ParseError, missing_semicolon, from_slice}
use hr_os.Compiler.Lexer.{identifier}
use hr_os.Compiler.Cursor.{Cur, room, next-room, peek-room}
use hr_os.Compiler.Expr.{Halt, starved, failed, eval_expr, parse_atomic_term}
use hr_os.Compiler.Expr.Total.{Settled, eval_expr-Settled, parse_atomic_term-Settled}
use hr_os.Compiler.Stream.{Compiler, M}
use hr_os.Compiler.Action.{
  Env, P, ◌>>=◌, pure, fail, on_compiler, of_result, take_token, look, eval, atomic, is_semicolon,
  ends_line, expect, expect_semicolon, name_of, expect_name, allow_optional_semicolon, granted,
  check, check_timer_cap, check_spi_cap,
}

-- A result with fewer than `n` tokens to come behind it, or an error of the parser.
abbrev pub Within : {A : Type 0} → ℕ → Result Halt (A × Cur) → Type 0
Within n (ok (a, cur)) = room cur < n
Within n (err starved) = ⊥
Within n (err (failed e)) = Unit

-- With fewer than `n` tokens to come, the action ends within `n`; and it keeps the invariant.
pub record Settles {A : Type 0} (I : Compiler → Type 0) (n : ℕ) (m : P A) : Type 0 where
  pub within : (c : Compiler) (cur : Cur) → room cur < n → Within n (m c cur).1
  pub keeps : (c : Compiler) (cur : Cur) → I c → I (m c cur).0

-- An action on the compiler that keeps the invariant.
abbrev pub Keeps : {A : Type 0} → (Compiler → Type 0) → M A → Type 0
Keeps I m = (c : Compiler) → I c → I (m c).0

-- The steps of the bind, and of an action on the compiler, behind the first result.
abbrev pub continue :
    {A B : Type 0} → (A → P B) → Compiler × Result Halt (A × Cur) → Compiler × Result Halt (B × Cur)
continue f (c, ok (a, cur)) = f a c cur
continue f (c, err e) = (c, err e)

abbrev pub at_cursor :
    {A : Type 0} → Cur → Compiler × Result ParseError A → Compiler × Result Halt (A × Cur)
at_cursor cur (c, ok a) = (c, ok (a, cur))
at_cursor cur (c, err e) = (c, err (failed e))

pub bind_result :
    {A B : Type 0} {I : Compiler → Type 0} (n : ℕ) (c : Compiler) (r : Result Halt (A × Cur))
    (f : A → P B)
    → Within n r
    → ((a : A) → Settles I n (f a))
    → Within n (continue f (c, r)).1
bind_result n c (ok (a, cur)) f w k = (k a).within c cur w
bind_result n c (err starved) f w k = w
bind_result n c (err (failed e)) f w k = tt

pub bind_keeps :
    {A B : Type 0} {I : Compiler → Type 0} (n : ℕ) (c : Compiler) (r : Result Halt (A × Cur))
    (f : A → P B)
    → I c
    → ((a : A) → Settles I n (f a))
    → I (continue f (c, r)).0
bind_keeps n c (ok (a, cur)) f i k = (k a).keeps c cur i
bind_keeps n c (err e) f i k = i

pub bind-Settles :
    {A B : Type 0} {I : Compiler → Type 0} {n : ℕ} {m : P A} {f : A → P B}
    → Settles I n m
    → ((a : A) → Settles I n (f a))
    → Settles I n (m >>= f)
bind-Settles {n = n} {m = m} {f = f} s k = record {
  within = λ c cur lt. bind_result n (m c cur).0 (m c cur).1 f (s.within c cur lt) k;
  keeps = λ c cur i. bind_keeps n (m c cur).0 (m c cur).1 f (s.keeps c cur i) k;
}

pub pure-Settles : {A : Type 0} {I : Compiler → Type 0} {n : ℕ} (a : A) → Settles I n (pure a)
pure-Settles a = record { within = λ c cur lt. lt; keeps = λ c cur i. i }

pub fail-Settles :
    {A : Type 0} {I : Compiler → Type 0} {n : ℕ} (e : ParseError) → Settles I n (fail {A = A} e)
fail-Settles e = record { within = λ c cur lt. tt; keeps = λ c cur i. i }

pub if-Settles :
    {A : Type 0} {I : Compiler → Type 0} {n : ℕ} (b : Bool) {x y : P A}
    → Settles I n x
    → Settles I n y
    → Settles I n (if b then x else y)
if-Settles true sx sy = sx
if-Settles false sx sy = sy

on_result :
    {A : Type 0} (n : ℕ) (c : Compiler) (cur : Cur) (r : Result ParseError A)
    → room cur < n
    → Within n (at_cursor cur (c, r)).1
on_result n c cur (ok a) lt = lt
on_result n c cur (err e) lt = tt

on_result_keeps :
    {A : Type 0} (I : Compiler → Type 0) (c : Compiler) (cur : Cur) (r : Result ParseError A)
    → I c
    → I (at_cursor cur (c, r)).0
on_result_keeps I c cur (ok a) i = i
on_result_keeps I c cur (err e) i = i

pub on_compiler-Settles :
    {A : Type 0} {I : Compiler → Type 0} {n : ℕ} (m : M A) → Keeps I m → Settles I n (on_compiler m)
on_compiler-Settles {I = I} {n = n} m k = record {
  within = λ c cur lt. on_result n (m c).0 cur (m c).1 lt;
  keeps = λ c cur i. on_result_keeps I (m c).0 cur (m c).1 (k c i);
}

of_result-Settles :
    {A : Type 0} {I : Compiler → Type 0} {n : ℕ} (r : Result ParseError A)
    → Settles I n (of_result r)
of_result-Settles (ok a) = pure-Settles a
of_result-Settles (err e) = fail-Settles e

pub take_token-Settles : {I : Compiler → Type 0} {n : ℕ} → Settles I n take_token
unfolding take_token
take_token-Settles = record {
  within = λ c cur lt. omega (arith, next-room cur);
  keeps = λ c cur i. i;
}

pub look-Settles : {I : Compiler → Type 0} {n : ℕ} → Settles I n look
unfolding look
look-Settles = record { within = λ c cur lt. omega (arith, peek-room cur); keeps = λ c cur i. i }

settled_within : (m n : ℕ) (r : Result Halt (ℕ × Cur)) → Settled m r → m < n → Within n r
settled_within m n (ok (v, cur)) s lt = omega arith
settled_within m n (err starved) s lt = s
settled_within m n (err (failed e)) s lt = tt

module _ (env : Env) where
  pub eval-Settles :
      {I : Compiler → Type 0} {n : ℕ} (first : Option Token) → Settles I n (eval env first)
  unfolding eval
  eval-Settles {n = n} first = record {
    within = λ c cur lt.
        settled_within (room cur) n (eval_expr c.symbols env.mem (2 * room cur + 2) first cur)
          (eval_expr-Settled c.symbols env.mem (2 * room cur + 2) first cur (omega arith)) lt;
    keeps = λ c cur i. i;
  }

  pub atomic-Settles : {I : Compiler → Type 0} {n : ℕ} → Settles I n (atomic env)
  unfolding atomic
  atomic-Settles {n = n} = record {
    within = λ c cur lt.
        settled_within (room cur) n (parse_atomic_term c.symbols env.mem (2 * room cur + 2) cur)
          (parse_atomic_term-Settled c.symbols env.mem (2 * room cur + 2) cur (omega arith)) lt;
    keeps = λ c cur i. i;
  }

  granted-Settles :
      {E : Type 0} {I : Compiler → Type 0} {n : ℕ} (r : Result E (Unit {0}))
      → Settles I n (granted r)
  granted-Settles (ok a) = pure-Settles tt
  granted-Settles (err e) = fail-Settles _

  pub check-Settles : {I : Compiler → Type 0} {n : ℕ} (addr : ℕ) → Settles I n (check env addr)
  unfolding check
  check-Settles addr = granted-Settles _

  pub check_timer_cap-Settles : {I : Compiler → Type 0} {n : ℕ} → Settles I n (check_timer_cap env)
  unfolding check_timer_cap
  check_timer_cap-Settles = check-Settles _

  pub check_spi_cap-Settles : {I : Compiler → Type 0} {n : ℕ} → Settles I n (check_spi_cap env)
  unfolding check_spi_cap
  check_spi_cap-Settles = check-Settles _

pub expect-Settles :
    {I : Compiler → Type 0} {n : ℕ} (test : Token → Bool) (e : ParseError)
    → Settles I n (expect test e)
unfolding expect
expect-Settles test e =
    bind-Settles take_token-Settles
      (λ tok. if-Settles (test tok) (pure-Settles tt) (fail-Settles e))

pub expect_semicolon-Settles : {I : Compiler → Type 0} {n : ℕ} → Settles I n expect_semicolon
unfolding expect_semicolon
expect_semicolon-Settles = expect-Settles ends_line missing_semicolon

name_of-Settles : {I : Compiler → Type 0} {n : ℕ} (tok : Token) → Settles I n (name_of tok)
name_of-Settles (identifier id) = of_result-Settles (from_slice id)
name_of-Settles _ = fail-Settles _

pub expect_name-Settles : {I : Compiler → Type 0} {n : ℕ} → Settles I n expect_name
unfolding expect_name
expect_name-Settles = bind-Settles take_token-Settles name_of-Settles

pub allow_optional_semicolon-Settles :
    {I : Compiler → Type 0} {n : ℕ} → Settles I n allow_optional_semicolon
unfolding allow_optional_semicolon
allow_optional_semicolon-Settles = bind-Settles look-Settles (λ tok.
    if-Settles (is_semicolon tok) (bind-Settles take_token-Settles (λ _. pure-Settles tt))
      (pure-Settles tt))
