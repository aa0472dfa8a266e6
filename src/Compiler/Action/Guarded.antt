-- ===== src/Compiler/Action/Guarded.antt =====
-- src/compiler/parser.rs: actions that write the words of granted accesses only.
use mathlib.Core.Path.{subst}
use hr_os.Prelude.{
  ℕ, ◌≤◌, ◌<◌, ◌≡◌, refl, ap, sym, ◌∙◌, Bool, true, false, Option, List, [], ◌++◌, Result, ok, err,
  if◌then◌else◌, length, get_or, take,
}
use hr_os.Caps.Access.{check_access}
use hr_os.Vm.Threaded.{assemble}
use hr_os.Compiler.Lexer.{Token}
use hr_os.Compiler.Names.{ParseError, missing_semicolon}
use hr_os.Compiler.Cursor.{Cur}
use hr_os.Compiler.Expr.{Halt}
use hr_os.Compiler.Stream.{Compiler, M, max_fns}
use hr_os.Compiler.Emit.Writes.{Same, Sized, Emits, Writes, Same-trans, Emits-trans, Emits-nothing}
use hr_os.Compiler.Emit.Guarded.{Access, code, Granted, Granted-append, code-append, operations}
use hr_os.Compiler.Action.{
  Env, P, ◌>>=◌, ◌>>◌, pure, fail, on_compiler, take_token, look, eval, atomic, ends_line, expect,
  granted, expect_semicolon, check,
}
use hr_os.Compiler.Action.Safe.{continue, at_cursor}

-- The words are those of granted accesses.
pub record Guarded (env : Env) (ws : List ℕ) : Type 0 where
  pub accesses : List Access
  pub granted : Granted env accesses
  pub words : ws ≡ code env.link accesses

-- The compiler since `base`: the same tables, and more words of granted accesses.
pub record Grows (env : Env) (base c : Compiler) : Type 0 where
  pub words : List ℕ
  pub guarded : Guarded env words
  pub emits : Emits base words c

abbrev pub Follows : {A : Type 0} → Env → Compiler → Compiler × Result Halt A → Type 0
Follows env base (c, ok a) = Grows env base c
Follows env base (c, err e) = Same base c

-- The bodies of the functions are those of granted accesses, and fit their buffers.
pub record Body (env : Env) (c : Compiler) (i : ℕ) : Type 0 where
  pub inside : get_or c.fn_body_lens i 0 ≤ length (get_or c.fn_bodies i [])
  pub guarded : Guarded env (take (get_or c.fn_body_lens i 0) (get_or c.fn_bodies i []))

abbrev pub Bodies : Env → Compiler → Type 0
Bodies env c = (i : ℕ) → i < max_fns → Body env c i

pub Guarded-append :
    {env : Env} {ws vs : List ℕ} → Guarded env ws → Guarded env vs → Guarded env (ws ++ vs)
Guarded-append {env} {ws} {vs} g h = record {
  accesses = g.accesses ++ h.accesses;
  granted = Granted-append env g.accesses h.accesses g.granted h.granted;
  words =
      ap (λ t. t ++ vs) g.words
      ∙ ap (λ t. code env.link g.accesses ++ t) h.words
      ∙ sym (code-append env.link g.accesses h.accesses);
}

pub Grows-refl : (env : Env) (c : Compiler) → Sized c → Grows env c c
unfolding code operations assemble Granted
Grows-refl env c s = record {
  words = [];
  guarded = record { accesses = []; granted = tt; words = refl };
  emits = Emits-nothing c s;
}

pub Grows-write :
    {env : Env} {base c c' : Compiler} (ws : List ℕ)
    → Grows env base c
    → Guarded env ws
    → Emits c ws c'
    → Grows env base c'
Grows-write ws g h e = record {
  words = g.words ++ ws;
  guarded = Guarded-append g.guarded h;
  emits = Emits-trans g.emits e;
}

-- An action on the compiler that writes guarded words.
pub write-Follows :
    {A : Type 0} {env : Env} {base c : Compiler} (ws : List ℕ) (cur : Cur)
    (r : Compiler × Result ParseError A)
    → Grows env base c
    → Guarded env ws
    → Writes c ws r
    → Follows env base (at_cursor cur r)
write-Follows ws cur (c', ok a) g h e = Grows-write ws g h e
write-Follows ws cur (c', err e) g h s = Same-trans g.emits.same s

-- From a state that grew out of `base`, the action grows it further.
pub record Guards {A : Type 0} (env : Env) (base : Compiler) (m : P A) : Type 0 where
  pub follows : (c : Compiler) (cur : Cur) → Grows env base c → Follows env base (m c cur)

bind-Follows :
    {A B : Type 0} {env : Env} {base : Compiler} (r : Compiler × Result Halt (A × Cur))
    (f : A → P B)
    → Follows env base r
    → ((a : A) → Guards env base (f a))
    → Follows env base (continue f r)
bind-Follows (c, ok (a, cur)) f w k = (k a).follows c cur w
bind-Follows (c, err e) f w k = w

pub bind-Guards :
    {A B : Type 0} {env : Env} {base : Compiler} {m : P A} {f : A → P B}
    → Guards env base m
    → ((a : A) → Guards env base (f a))
    → Guards env base (m >>= f)
bind-Guards {m = m} {f = f} s k = record {
  follows = λ c cur g. bind-Follows (m c cur) f (s.follows c cur g) k;
}

-- An action that leaves the compiler as it is.
pub record Still {A : Type 0} (m : P A) : Type 0 where
  pub still : (c : Compiler) (cur : Cur) → (m c cur).0 ≡ c

still-Follows :
    {A : Type 0} {env : Env} {base c : Compiler} (r : Compiler × Result Halt (A × Cur))
    → r.0 ≡ c
    → Grows env base c
    → Follows env base r
still-Follows {env = env} {base = base} (c', ok a) e g = subst (λ x. Grows env base x) (sym e) g
still-Follows {base = base} (c', err h) e g = subst (λ x. Same base x) (sym e) g.emits.same

pub Still-Guards :
    {A : Type 0} {env : Env} {base : Compiler} {m : P A} → Still m → Guards env base m
Still-Guards {m = m} s = record { follows = λ c cur g. still-Follows (m c cur) (s.still c cur) g }

pub pure-Guards : {A : Type 0} {env : Env} {base : Compiler} (a : A) → Guards env base (pure a)
pure-Guards a = record { follows = λ c cur g. g }

pub fail-Guards :
    {A : Type 0} {env : Env} {base : Compiler} (e : ParseError) → Guards env base (fail {A = A} e)
fail-Guards e = record { follows = λ c cur g. g.emits.same }

pub if-Guards :
    {A : Type 0} {env : Env} {base : Compiler} (b : Bool) {x y : P A}
    → Guards env base x
    → Guards env base y
    → Guards env base (if b then x else y)
if-Guards true sx sy = sx
if-Guards false sx sy = sy

module _ {env : Env} {base : Compiler} where
  pub take_token-Guards : Guards env base take_token
  unfolding take_token
  take_token-Guards = record { follows = λ c cur g. g }

  pub look-Guards : Guards env base look
  unfolding look
  look-Guards = record { follows = λ c cur g. g }

  pub eval-Guards : (first : Option Token) → Guards env base (eval env first)
  unfolding eval
  eval-Guards first = Still-Guards (record { still = λ c cur. refl })

  pub atomic-Guards : Guards env base (atomic env)
  unfolding atomic
  atomic-Guards = Still-Guards (record { still = λ c cur. refl })

  pub expect-Guards : (test : Token → Bool) (e : ParseError) → Guards env base (expect test e)
  unfolding expect
  expect-Guards test e =
      bind-Guards take_token-Guards (λ tok. if-Guards (test tok) (pure-Guards tt) (fail-Guards e))

  pub expect_semicolon-Guards : Guards env base expect_semicolon
  unfolding expect_semicolon
  expect_semicolon-Guards = expect-Guards ends_line missing_semicolon

  granted_then :
      {A : Type 0} {E : Type 0} (r : Result E (Unit {0})) (m : P A)
      → (r ≡ ok tt → Guards env base m)
      → Guards env base (granted r >> m)
  granted_then (ok u) m k = k refl
  granted_then (err e) m k = record { follows = λ c cur g. g.emits.same }

  -- What follows an access check may rely on it.
  pub check-Guards :
      {A : Type 0} (addr : ℕ) (m : P A)
      → (check_access env.arch env.bits addr ≡ ok tt → Guards env base m)
      → Guards env base (check env addr >> m)
  unfolding check
  check-Guards addr m k = granted_then (check_access env.arch env.bits addr) m k

  pub on_compiler-Guards :
      {A : Type 0} (ws : List ℕ) (m : M A)
      → Guarded env ws
      → ((c : Compiler) → Sized c → Writes c ws (m c))
      → Guards env base (on_compiler m)
  on_compiler-Guards ws m h w = record {
    follows = λ c cur g. write-Follows ws cur (m c) g h (w c g.emits.same.sized);
  }
