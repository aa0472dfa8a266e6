-- ===== src/Compiler/Tests.antt =====
-- Inputs on which the theorems about src/compiler are applied.
use hr_os.Prelude.{
  false, ◌∷◌, [], zero, suc, ◌>>=◌, arith, List, ℕ, some, none, true, ok, err, replicate, ◌++◌,
  get_or, bytes_eq, if◌then◌else◌, ◌+◌, ◌<◌, ◌≡◌, refl, ◌⊎◌, [], length, codes,
}
use hr_os.Compiler.Lexer.{Token, Lexer, identifier, eof, new, next_token, parse_decimal}
use hr_os.Compiler.Cursor.{Cur, next, peek}
use hr_os.Compiler.Expr.{eval_expr}
use hr_os.Compiler.Expr.Total.{Settled, eval_expr-Settled}
use hr_os.Compiler.Expr.Grammar.{
  plus, minus, times, lit, name, paren, Ops, done, op_then, term_tokens, ops_tokens, TermProper,
  term_size, term_value, ops_value,
}
use hr_os.Compiler.Expr.Meaning.{Starts, Gives, eval_expr-value}
use hr_os.Vm.{halt_prim, Vm, run_threaded_stream}
use hr_os.Vm.Meaning.{Shows}
use hr_os.Vm.Sample.{link, fresh, fresh-Shows}
use hr_os.Compiler.Stream
use hr_os.Compiler.Stream.{Compiler, StreamProgram, build_value_program}
use hr_os.Compiler.Stream.Programs.{build_value_program-runs}
use hr_os.Compiler.Fns.Calls.{call-export}
use hr_os.Compiler.Fns.{build_call_program, import_fn, export_fn}
use hr_os.Compiler.Fns.Table
use hr_os.Compiler.Fns.Table.{Imported, export-import}
use hr_os.Compiler.Names.{eq_bytes, symbol_table_full, NameBuf, as_slice}
use hr_os.Compiler.Symbols.{Symbol, symbol_slots, empty_symbol, hash, lookup_symbol, insert_symbol}
use hr_os.Compiler.Symbols.Probe.{IsValid}
use hr_os.Compiler.Symbols.Bindings.{lookup-insert, boot-IsValid}
use hr_os.Compiler.Lexer.Progress.{next_token-advances}

abbrev statement : Lexer
unfolding new
statement = new (codes "  led + 0x1F")

first_token : (next_token statement).0 ≡ identifier (codes "led")
unfolding new next_token
first_token = refl

next_token-advances_example :
    let (tok, after) = next_token statement in
    (after.cursor + length after.rest ≡ statement.cursor + length statement.rest)
    × ((length after.rest < length statement.rest) ⊎ (tok ≡ eof) × (after.rest ≡ []))
next_token-advances_example = next_token-advances statement

abbrev led : NameBuf
led = record { len = 3; bytes = codes "led" ++ replicate 13 0 }

abbrev no_symbols : List Symbol
no_symbols = replicate symbol_slots empty_symbol

bound :
    (lookup_symbol (insert_symbol led 7 no_symbols).0 (codes "led") ≡ some 7)
    × (lookup_symbol (insert_symbol led 7 no_symbols).0 (codes "dim") ≡ none)
unfolding insert_symbol lookup_symbol
bound = (refl, refl)

hash_of_nothing : hash [] ≡ 5
unfolding hash
hash_of_nothing = refl

lookup-insert_example :
    let (symbols', r) = insert_symbol led 7 no_symbols in
    ((r ≡ ok tt)
      × IsValid symbols'
      × ((m : List ℕ)
          → lookup_symbol symbols' m
            ≡ (if bytes_eq (as_slice led) m then some 7 else lookup_symbol no_symbols m)))
    ⊎ ((r ≡ err symbol_table_full)
        × (symbols' ≡ no_symbols)
        × (lookup_symbol no_symbols (as_slice led) ≡ none)
        × ((i : ℕ) → i < symbol_slots → (get_or no_symbols i empty_symbol).used ≡ true))
lookup-insert_example = lookup-insert led 7 boot-IsValid

abbrev expression : Cur
unfolding new
expression = record { lx = new (codes "2 + 3 * (led - 1)"); ahead = none }

-- From left to right, with no precedence.
evaluated :
    (eval_expr (insert_symbol led 7 no_symbols).0 (λ _. 0) 36 none expression >>= (λ r. ok r.0))
    ≡ ok 30
unfolding new insert_symbol eval_expr next next_token parse_decimal peek lookup_symbol
evaluated = refl

eval_expr-Settled_example : Settled 17 (eval_expr no_symbols (λ _. 0) 36 none expression)
unfolding new
eval_expr-Settled_example = eval_expr-Settled no_symbols (λ _. 0) 36 none expression (omega arith)

-- `2 + 3 * (led - 1)`
abbrev operators : Ops
operators =
    op_then plus (lit 3)
      (op_then times (paren (name (codes "led")) (op_then minus (lit 1) done)) done)

abbrev nth_token : ℕ → Cur → Token × Cur
nth_token zero cur = next cur
nth_token (suc n) cur = nth_token n (next cur).1

written :
    Starts (term_tokens (lit 2) ++ ops_tokens operators) (next expression) (nth_token 9 expression)
unfolding new next next_token parse_decimal term_tokens
written = (refl, (refl, (refl, (refl, (refl, (refl, (refl, (refl, (refl, refl)))))))))

eval_expr-value_example :
    Gives
      (term_value (insert_symbol led 7 no_symbols).0 (λ _. 0) (lit 2)
        >>= (λ v. ops_value (insert_symbol led 7 no_symbols).0 (λ _. 0) operators v))
      (eval_expr (insert_symbol led 7 no_symbols).0 (λ _. 0) 20 none expression)
      (nth_token 9 expression)
unfolding TermProper term_size new next next_token parse_decimal
eval_expr-value_example =
    eval_expr-value (insert_symbol led 7 no_symbols).0 (λ _. 0) (lit 2) operators 20 expression
      (nth_token 9 expression) tt (tt, ((refl, (tt, tt)), tt)) (omega arith) written tt

build_value_program-runs_example :
    (program : StreamProgram) × (vm' : Vm) × ((build_value_program link 42 Stream.fresh).1
      ≡ ok program)
    × (program.yields_value ≡ true)
    × (run_threaded_stream link program.words fresh ≡ some vm')
    × Shows vm' (42 ∷ [], λ _. 0)
build_value_program-runs_example =
    build_value_program-runs link 42 Stream.fresh (λ _. 0) refl fresh-Shows

no_fns-IsValid : Table.IsValid Stream.fresh
no_fns-IsValid = record { names = refl; bodies = refl; lens = refl }

stored_words :
    export_fn (codes "blink") 32 (import_fn (codes "blink") (1 ∷ 2 ∷ []) Stream.fresh).0
    ≡ some (1 ∷ 2 ∷ [])
unfolding export_fn import_fn eq_bytes
stored_words = refl

export-import_example :
    Imported
      (codes "blink")
      (1 ∷ 2 ∷ [])
      Stream.fresh
      (import_fn (codes "blink") (1 ∷ 2 ∷ []) Stream.fresh)
export-import_example = export-import (codes "blink") (1 ∷ 2 ∷ []) no_fns-IsValid (omega arith)

abbrev blinking : Compiler
blinking = (import_fn (codes "blink") (1 ∷ 2 ∷ []) Stream.fresh).0

blinking_bodies : (i : ℕ) → i < 2 → length (get_or blinking.fn_bodies i []) ≡ 32
unfolding import_fn eq_bytes
blinking_bodies zero h = refl
blinking_bodies (suc zero) h = refl
blinking_bodies (suc (suc i)) h = absurd (omega arith)

blinking_stream : length blinking.stream ≡ 128
unfolding import_fn eq_bytes
blinking_stream = refl

call-export_example :
    (program : StreamProgram) × ((build_call_program link (codes "blink") blinking).1 ≡ ok program)
    × (program.words ≡ (1 ∷ 2 ∷ []) ++ link.word_of halt_prim ∷ replicate 125 0)
    × (program.yields_value ≡ false)
call-export_example =
    call-export link (codes "blink") (1 ∷ 2 ∷ []) blinking blinking_stream blinking_bodies
      stored_words
