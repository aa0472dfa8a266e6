-- ===== src/Compiler/Command/Tests.antt =====
-- Lines of the console on which the theorems about src/compiler/parser.rs are applied.
use hr_os.Prelude.{ℕ, ◌≡◌, ◌⊎◌, refl, List, [], ◌∷◌, ok, err, codes, replicate, false}
use hr_os.Caps.Registry.{registry_bits, available, is_claimed}
use hr_os.Caps.Access.{
  arm, check_access, is_superuser_active, addr_to_cap_id, arm_addr_to_cap, is_ram_flash,
}
use hr_os.Vm.{Vm, halt_prim}
use hr_os.Vm.Sample.{link, fresh}
use hr_os.Compiler.Names.{ParseError, eq_bytes, capability_violation}
use hr_os.Compiler.Lexer.{new, next_token, parse_decimal, parse_hex}
use hr_os.Compiler.Cursor.{next, peek}
use hr_os.Compiler.Expr.{failed, eval_expr, parse_atomic_term}
use hr_os.Compiler.Stream
use hr_os.Compiler.Stream.{Compiler}
use hr_os.Compiler.Fns.{find_fn}
use hr_os.Compiler.Action.{Env}
use hr_os.Compiler.Body.Define.{Good}
use hr_os.Compiler.Command.{Outcome, run, parse}
use hr_os.Compiler.Command.Ends.{parse-ends}
use hr_os.Compiler.Command.Invariant.{parse-Good, fresh-Good}

-- An ARM board at boot, with no capability claimed.
abbrev board : Env
board = record { link = link; arch = arm; bits = registry_bits; mem = λ _. 0 }

abbrev define_blink : List ℕ
define_blink = codes "fn blink() { loop 2 { poke 0x20000100 7; } peek 0x20000100; }"

parse-ends_example :
    ((outcome : Outcome) × ((parse board define_blink Stream.fresh).1 ≡ ok outcome))
    ⊎ ((e : ParseError) × ((parse board define_blink Stream.fresh).1 ≡ err (failed e)))
parse-ends_example = parse-ends board define_blink Stream.fresh

parse-Good_example : Good board (parse board define_blink Stream.fresh).0
parse-Good_example = parse-Good board define_blink Stream.fresh (fresh-Good board)

abbrev blinking : Compiler
blinking = (parse board define_blink Stream.fresh).0

blink_words : blinking.fn_body_lens ≡ 13 ∷ 0 ∷ []
unfolding parse next next_token new peek parse_atomic_term parse_decimal parse_hex eval_expr
    check_access is_superuser_active available addr_to_cap_id arm_addr_to_cap is_ram_flash
    is_claimed eq_bytes find_fn
blink_words = refl

-- A register of a peripheral that nobody has claimed.
refused :
    (parse board (codes "fn f() { poke 0x40020000 1; }") Stream.fresh).1
    ≡ err (failed capability_violation)
unfolding parse next next_token new peek parse_atomic_term parse_decimal parse_hex eval_expr
    check_access is_superuser_active available addr_to_cap_id arm_addr_to_cap is_ram_flash
    is_claimed eq_bytes find_fn
refused = refl

-- A `loop` line drops the calls in its body.
call_dropped :
    (parse board (codes "loop 2 { blink(); }") Stream.fresh).1
    ≡ ok (
        run (record {
          words = link.word_of halt_prim ∷ replicate 127 0;
          len = 1;
          yields_value = false;
        }))
unfolding parse next next_token new peek parse_atomic_term parse_decimal parse_hex eval_expr
    check_access is_superuser_active available addr_to_cap_id arm_addr_to_cap is_ram_flash
    is_claimed eq_bytes find_fn
call_dropped = refl
