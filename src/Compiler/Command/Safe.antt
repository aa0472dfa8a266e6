-- ===== src/Compiler/Command/Safe.antt =====
-- src/compiler/parser.rs: every line is parsed to the end.
use hr_os.Prelude.{
  ℕ, zero, suc, ◌+◌, ◌%◌, Bool, ◌<◌, ◌≡◌, ◌≢◌, inl, inr, none, arith, codes, bytes_eq, sym, ◌∙◌, ap,
}
use hr_os.Compiler.Lexer.{Token, identifier, rbrace, eof}
use hr_os.Compiler.Names.{NameBuf, unexpected_token}
use hr_os.Compiler.Cursor.{Cur, next, peek, room, next-room, peek-room, next-peek, peek-next}
use hr_os.Compiler.Stream.{Compiler, stream_reset, stream_halt, take_program}
use hr_os.Compiler.Emit.{unroll_from}
use hr_os.Compiler.Action.{Env, P, insert, take_token, look, is_lbrace, is_equals}
use hr_os.Compiler.Action.Safe.{
  Within, Settles, continue, bind_result, bind_keeps, bind-Settles, pure-Settles, if-Settles,
  on_compiler-Settles, take_token-Settles, eval-Settles, atomic-Settles, check-Settles,
  check_timer_cap-Settles, check_spi_cap-Settles, expect-Settles, expect_semicolon-Settles,
  expect_name-Settles, allow_optional_semicolon-Settles,
}
use hr_os.Compiler.Body.Safe.{
  Stable, within_all, in_loop_range-Settles, poke_stmt-Settles, peek_stmt-Settles,
}
use hr_os.Compiler.Command.{
  Outcome, bound, run, enforced_peek, enforced_poke, pwm, pwm_duty, pool_alloc, spi_tx, with_name,
  plain, parse_let, peek_command, poke_command, bit_command, pwm_command, pwm_duty_command,
  spi_tx_command, pool_alloc_command, loop_item, loop_items_from, loop_items, all_loop_items,
  loop_command,
}

pub with_name-Settles :
    {I : Compiler → Type 0} {n : ℕ} (outcome : NameBuf → Outcome) → Settles I n (with_name outcome)
unfolding with_name
with_name-Settles outcome =
    bind-Settles expect_name-Settles
      (λ name. bind-Settles expect_semicolon-Settles (λ _. pure-Settles (outcome name)))

pub plain-Settles :
    {I : Compiler → Type 0} {n : ℕ} (outcome : Outcome) → Settles I n (plain outcome)
unfolding plain
plain-Settles outcome = bind-Settles allow_optional_semicolon-Settles (λ _. pure-Settles outcome)

module _ (env : Env) {I : Compiler → Type 0} (stable : Stable env I) where
  pub parse_let-Settles : {n : ℕ} → Settles I n (parse_let env)
  unfolding parse_let
  parse_let-Settles = bind-Settles expect_name-Settles (λ name.
      bind-Settles (expect-Settles is_equals unexpected_token) (λ _.
        bind-Settles (eval-Settles env none) (λ value. bind-Settles expect_semicolon-Settles (λ _.
          bind-Settles (on_compiler-Settles (insert name value) (stable.binding name value))
            (λ _. pure-Settles (bound name value))))))

  pub peek_command-Settles : {n : ℕ} → Settles I n (peek_command env)
  unfolding peek_command
  peek_command-Settles = bind-Settles (atomic-Settles env) (λ addr.
      bind-Settles expect_semicolon-Settles
        (λ _. bind-Settles (check-Settles env addr) (λ _. pure-Settles (enforced_peek addr))))

  pub poke_command-Settles : {n : ℕ} → Settles I n (poke_command env)
  unfolding poke_command
  poke_command-Settles = bind-Settles (atomic-Settles env) (λ addr.
      bind-Settles (eval-Settles env none) (λ val.
        bind-Settles expect_semicolon-Settles (λ _.
          bind-Settles (check-Settles env addr) (λ _. pure-Settles (enforced_poke addr val)))))

  pub bit_command-Settles :
      {n : ℕ} (outcome : ℕ → ℕ → Outcome) → Settles I n (bit_command env outcome)
  unfolding bit_command
  bit_command-Settles outcome = bind-Settles (atomic-Settles env) (λ addr.
      bind-Settles (atomic-Settles env) (λ bit.
        bind-Settles expect_semicolon-Settles
          (λ _. bind-Settles (check-Settles env addr) (λ _. pure-Settles (outcome addr bit)))))

  pub pwm_command-Settles : {n : ℕ} → Settles I n (pwm_command env)
  unfolding pwm_command
  pwm_command-Settles = bind-Settles (atomic-Settles env) (λ period.
      bind-Settles (atomic-Settles env) (λ duty.
        bind-Settles expect_semicolon-Settles
          (λ _. bind-Settles (check_timer_cap-Settles env) (λ _. pure-Settles (pwm period duty)))))

  pub pwm_duty_command-Settles : {n : ℕ} → Settles I n (pwm_duty_command env)
  unfolding pwm_duty_command
  pwm_duty_command-Settles = bind-Settles (atomic-Settles env) (λ duty.
      bind-Settles expect_semicolon-Settles
        (λ _. bind-Settles (check_timer_cap-Settles env) (λ _. pure-Settles (pwm_duty duty))))

  pub spi_tx_command-Settles : {n : ℕ} → Settles I n (spi_tx_command env)
  unfolding spi_tx_command
  spi_tx_command-Settles = bind-Settles (atomic-Settles env) (λ b.
      bind-Settles expect_semicolon-Settles
        (λ _. bind-Settles (check_spi_cap-Settles env) (λ _. pure-Settles (spi_tx (b % 256)))))

  pub pool_alloc_command-Settles : {n : ℕ} → Settles I n (pool_alloc_command env)
  unfolding pool_alloc_command
  pool_alloc_command-Settles =
      bind-Settles (atomic-Settles env)
        (λ size. bind-Settles expect_semicolon-Settles (λ _. pure-Settles (pool_alloc size)))

  pub loop_item-Settles : {n : ℕ} (tok : Token) → Settles I n (loop_item env tok)
  unfolding loop_item
  loop_item-Settles (identifier id) =
      if-Settles (bytes_eq id (codes "poke")) (poke_stmt-Settles env stable)
        (if-Settles (bytes_eq id (codes "peek")) (peek_stmt-Settles env stable) (pure-Settles tt))
  loop_item-Settles _ = pure-Settles tt

  -- The token taken makes room for the rest.
  item_then_rest :
      (n : ℕ) (rest : P (Unit {0})) (c : Compiler) (cur : Cur)
      → Settles I n rest
      → (next cur).0 ≢ eof
      → room cur < suc n
      → Within (suc n) (continue (λ _. rest) (loop_item env (next cur).0 c (next cur).1)).1
  item_then_rest n rest c cur s proper lt =
      let (c', r) = loop_item env (next cur).0 c (next cur).1 in
      within_all (suc n) n (continue (λ _. rest) (c', r)).1 (omega arith) (
        bind_result n c' r (λ _. rest)
          (elim (next-room cur).1 [
            | inl less ↦ (loop_item-Settles (next cur).0).within c (next cur).1 (omega arith)
            | inr e ↦ absurd (proper e)
          ])
          (λ _. s))

  loop_items_within :
      (n : ℕ) (rest : P (Unit {0})) (tok : Token) (c : Compiler) (cur : Cur)
      → Settles I n rest
      → tok ≡ (next cur).0
      → room cur < suc n
      → Within (suc n) (loop_items_from env rest tok c cur).1
  unfolding loop_items_from take_token
  loop_items_within n rest rbrace c cur s e lt =
      (bind-Settles {I = I} take_token-Settles (λ _. pure-Settles tt)).within c cur lt
  loop_items_within n rest eof c cur s e lt = tt
  loop_items_within n rest _ c cur s e lt = item_then_rest n rest c cur s (λ e'. cc) lt

  loop_items_keep :
      (n : ℕ) (rest : P (Unit {0})) (tok : Token)
      → Settles I n rest
      → (c : Compiler) (cur : Cur) → I c
      → I (loop_items_from env rest tok c cur).0
  unfolding loop_items_from take_token
  loop_items_keep n rest rbrace s c cur i = i
  loop_items_keep n rest eof s c cur i = i
  loop_items_keep n rest _ s c cur i =
      let tok = (next cur).0 in
      let (c', r) = loop_item env tok c (next cur).1 in
      bind_keeps n c' r (λ _. rest) ((loop_item-Settles {n = n} tok).keeps c (next cur).1 i)
        (λ _. s)

  loop_items-Settles : (fuel : ℕ) → Settles I fuel (loop_items env fuel)
  unfolding loop_items look
  loop_items-Settles zero = record {
    within = λ c cur lt. absurd (omega arith);
    keeps = λ c cur i. i;
  }
  loop_items-Settles (suc fuel) = record {
    within = λ c cur lt.
        loop_items_within fuel (loop_items env fuel) (peek cur).0 c (peek cur).1
          (loop_items-Settles fuel) (peek-next cur ∙ ap (λ r. r.0) (sym (next-peek cur)))
          (omega (arith, peek-room cur));
    keeps = λ c cur i.
        loop_items_keep fuel (loop_items env fuel) (peek cur).0 (loop_items-Settles fuel) c
          (peek cur).1 i;
  }

  pub all_loop_items-Settles : {n : ℕ} → Settles I n (all_loop_items env)
  unfolding all_loop_items
  all_loop_items-Settles {n = n} = record {
    within = λ c cur lt.
        within_all n (room cur + 1) (loop_items env (room cur + 1) c cur).1 (omega arith)
          ((loop_items-Settles (room cur + 1)).within c cur (omega arith));
    keeps = λ c cur i. (loop_items-Settles (room cur + 1)).keeps c cur i;
  }

  pub loop_command-Settles : {n : ℕ} → Settles I n (loop_command env)
  unfolding loop_command
  loop_command-Settles = bind-Settles (atomic-Settles env) (λ count.
      bind-Settles (in_loop_range-Settles count) (λ _.
        bind-Settles (expect-Settles is_lbrace unexpected_token) (λ _.
          bind-Settles (on_compiler-Settles stream_reset stable.reset) (λ _.
            bind-Settles all_loop_items-Settles (λ _.
              bind-Settles (on_compiler-Settles (unroll_from count 0) (stable.copies count)) (λ _.
                bind-Settles (on_compiler-Settles (stream_halt env.link) stable.halt) (λ _.
                  bind-Settles
                    (on_compiler-Settles (take_program Bool.false) (stable.program Bool.false))
                    (λ program. pure-Settles (run program)))))))))
