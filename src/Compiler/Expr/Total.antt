-- ===== src/Compiler/Expr/Total.antt =====
-- src/compiler/parser.rs: the evaluation of an expression ends, and never starves on enough fuel.
use hr_os.Prelude.{
  Bool, true, false, if◌then◌else◌, Option, some, none, ◌∙◌, ◌==◌, Bool-cases, bytes_eq, codes, ℕ,
  zero, suc, ◌+◌, ◌*◌, ◌≤◌, ◌≡◌, inl, inr, ◌⊎◌, List, Result, ok, err, ◌>>=◌, arith,
}
use hr_os.Memory.{Memory, peek_u32}
use hr_os.Compiler.Lexer.{Token, identifier, operator, literal, lparen, rparen, eof}
use hr_os.Compiler.Symbols.{Symbol, lookup_symbol}
use hr_os.Compiler.Names.{unexpected_token}
use hr_os.Compiler.Cursor.{Cur, next, peek, room, next-room, peek-room, next-peek, peek-next}
use hr_os.Compiler.Expr.{
  Halt, starved, failed, is_arithmetic, Ask, term, loop, Answer, close, found, apply, head_then,
  term_from, read_term, operate, loop_from, evaluate, eval_expr, parse_atomic_term,
}

-- The answer is a value, with at most `n` tokens to come behind it, or an error of the parser.
abbrev pub Settled : ℕ → Answer → Type 0
Settled n (ok (value, cur)) = room cur ≤ n
Settled n (err starved) = ⊥
Settled n (err (failed e)) = Unit

-- The fuel that a question needs.
abbrev pub Enough : ℕ → Ask → Cur → Type 0
Enough fuel (term tok) cur = (1 ≤ fuel) × ((tok ≡ eof) ⊎ 2 * room cur + 2 ≤ fuel)
Enough fuel (loop acc) cur = 2 * room cur + 1 ≤ fuel

weaken : {m n : ℕ} (r : Answer) → m ≤ n → Settled m r → Settled n r
weaken (ok (value, cur)) le s = omega arith
weaken (err starved) le s = s
weaken (err (failed e)) le s = tt

bind-Settled :
    (m n : ℕ) (r : Answer) (f : ℕ × Cur → Answer)
    → Settled m r
    → ((value : ℕ) (cur : Cur) → room cur ≤ m → Settled n (f (value, cur)))
    → Settled n (r >>= f)
bind-Settled m n (ok (value, cur)) f s k = k value cur s
bind-Settled m n (err starved) f s k = s
bind-Settled m n (err (failed e)) f s k = tt

close-Settled : (value : ℕ) (cur : Cur) → Settled (room cur) (close value cur)
unfolding close
close-Settled value cur = go (next cur).0 (next cur).1 (next-room cur).0
  where
    go :
        (tok : Token) (cur' : Cur)
        → room cur' ≤ room cur
        → Settled
            (room cur)
            (elim tok [ rparen ↦ ok (value, cur') | _ ↦ err (failed unexpected_token) ])
    go rparen cur' le = le
    go _ cur' le = tt

found-Settled : (value : Option ℕ) (cur : Cur) → Settled (room cur) (found value cur)
unfolding found
found-Settled (some value) cur = omega arith
found-Settled none cur = tt

-- A value, or an error of the parser.
abbrev Fed : Result Halt ℕ → Type 0
Fed (err starved) = ⊥
Fed _ = Unit

if-Fed : (b : Bool) (x y : Result Halt ℕ) → Fed x → Fed y → Fed (if b then x else y)
if-Fed true x y hx hy = hx
if-Fed false x y hx hy = hy

bind-Fed :
    (n : ℕ) (r : Result Halt ℕ) (f : ℕ → Answer)
    → Fed r
    → ((v : ℕ) → Settled n (f v))
    → Settled n (r >>= f)
bind-Fed n (ok v) f h k = k v
bind-Fed n (err starved) f h k = h
bind-Fed n (err (failed e)) f h k = tt

apply-Fed : (op acc rhs : ℕ) → Fed (apply op acc rhs)
unfolding apply
apply-Fed op acc rhs = if-Fed (op == b'+') _ _ tt (
    if-Fed (op == b'-') _ _ tt (
      if-Fed (op == b'*') _ _ tt
        (if-Fed (op == b'/') _ _ (if-Fed (rhs == 0) _ _ tt tt) (if-Fed (rhs == 0) _ _ tt tt))))

-- The questions that a question asks are answered on less fuel.
module _ (symbols : List Symbol) (mem : Memory) (fuel : ℕ) (eval : Ask → Cur → Answer)
    (ih : (ask : Ask) (cur : Cur) → Enough fuel ask cur → Settled (room cur) (eval ask cur)) where
  next-Enough : (cur : Cur) → 2 * room cur + 1 ≤ fuel → Enough fuel (term (next cur).0) (next cur).1
  next-Enough cur h =
      (omega arith, elim (next-room cur).1 [ inl lt ↦ inr (omega arith) | inr e ↦ inl e ])

  head_then-Settled :
      (tok : Token) (cur : Cur)
      → Enough fuel (term tok) cur
      → 2 * room cur + 1 ≤ fuel
      → Settled (room cur) (head_then symbols mem eval tok cur)
  unfolding head_then
  head_then-Settled tok cur enough h =
      bind-Settled (room cur) (room cur) (eval (term tok) cur) (λ r. eval (loop r.0) r.1)
        (ih (term tok) cur enough)
        (λ value cur' le. weaken (eval (loop value) cur') le (ih (loop value) cur' (omega arith)))

  after_next :
      (cur : Cur)
      → 2 * room cur + 1 ≤ fuel
      → Settled (room cur) (head_then symbols mem eval (next cur).0 (next cur).1)
  after_next cur h =
      weaken (head_then symbols mem eval (next cur).0 (next cur).1) (next-room cur).0 (
        head_then-Settled (next cur).0 (next cur).1 (next-Enough cur h)
          (omega (arith, next-room cur)))

  read_term-Settled :
      (cur : Cur) → 2 * room cur + 1 ≤ fuel → Settled (room cur) (read_term symbols mem eval cur)
  unfolding read_term
  read_term-Settled cur h =
      bind-Settled (room cur) (room cur) (eval (term (next cur).0) (next cur).1)
        (λ r. ok (peek_u32 r.0 mem, r.1))
        (weaken (eval (term (next cur).0) (next cur).1) (next-room cur).0
          (ih (term (next cur).0) (next cur).1 (next-Enough cur h)))
        (λ value cur' le. le)

  operate-Settled :
      (acc op : ℕ) (cur : Cur)
      → 2 * room cur + 1 ≤ fuel
      → Settled (room cur) (operate symbols mem eval acc op cur)
  unfolding operate
  operate-Settled acc op cur h =
      bind-Settled (room cur) (room cur) (eval (term (next cur).0) (next cur).1)
        (λ r. apply op acc r.0 >>= (λ acc'. eval (loop acc') r.1))
        (weaken (eval (term (next cur).0) (next cur).1) (next-room cur).0
          (ih (term (next cur).0) (next cur).1 (next-Enough cur h)))
        (λ value cur' le.
          bind-Fed (room cur) (apply op acc value) (λ acc'. eval (loop acc') cur')
            (apply-Fed op acc value)
            (λ acc'. weaken (eval (loop acc') cur') le (ih (loop acc') cur' (omega arith))))

  term_from-Settled :
      (tok : Token) (cur : Cur)
      → Enough (suc fuel) (term tok) cur
      → Settled (room cur) (term_from symbols mem eval tok cur)
  unfolding term_from
  term_from-Settled lparen cur (_, inl e) = cc
  term_from-Settled lparen cur (_, inr h) =
      bind-Settled (room cur) (room cur) (head_then symbols mem eval (next cur).0 (next cur).1)
        (λ r. close r.0 r.1) (after_next cur (omega (arith, h)))
        (λ value cur' le. weaken (close value cur') le (close-Settled value cur'))
  term_from-Settled (literal v) cur h = omega arith
  term_from-Settled (identifier id) cur (_, inl e) = cc
  term_from-Settled (identifier id) cur (_, inr h) =
      elim (Bool-cases (bytes_eq id (codes "peek"))) [
        | inl e ↦ rw e (read_term-Settled cur (omega (arith, h)))
        | inr e ↦ rw e (found-Settled (lookup_symbol symbols id) cur)
      ]
  term_from-Settled _ cur h = tt

  loop_from-Settled :
      (acc : ℕ) (tok : Token) (cur : Cur)
      → (tok ≡ eof) ⊎ (2 * room (next cur).1 + 1 ≤ fuel)
      → Settled (room cur) (loop_from symbols mem eval acc tok cur)
  unfolding loop_from
  loop_from-Settled acc (operator op) cur (inl e) = cc
  loop_from-Settled acc (operator op) cur (inr h) = elim (Bool-cases (is_arithmetic op)) [
    | inl e ↦ rw e (
        weaken (operate symbols mem eval acc op (next cur).1) (next-room cur).0
          (operate-Settled acc op (next cur).1 h))
    | inr e ↦ rw e (omega arith)
  ]
  loop_from-Settled acc _ cur h = omega arith

evaluate-Settled :
    (symbols : List Symbol) (mem : Memory) (fuel : ℕ) (ask : Ask) (cur : Cur)
    → Enough fuel ask cur
    → Settled (room cur) (evaluate symbols mem fuel ask cur)
unfolding evaluate
evaluate-Settled symbols mem zero (term tok) cur h = absurd (omega arith)
evaluate-Settled symbols mem zero (loop acc) cur h = absurd (omega arith)
evaluate-Settled symbols mem (suc fuel) (term tok) cur h =
    term_from-Settled symbols mem fuel (evaluate symbols mem fuel)
      (evaluate-Settled symbols mem fuel) tok cur h
evaluate-Settled symbols mem (suc fuel) (loop acc) cur h =
    weaken (loop_from symbols mem (evaluate symbols mem fuel) acc (peek cur).0 (peek cur).1)
      (peek-room cur)
      (loop_from-Settled symbols mem fuel (evaluate symbols mem fuel)
        (evaluate-Settled symbols mem fuel) acc (peek cur).0 (peek cur).1
        (elim (next-room cur).1 [
          | inl lt ↦ inr (rw (next-peek cur) (omega arith))
          | inr e ↦ inl (peek-next cur ∙ e)
        ]))

-- With fuel for twice the bytes and tokens to come and two more, the evaluation of an expression
-- ends with a value or an error of the parser, whether its first token is taken or to come; it
-- never starves, and it does not move the cursor back.
pub eval_expr-Settled :
    (symbols : List Symbol) (mem : Memory) (fuel : ℕ) (first : Option Token) (cur : Cur)
    → 2 * room cur + 2 ≤ fuel
    → Settled (room cur) (eval_expr symbols mem fuel first cur)
unfolding eval_expr
eval_expr-Settled symbols mem fuel none cur h =
    after_next symbols mem fuel (evaluate symbols mem fuel) (evaluate-Settled symbols mem fuel) cur
      (omega (arith, h))
eval_expr-Settled symbols mem fuel (some tok) cur h =
    head_then-Settled symbols mem fuel (evaluate symbols mem fuel)
      (evaluate-Settled symbols mem fuel) tok cur (omega (arith, h), inr h) (omega (arith, h))

pub parse_atomic_term-Settled :
    (symbols : List Symbol) (mem : Memory) (fuel : ℕ) (cur : Cur)
    → 2 * room cur + 1 ≤ fuel
    → Settled (room cur) (parse_atomic_term symbols mem fuel cur)
unfolding parse_atomic_term
parse_atomic_term-Settled symbols mem fuel cur h =
    weaken (evaluate symbols mem fuel (term (next cur).0) (next cur).1) (next-room cur).0 (
      evaluate-Settled symbols mem fuel (term (next cur).0) (next cur).1 (
        next-Enough symbols mem fuel (evaluate symbols mem fuel) (evaluate-Settled symbols mem fuel)
          cur h))
