-- ===== src/Compiler/Expr/Meaning.antt =====
-- src/compiler/parser.rs: what an expression means, apart from the tokens it is written with.
use hr_os.Prelude.{
  ℕ, zero, suc, ◌+◌, ◌≤◌, ◌≡◌, refl, ap, sym, ◌∙◌, false, Option, none, some, List, [], ◌∷◌, ◌++◌,
  Result, ok, err, ◌>>=◌, arith,
}
use mathlib.Core.Path.{subst}
use hr_os.Memory.{Memory, peek_u32}
use hr_os.Compiler.Lexer.{Token, operator, rparen}
use hr_os.Compiler.Names.{unexpected_token}
use hr_os.Compiler.Symbols.{Symbol, lookup_symbol}
use hr_os.Compiler.Cursor.{Cur, next, peek, next-peek, peek-next}
use hr_os.Compiler.Expr.{
  Halt, failed, is_arithmetic, Ask, term, loop, Answer, close, found, apply, head_then, read_term,
  term_from, operate, loop_from, evaluate, eval_expr,
}
use hr_os.Compiler.Expr.Grammar.{
  byte, compute, apply-byte, is_arithmetic-byte, Term, lit, name, read, paren, Ops, done, op_then,
  term_tokens, ops_tokens, TermProper, OpsProper, term_size, ops_size, named, term_value, ops_value,
  term_size-pos, ops_size-pos,
}

-- From a token taken and the cursor behind it, the tokens come one by one, and then `end`.
abbrev pub Starts : List Token → Token × Cur → Token × Cur → Type 0
Starts [] p end = p ≡ end
Starts (t ∷ ts) p end = (p.0 ≡ t) × Starts ts (next p.1) end

-- The answer is that value, with `end` to come, or that error.
abbrev pub Gives : Result Halt ℕ → Answer → Token × Cur → Type 0
Gives (ok v) a end = (cur : Cur) × (a ≡ ok (v, cur)) × (next cur ≡ end)
Gives (err e) a end = a ≡ err e

-- No operator that would go on with the expression.
abbrev pub Ends : Token → Type 0
Ends (operator op) = is_arithmetic op ≡ false
Ends _ = Unit

Starts-append :
    (xs ys : List Token) (p end : Token × Cur)
    → Starts (xs ++ ys) p end
    → (mid : Token × Cur) × Starts xs p mid × Starts ys mid end
Starts-append [] ys p end s = (p, refl, s)
Starts-append (x ∷ xs) ys p end s =
    let (mid, front, back) = Starts-append xs ys (next p.1) end s.1 in (mid, (s.0, front), back)

Gives-bind :
    (r : Result Halt ℕ) (k : ℕ → Result Halt ℕ) (a : Answer) (f : ℕ × Cur → Answer)
    (mid end : Token × Cur)
    → Gives r a mid
    → ((v : ℕ) (cur : Cur) → next cur ≡ mid → Gives (k v) (f (v, cur)) end)
    → Gives (r >>= k) (a >>= f) end
Gives-bind (ok v) k a f mid end (cur, e, n) h =
    subst (λ b. Gives (k v) (b >>= f) end) (sym e) (h v cur n)
Gives-bind (err e) k a f mid end g h = ap (λ b. b >>= f) g

Gives-pure :
    (r : Result Halt ℕ) (k : ℕ → Result Halt ℕ) (f : ℕ → Answer) (end : Token × Cur)
    → ((v : ℕ) → Gives (k v) (f v) end)
    → Gives (r >>= k) (r >>= f) end
Gives-pure (ok v) k f end h = h v
Gives-pure (err e) k f end h = refl

Gives-found : (o : Option ℕ) (cur : Cur) → Gives (named o) (found o cur) (next cur)
unfolding named found
Gives-found (some v) cur = (cur, refl, refl)
Gives-found none cur = refl

abbrev closed : ℕ → Cur → Token → Answer
closed v cur' tok = elim tok [ rparen ↦ ok (v, cur') | _ ↦ err (failed unexpected_token) ]

close_at : (v : ℕ) (cur : Cur) → (next cur).0 ≡ rparen → close v cur ≡ ok (v, (next cur).1)
unfolding close
close_at v cur h = ap (closed v (next cur).1) h

Gives-close :
    (r : Result Halt ℕ) (a : Answer) (mid end : Token × Cur)
    → mid.0 ≡ rparen
    → next mid.1 ≡ end
    → Gives r a mid
    → Gives r (a >>= (λ x. close x.0 x.1)) end
Gives-close (ok v) a mid end tok n (cur, e, m) = (
  mid.1,
  ap (λ b. b >>= (λ x. close x.0 x.1)) e
      ∙ close_at v cur (ap (λ q. q.0) m ∙ tok)
      ∙ ap (λ q. ok (v, q.1)) m,
  n,
)
Gives-close (err e) a mid end tok n g = ap (λ b. b >>= (λ x. close x.0 x.1)) g

module _ (symbols : List Symbol) (mem : Memory) where
  loop_from-Ends :
      (eval : Ask → Cur → Answer) (acc : ℕ) (tok : Token) (cur : Cur)
      → Ends tok
      → loop_from symbols mem eval acc tok cur ≡ ok (acc, cur)
  unfolding loop_from
  loop_from-Ends eval acc (operator op) cur h = rw h refl
  loop_from-Ends eval acc _ cur h = refl

  mutual
    unfolding term_tokens ops_tokens TermProper OpsProper term_size ops_size term_value ops_value
        evaluate term_from read_term head_then loop_from operate

    term-Gives :
        (t : Term) (fuel : ℕ) (p end : Token × Cur)
        → TermProper t
        → term_size t ≤ fuel
        → Starts (term_tokens t) p end
        → Gives (term_value symbols mem t) (evaluate symbols mem fuel (term p.0) p.1) end
    term-Gives t zero p end proper le s = absurd (omega (arith, le, term_size-pos t))
    term-Gives (lit v) (suc fuel) p end proper le (e, n) =
        subst (λ tok. Gives (ok v) (evaluate symbols mem (suc fuel) (term tok) p.1) end) (sym e)
          (p.1, refl, n)
    term-Gives (name id) (suc fuel) p end proper le (e, n) =
        subst
          (λ tok.
            Gives (named (lookup_symbol symbols id))
              (evaluate symbols mem (suc fuel) (term tok) p.1) end)
          (sym e)
          (rw proper (
            subst (Gives (named (lookup_symbol symbols id)) (found (lookup_symbol symbols id) p.1))
              n (Gives-found (lookup_symbol symbols id) p.1)))
    term-Gives (read t) (suc fuel) p end proper le (e, s) =
        subst
          (λ tok.
            Gives (term_value symbols mem (read t)) (evaluate symbols mem (suc fuel) (term tok) p.1)
              end)
          (sym e)
          (Gives-bind (term_value symbols mem t) (λ addr. ok (peek_u32 addr mem))
            (evaluate symbols mem fuel (term (next p.1).0) (next p.1).1)
            (λ r. ok (peek_u32 r.0 mem, r.1)) end end
            (term-Gives t fuel (next p.1) end proper (omega (arith, le)) s)
            (λ v cur n. (cur, refl, n)))
    term-Gives (paren t ops) (suc fuel) p end proper le (e, s) =
        let (mid, front, back) =
          Starts-append (term_tokens t) (ops_tokens ops ++ rparen ∷ []) (next p.1) end s in
        let (last, inner, shut) = Starts-append (ops_tokens ops) (rparen ∷ []) mid end back in
        subst
          (λ tok.
            Gives (term_value symbols mem (paren t ops))
              (evaluate symbols mem (suc fuel) (term tok) p.1) end)
          (sym e)
          (Gives-close (term_value symbols mem (paren t ops))
            (head_then symbols mem (evaluate symbols mem fuel) (next p.1).0 (next p.1).1) last end
            shut.0 shut.1
            (Gives-bind (term_value symbols mem t) (λ v. ops_value symbols mem ops v)
              (evaluate symbols mem fuel (term (next p.1).0) (next p.1).1)
              (λ r. evaluate symbols mem fuel (loop r.0) r.1) mid last
              (term-Gives t fuel (next p.1) mid proper.0 (omega (arith, le)) front)
              (λ v cur n.
                ops-Gives ops v fuel cur last proper.1 (omega (arith, le))
                  (subst (λ q. Starts (ops_tokens ops) q last) (sym n) inner)
                  (subst Ends (sym shut.0) tt))))

    ops-Gives :
        (ops : Ops) (acc fuel : ℕ) (cur : Cur) (end : Token × Cur)
        → OpsProper ops
        → ops_size ops ≤ fuel
        → Starts (ops_tokens ops) (next cur) end
        → Ends end.0
        → Gives (ops_value symbols mem ops acc) (evaluate symbols mem fuel (loop acc) cur) end
    ops-Gives ops acc zero cur end proper le s ends = absurd (omega (arith, le, ops_size-pos ops))
    ops-Gives done acc (suc fuel) cur end proper le s ends = (
      (peek cur).1,
      loop_from-Ends (evaluate symbols mem fuel) acc (peek cur).0 (peek cur).1
          (subst Ends (sym (peek-next cur ∙ ap (λ q. q.0) s)) ends),
      next-peek cur ∙ s,
    )
    ops-Gives (op_then op t ops) acc (suc fuel) cur end proper le s ends =
        let (mid, front, back) =
          Starts-append (term_tokens t) (ops_tokens ops) (next (next cur).1) end s.1 in
        let value = ops_value symbols mem (op_then op t ops) acc in
        subst
          (λ tok.
            Gives value (loop_from symbols mem (evaluate symbols mem fuel) acc tok (peek cur).1)
              end)
          (sym (peek-next cur ∙ s.0))
          (rw (is_arithmetic-byte op) (
            subst
              (λ q.
                Gives value (operate symbols mem (evaluate symbols mem fuel) acc (byte op) q.1) end)
              (sym (next-peek cur))
              (Gives-bind (term_value symbols mem t)
                (λ rhs. compute op acc rhs >>= (λ acc'. ops_value symbols mem ops acc'))
                (evaluate symbols mem fuel (term (next (next cur).1).0) (next (next cur).1).1)
                (λ r.
                  apply (byte op) acc r.0 >>= (λ acc'. evaluate symbols mem fuel (loop acc') r.1))
                mid end
                (term-Gives t fuel (next (next cur).1) mid proper.0 (omega (arith, le)) front)
                (λ v c n.
                  subst
                    (λ a.
                      Gives (compute op acc v >>= (λ acc'. ops_value symbols mem ops acc'))
                        (a >>= (λ acc'. evaluate symbols mem fuel (loop acc') c)) end)
                    (sym (apply-byte op acc v))
                    (Gives-pure (compute op acc v) (λ acc'. ops_value symbols mem ops acc')
                      (λ acc'. evaluate symbols mem fuel (loop acc') c) end
                      (λ acc'.
                        ops-Gives ops acc' fuel c end proper.1 (omega (arith, le))
                          (subst (λ q. Starts (ops_tokens ops) q end) (sym n) back) ends))))))

-- Tokens that write an expression, with no constant named `peek` and with a token behind them that
-- is no operator of arithmetic, are evaluated to what the expression means: its value from left to
-- right, with that token to come, or the first error, on fuel as large as the expression.
pub eval_expr-value :
    (symbols : List Symbol) (mem : Memory) (t : Term) (ops : Ops) (fuel : ℕ) (cur : Cur)
    (end : Token × Cur)
    → TermProper t
    → OpsProper ops
    → term_size t + ops_size ops ≤ fuel
    → Starts (term_tokens t ++ ops_tokens ops) (next cur) end
    → Ends end.0
    → Gives
        (term_value symbols mem t >>= (λ v. ops_value symbols mem ops v))
        (eval_expr symbols mem fuel none cur)
        end
unfolding eval_expr head_then
eval_expr-value symbols mem t ops fuel cur end proper proper_ops le s ends =
    let (mid, front, back) = Starts-append (term_tokens t) (ops_tokens ops) (next cur) end s in
    Gives-bind (term_value symbols mem t) (λ v. ops_value symbols mem ops v)
      (evaluate symbols mem fuel (term (next cur).0) (next cur).1)
      (λ r. evaluate symbols mem fuel (loop r.0) r.1) mid end
      (term-Gives symbols mem t fuel (next cur) mid proper (omega (arith, le)) front)
      (λ v c n.
        ops-Gives symbols mem ops v fuel c end proper_ops (omega (arith, le))
          (subst (λ q. Starts (ops_tokens ops) q end) (sym n) back) ends)
