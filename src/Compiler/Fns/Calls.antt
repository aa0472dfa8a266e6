-- ===== src/Compiler/Fns/Calls.antt =====
-- src/compiler/parser.rs: the program of a call has the words of the function.

use mathlib.Core.Option.{none-ne-some, some-injective}
use mathlib.Core.List.{append_assoc, append-nil}
use hr_os.Prelude.{
  ◌&&◌, ap₂, inl, inr, ℕ, zero, suc, ◌+◌, ◌-◌, ◌≤◌, ◌<◌, ◌≡◌, refl, ap, sym, ◌∙◌, false, Bool-cases,
  Option, none, some, Option-cases, List, [], ◌∷◌, ◌++◌, Result, ok, err, ltb, if◌then◌else◌, arith,
  length, get_or, set, take, drop, replicate, length-set, length-take,
}
use hr_os.Vm.{Linkage, halt_prim}
use hr_os.Compiler.Names.{ParseError, unknown_symbol, eq_bytes}
use hr_os.Compiler.Stream.{
  Compiler, StreamProgram, max_fns, max_stream_words, fn_body_words, stream_reset, stream_halt,
  take_program,
}
use hr_os.Compiler.Stream.Programs.{emitted, stream_push_at, take-set}
use hr_os.Compiler.Fns.Table.{find-some, export_at, exported_from}
use hr_os.Compiler.Fns.{
  name_at, fn_allocated, find_fn, export_fn, push_body, push_fn, need_fn, build_call_program,
}

pub drop-cons : (xs : List ℕ) (n : ℕ) → n < length xs → drop n xs ≡ get_or xs n 0 ∷ drop (n + 1) xs
drop-cons [] n h = absurd (omega arith)
drop-cons (x ∷ xs) zero h = refl
drop-cons (x ∷ xs) (suc n) h =
    drop-cons xs n (omega arith)
    ∙ ap (λ k. get_or xs n 0 ∷ drop k (x ∷ xs)) {x = suc (n + 1)} {y = suc n + 1} (omega arith)

-- The stream after the words of a body are pushed.
record Pushed (c : Compiler) (words : List ℕ) (left : ℕ)
    (r : Compiler × Result ParseError (Unit {0})) : Type 0 where
  stream : List ℕ
  outcome : r ≡ (record c { stream = stream; stream_len = c.stream_len + left }, ok tt)
  size : length stream ≡ max_stream_words
  content : take (c.stream_len + left) stream ≡ emitted c ++ words

abbrev pushed : ℕ → Compiler → Compiler
pushed word c = record c { stream = set c.stream c.stream_len word; stream_len = c.stream_len + 1 }

abbrev then_body :
    ℕ
    → ℕ
    → List ℕ
    → Compiler × Result ParseError (Unit {0})
    → Compiler × Result ParseError (Unit {0})
then_body left w body a = elim a.1 [ ok _ ↦ push_body left w body a.0 | err e ↦ (a.0, err e) ]

push_body-Pushed :
    (left w : ℕ) (body : List ℕ) (c : Compiler)
    → length c.stream ≡ max_stream_words
    → c.stream_len + left ≤ max_stream_words
    → w + left ≤ length body
    → Pushed c (take left (drop w body)) left (push_body left w body c)
unfolding push_body
push_body-Pushed zero w body c size fits inside = record {
  stream = c.stream;
  outcome =
      ap (λ k. (record c { stream_len = k }, ok tt)) {x = c.stream_len} {y = c.stream_len + 0}
        (omega arith);
  size = size;
  content =
      ap (λ k. take k c.stream) {x = c.stream_len + 0} {y = c.stream_len} (omega arith)
      ∙ sym (append-nil (emitted c));
}
push_body-Pushed (suc left) w body c size fits inside =
    let x = get_or body w 0 in
    let more =
      push_body-Pushed left (w + 1) body (pushed x c) (length-set c.stream c.stream_len x ∙ size)
        (omega arith) (omega arith) in
    record {
      stream = more.stream;
      outcome =
          ap (then_body left (w + 1) body) (stream_push_at x c (omega arith))
          ∙ more.outcome
          ∙ ap (λ k. (record c { stream = more.stream; stream_len = k }, ok tt))
              {x = c.stream_len + 1 + left} {y = c.stream_len + suc left} (omega arith);
      size = more.size;
      content =
          ap (λ k. take k more.stream) {x = c.stream_len + suc left} {y = c.stream_len + 1 + left}
            (omega arith)
          ∙ more.content
          ∙ ap (λ t. t ++ take left (drop (w + 1) body))
              (take-set c.stream c.stream_len x (omega arith))
          ∙ append_assoc (emitted c) (x ∷ []) (take left (drop (w + 1) body))
          ∙ ap (λ t. emitted c ++ take (suc left) t) (sym (drop-cons body w (omega arith)));
    }

abbrev pub need_from : Compiler → Option ℕ → Compiler × Result ParseError ℕ
need_from c (some i) = (c, ok i)
need_from c none = (c, err unknown_symbol)

pub need_at :
    (name : List ℕ) (c : Compiler) (i : ℕ) → find_fn name c ≡ some i → need_fn name c ≡ (c, ok i)
unfolding need_fn
need_at name c i h = ap (need_from c) h

module _ (link : Linkage) where
  abbrev and_take :
      Compiler × Result ParseError (Unit {0}) → Compiler × Result ParseError StreamProgram
  and_take a = elim a.1 [ ok _ ↦ take_program false a.0 | err e ↦ (a.0, err e) ]

  abbrev and_halt :
      Compiler × Result ParseError (Unit {0}) → Compiler × Result ParseError StreamProgram
  and_halt a = elim a.1 [ ok _ ↦ and_take (stream_halt link a.0) | err e ↦ (a.0, err e) ]

  abbrev and_body : Compiler × Result ParseError ℕ → Compiler × Result ParseError StreamProgram
  and_body a = elim a.1 [ ok i ↦ and_halt (push_fn i (stream_reset a.0).0) | err e ↦ (a.0, err e) ]

  call_steps :
      (name : List ℕ) (c : Compiler) → build_call_program link name c ≡ and_body (need_fn name c)
  unfolding build_call_program stream_reset
  call_steps name c = refl

  -- The program of a call of function `i`.
  pub call_at :
      (name : List ℕ) (c : Compiler) (i : ℕ)
      → find_fn name c ≡ some i
      → length c.stream ≡ max_stream_words
      → get_or c.fn_body_lens i 0 ≤ fn_body_words
      → length (get_or c.fn_bodies i []) ≡ fn_body_words
      → (program : StreamProgram) × ((build_call_program link name c).1 ≡ ok program)
        × (program.words
            ≡ take (get_or c.fn_body_lens i 0) (get_or c.fn_bodies i [])
              ++ link.word_of halt_prim ∷ replicate (127 - get_or c.fn_body_lens i 0) 0)
        × (program.yields_value ≡ false)
  unfolding need_fn push_fn stream_reset stream_halt take_program
  call_at name c i h size short long =
      let len = get_or c.fn_body_lens i 0 in
      let body = get_or c.fn_bodies i [] in
      let start = record c { stream_len = 0 } in
      let all =
        push_body-Pushed len 0 body start size (omega (arith, short))
          (omega (arith, short, long)) in
      let halt = link.word_of halt_prim in
      let finished = record start { stream = all.stream; stream_len = 0 + len } in
      let words = take (0 + len + 1) (set all.stream (0 + len) halt) in
      (
        record {
          words = words ++ replicate (max_stream_words - (0 + len + 1)) 0;
          len = 0 + len + 1;
          yields_value = false;
        },
        ap (λ a. a.1)
            (call_steps name c
              ∙ ap and_body (need_at name c i h)
              ∙ ap and_halt all.outcome
              ∙ ap and_take (stream_push_at halt finished (omega (arith, short)))),
        ap (λ n. words ++ replicate n 0) {x = max_stream_words - (0 + len + 1)} {y = 127 - len}
              (omega arith)
            ∙ ap (λ t. t ++ replicate (127 - len) 0)
                (take-set all.stream (0 + len) halt (omega (arith, short, all.size)))
            ∙ ap (λ t. t ++ halt ∷ [] ++ replicate (127 - len) 0) all.content
            ∙ append_assoc (take len body) (halt ∷ []) (replicate (127 - len) 0),
        refl,
      )

-- With the buffers at their sizes, a call of a function that can be read back compiles, whatever is
-- in the stream, to the words read back, then `halt_prim`, then zeros.
pub call-export :
    (link : Linkage) (name words : List ℕ) (c : Compiler)
    → length c.stream ≡ max_stream_words
    → ((i : ℕ) → i < max_fns → length (get_or c.fn_bodies i []) ≡ fn_body_words)
    → export_fn name fn_body_words c ≡ some words
    → (program : StreamProgram) × ((build_call_program link name c).1 ≡ ok program)
      × (program.words ≡ words ++ link.word_of halt_prim ∷ replicate (127 - length words) 0)
      × (program.yields_value ≡ false)
unfolding export_fn find_fn
call-export link name words c size long out = elim (Option-cases (find_fn name c)) [
  | inl e ↦ absurd (none-ne-some words (sym (ap (exported_from c fn_body_words) e) ∙ out))
  | inr (i, e) ↦
      let len = get_or c.fn_body_lens i 0 in
      let body = get_or c.fn_bodies i [] in
      let big = long i (find-some (λ j. fn_allocated c j && eq_bytes (name_at c j) name) i e).0 in
      elim (Bool-cases (ltb fn_body_words len)) [
        | inl large ↦ absurd (
            none-ne-some words (
              ap (λ b. if b then none else some (take len body)) (sym large)
              ∙ sym (export_at c name fn_body_words i e)
              ∙ out))
        | inr fits ↦
            let short : len ≤ fn_body_words = ground (arith, fits) in
            let same : take len body ≡ words = some-injective (take len body) words (
              ap (λ b. if b then none else some (take len body)) (sym fits)
              ∙ sym (export_at c name fn_body_words i e)
              ∙ out) in
            let count : len ≡ length words =
              omega (arith, short, big, length-take len body, ap length same) in
            let (program, built, holds, plain) = call_at link name c i e size short big in
            (
              program,
              built,
              holds ∙ ap₂ (λ ws n. ws ++ link.word_of halt_prim ∷ replicate (127 - n) 0) same count,
              plain,
            )
      ]
]
