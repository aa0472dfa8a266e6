-- ===== src/Compiler/Native/Value.antt =====
-- src/compiler/native.rs: the machine code of a value program returns the value.
use mathlib.Core.Path.{subst}
use mathlib.Core.List.{append_assoc}
use mathlib.Core.Option.{some-injective}
use hr_os.Prelude.{
  ℕ, ◌+◌, ◌^◌, ◌≤◌, ◌<◌, ◌≡◌, ◌≢◌, refl, ap, sym, ◌∙◌, true, false, Bool-cases, inl, inr, ◌==◌,
  some, List, [], ◌∷◌, ◌++◌, Result, ok, err, arith, length, set, take, replicate,
}
use hr_os.Vm.{Linkage, Primitive, lit_prim, halt_prim, load_reg_prim, write_reg_prim}
use hr_os.Compiler.Emitter.{Emitter, EmitError, push16}
use hr_os.Compiler.Emitter.Thumb2.{emit_mov_imm, emit_ret}
use hr_os.Compiler.Emitter.Bounds.{IsValid}
use hr_os.Compiler.Emitter.Appends.{code, Appends, push16-Appends}
use hr_os.Compiler.Emitter.Moves.{loads, Loads, mov-Loads}
use hr_os.Compiler.Stream.{
  Compiler, StreamProgram, max_stream_words, build_value_program, stream_reset, stream_push_lit,
  stream_halt, stream_push, take_program,
}
use hr_os.Compiler.Stream.Programs.{front_three}
use hr_os.Compiler.Native.{
  N, compile_stream, is_compilable, is_compilable_from, emit_words, emit_then, last,
}

-- The words of two primitives are apart.
apart : (link : Linkage) (p q : Primitive) → p ≢ q → (link.word_of p == link.word_of q) ≡ false
apart link p q ne = elim (Bool-cases (link.word_of p == link.word_of q)) [
  | inr e ↦ e
  | inl e ↦
      let same : link.word_of p ≡ link.word_of q = ground (arith, e) in
      absurd (
        ne (
          some-injective p q
            (sym (link.decode-word_of p) ∙ ap link.decode same ∙ link.decode-word_of q)))
]

word_itself : (link : Linkage) (p : Primitive) → (link.word_of p == link.word_of p) ≡ true
word_itself link p = ground arith

not_null : (link : Linkage) (p : Primitive) → (link.word_of p == 0) ≡ false
not_null link p = ground (arith, link.word_of-ne-zero p)

value_words :
    (link : Linkage) (v : ℕ) (rest : List ℕ)
    → compile_stream link (link.word_of lit_prim ∷ v ∷ link.word_of halt_prim ∷ rest) 3
      ≡ emit_then (emit_mov_imm 0 v) (last emit_ret)
unfolding compile_stream is_compilable is_compilable_from emit_words
value_words link v rest =
    let a = not_null link lit_prim in
    let b = apart link lit_prim halt_prim (λ e. cc) in
    let c = word_itself link lit_prim in
    let d = not_null link halt_prim in
    let f = word_itself link halt_prim in
    let g = apart link halt_prim load_reg_prim (λ e. cc) in
    let h = apart link halt_prim write_reg_prim (λ e. cc) in rw (a, b, c, d, f, g, h) refl

abbrev then_n : N → Emitter × Result EmitError (Unit {0}) → Emitter × Result (Unit {0}) (Unit {0})
then_n n (em, ok _) = n em
then_n n (em, err _) = (em, err tt)

abbrev lowered : Emitter × Result EmitError (Unit {0}) → Emitter × Result (Unit {0}) (Unit {0})
lowered (em, ok _) = (em, ok tt)
lowered (em, err _) = (em, err tt)

-- The code that the emission appends: the moves, then the return.
record Returns (em : Emitter) (v : ℕ) (r : Emitter × Result (Unit {0}) (Unit {0})) : Type 0 where
  moves : List ℕ
  succeeds : r.1 ≡ ok tt
  words : code r.0 ≡ code em ++ (moves ++ 0x4770 ∷ [])
  meaning : loads moves ≡ some (0, v)

ret-Returns :
    (em em' : Emitter) (v : ℕ) (moves : List ℕ) (r : Emitter × Result EmitError (Unit {0}))
    → code em' ≡ code em ++ moves
    → loads moves ≡ some (0, v)
    → Appends em' (0x4770 ∷ []) r
    → Returns em v (lowered r)
ret-Returns em em' v moves (em'', ok _) words m a = record {
  moves = moves;
  succeeds = refl;
  words = a.words ∙ ap (λ t. t ++ 0x4770 ∷ []) words ∙ append_assoc (code em) moves (0x4770 ∷ []);
  meaning = m;
}
ret-Returns em em' v moves (em'', err e) words m a = absurd (let e' = a.succeeds in cc)

mov-Returns :
    (em : Emitter) (v : ℕ) (r : Emitter × Result EmitError (Unit {0}))
    → Loads em 0 v r
    → em.len_words + 5 ≤ em.cap_words
    → Returns em v (then_n (last emit_ret) r)
unfolding emit_ret
mov-Returns em v (em', ok _) l room =
    ret-Returns em em' v l.ws (push16 0x4770 em') l.appends.words l.meaning (
      push16-Appends 0x4770 em' l.appends.valid
        (omega (arith, l.appends.len, l.appends.cap, l.short)))
mov-Returns em v (em', err e) l room = absurd (let e' = l.appends.succeeds in cc)

-- With room for five halfwords, the program that the compiler builds for a value of 32 bits is
-- compiled on ARM to code behind that in the buffer: moves that load the value into r0, the register
-- of results, by the layouts of the ARMv7-M manual, and then the return BX LR.
pub value_program-returns :
    (link : Linkage) (v : ℕ) (c : Compiler) (em : Emitter)
    → length c.stream ≡ max_stream_words
    → v < 2 ^ 32
    → IsValid em
    → em.len_words + 5 ≤ em.cap_words
    → (program : StreamProgram) × ((build_value_program link v c).1 ≡ ok program)
      × (moves : List ℕ) × ((compile_stream link program.words program.len em).1 ≡ ok tt)
      × (code (compile_stream link program.words program.len em).0
          ≡ code em ++ (moves ++ 0x4770 ∷ []))
      × (loads moves ≡ some (0, v))
unfolding build_value_program stream_reset stream_push_lit stream_halt stream_push take_program
value_program-returns link v c em size small valid room =
    let lit = link.word_of lit_prim in
    let halt = link.word_of halt_prim in
    let stream = set (set (set c.stream 0 lit) 1 v) 2 halt in
    let words = front_three c.stream lit v halt (omega (arith, size)) in
    let same : compile_stream link (take 3 stream ++ replicate 125 0) 3 em
        ≡ then_n (last emit_ret) (emit_mov_imm 0 v em) =
      ap (λ ws. compile_stream link (ws ++ replicate 125 0) 3 em) words
      ∙ ap (λ (n : N). n em) (value_words link v (replicate 125 0)) in
    let done = subst (Returns em v) (sym same) (
      mov-Returns em v (emit_mov_imm 0 v em)
        (mov-Loads 0 v em valid (omega arith) small (omega arith)) room) in
    (
      record { words = take 3 stream ++ replicate 125 0; len = 3; yields_value = true },
      refl,
      done.moves,
      done.succeeds,
      done.words,
      done.meaning,
    )
