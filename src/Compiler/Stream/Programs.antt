-- ===== src/Compiler/Stream/Programs.antt =====
-- src/compiler/parser.rs: the words that the stream takes, and what the programs do when they run.

use hr_os.Prelude.{
  false, ℕ, zero, suc, ◌+◌, ◌≤◌, ◌<◌, ◌≡◌, refl, ap, ◌∙◌, true, some, List, [], ◌∷◌, ◌++◌, ok, leb,
  arith, length, set, take, replicate,
}
use hr_os.Memory.{Memory}
use hr_os.Vm.Threaded.{push, assemble}
use hr_os.Vm.Meaning.{Shows, meaning, meaning_all, run-assemble}
use hr_os.Vm.{Linkage, Vm, lit_prim, halt_prim, run_threaded_stream}
use hr_os.Compiler.Stream.{
  Compiler, StreamProgram, max_stream_words, stream_push, stream_push_lit, stream_reset,
  stream_halt, take_program, build_value_program,
}

-- The words in the stream.
abbrev pub emitted : Compiler → List ℕ
emitted c = take c.stream_len c.stream

pub take-set :
    (xs : List ℕ) (n v : ℕ) → n < length xs → take (n + 1) (set xs n v) ≡ take n xs ++ v ∷ []
take-set [] n v h = absurd (omega arith)
take-set (x ∷ xs) zero v h = refl
take-set (x ∷ xs) (suc n) v h =
    ap (λ k. take k (x ∷ set xs n v)) {x = suc n + 1} {y = suc (n + 1)} (omega arith)
    ∙ ap (λ t. x ∷ t) (take-set xs n v (omega arith))

pub stream_push_at :
    (word : ℕ) (c : Compiler)
    → c.stream_len < max_stream_words
    → stream_push word c
      ≡ (record c { stream = set c.stream c.stream_len word; stream_len = c.stream_len + 1 }, ok tt)
unfolding stream_push
stream_push_at word c room =
    let fits : leb max_stream_words c.stream_len ≡ false = ground arith in rw fits refl

pub front_three :
    (xs : List ℕ) (a b c : ℕ)
    → 3 ≤ length xs
    → take 3 (set (set (set xs 0 a) 1 b) 2 c) ≡ a ∷ b ∷ c ∷ []
front_three [] a b c h = absurd (omega arith)
front_three (x ∷ []) a b c h = absurd (omega arith)
front_three (x ∷ y ∷ []) a b c h = absurd (omega arith)
front_three (x ∷ y ∷ z ∷ xs) a b c h = refl

-- The program that the compiler builds for a value is built whatever is in the stream, and running
-- it leaves the value on the operand stack, above nothing else, and the memory as it was.
pub build_value_program-runs :
    (link : Linkage) (value : ℕ) (c : Compiler) {vm : Vm} (mem : Memory)
    → length c.stream ≡ max_stream_words
    → Shows vm ([], mem)
    → (program : StreamProgram) × (vm' : Vm) × ((build_value_program link value c).1 ≡ ok program)
      × (program.yields_value ≡ true)
      × (run_threaded_stream link program.words vm ≡ some vm')
      × Shows vm' (value ∷ [], mem)
unfolding build_value_program stream_reset stream_push_lit stream_halt stream_push take_program
    assemble meaning_all meaning
build_value_program-runs link value c {vm} mem h shows =
    let words =
      front_three c.stream (link.word_of lit_prim) value (link.word_of halt_prim)
        (omega (arith, h)) in
    let (vm', runs, after) =
      run-assemble link (push value ∷ []) (replicate 125 0) [] mem shows (omega arith, tt) in
    let stream =
      set (set (set c.stream 0 (link.word_of lit_prim)) 1 value) 2 (link.word_of halt_prim) in
    (
      record { words = take 3 stream ++ replicate 125 0; len = 3; yields_value = true },
      vm',
      refl,
      refl,
      ap (λ ws. run_threaded_stream link (ws ++ replicate 125 0) vm) words ∙ runs,
      after,
    )
