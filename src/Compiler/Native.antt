-- ===== src/Compiler/Native.antt =====
-- src/compiler/native.rs: the machine code for a stream of words, on ARM. The emitted code is what
-- `compile_and_run` leaves in the buffer when it jumps there.
pub mod Value
mod Tests
use hr_os.Prelude.{
  ℕ, ◌+◌, Bool, true, false, ◌||◌, ◌&&◌, List, [], ◌∷◌, Result, ok, err, ◌==◌, if◌then◌else◌, take,
}
use hr_os.Vm.{
  Linkage, lit_prim, load_reg_prim, write_reg_prim, add_prim, sub_prim, mul_prim, div_prim,
  halt_prim,
}
use hr_os.Compiler.Emitter.{Emitter, E}
use hr_os.Compiler.Emitter.Thumb2.{
  emit_mov_imm, emit_add, emit_sub, emit_mul, emit_div, emit_load_u32, emit_store_u32, emit_ret,
}

abbrev pub acc_reg : ℕ
acc_reg = 0

abbrev pub scratch_reg : ℕ
scratch_reg = 1

-- `Err(())` sends the stream to the virtual machine.
abbrev pub N : Type 0
N = Emitter → Emitter × Result (Unit {0}) (Unit {0})

abbrev pub give_up : N
give_up em = (em, err tt)

-- `em.emit(..).map_err(|_| ())?`, and what follows.
abbrev pub emit_then : E → N → N
emit_then m n em = let (em', r) = m em in elim r [ ok _ ↦ n em' | err _ ↦ (em', err tt) ]

abbrev pub last : E → N
last m em = let (em', r) = m em in elim r [ ok _ ↦ (em', ok tt) | err _ ↦ (em', err tt) ]

abbrev pub first_word : List ℕ → ℕ
first_word [] = 0
first_word (w ∷ ws) = w

module _ (link : Linkage) where
  -- The register of a literal goes by the word that follows it.
  abbrev pub addr_context : ℕ → Bool
  addr_context next = next == link.word_of load_reg_prim || next == link.word_of write_reg_prim

  abbrev pub literal_reg : Bool → ℕ → ℕ
  literal_reg acc_loaded next =
      if addr_context next then scratch_reg else if acc_loaded then scratch_reg else acc_reg

  abbrev pub loaded_after : Bool → ℕ → Bool
  loaded_after acc_loaded next = if addr_context next then acc_loaded else true

  -- The operation of a word that takes no argument.
  unfoldable pub emit_word : ℕ → (Bool → N) → Bool → N
  unfolding emit_add emit_sub emit_mul emit_div emit_load_u32 emit_store_u32
  emit_word word next acc_loaded =
      if word == link.word_of add_prim
      then emit_then (emit_add acc_reg acc_reg scratch_reg) (next true)
      else if word == link.word_of sub_prim
      then emit_then (emit_sub acc_reg acc_reg scratch_reg) (next true)
      else if word == link.word_of mul_prim
      then emit_then (emit_mul acc_reg acc_reg scratch_reg) (next true)
      else if word == link.word_of div_prim
      then emit_then (emit_div acc_reg acc_reg scratch_reg) (next true)
      else if word == link.word_of load_reg_prim
      then emit_then (emit_load_u32 acc_reg scratch_reg) (next true)
      else if word == link.word_of write_reg_prim
      then emit_then (emit_store_u32 scratch_reg acc_reg) (next acc_loaded)
      else give_up

  -- The loop, on the words from `ip` on.
  unfoldable pub emit_words : List ℕ → Bool → N
  unfolding emit_word emit_ret emit_mov_imm
  emit_words [] acc_loaded = last emit_ret
  emit_words (word ∷ []) acc_loaded =
      if word == 0 || word == link.word_of halt_prim
      then last emit_ret
      else if word == link.word_of lit_prim
      then give_up
      else emit_word word (λ loaded. last emit_ret) acc_loaded
  emit_words (word ∷ val ∷ rest) acc_loaded =
      if word == 0 || word == link.word_of halt_prim
      then last emit_ret
      else if word == link.word_of lit_prim
      then emit_then (emit_mov_imm (literal_reg acc_loaded (first_word rest)) val)
          (emit_words rest (loaded_after acc_loaded (first_word rest)))
      else emit_word word (λ loaded. emit_words (val ∷ rest) loaded) acc_loaded

  abbrev pub operation : ℕ → Bool
  operation w =
      w == link.word_of add_prim
      || w == link.word_of sub_prim
      || w == link.word_of mul_prim
      || w == link.word_of div_prim
      || w == link.word_of load_reg_prim
      || w == link.word_of write_reg_prim

  unfoldable pub is_compilable_from : List ℕ → Bool → Bool
  is_compilable_from [] lit_seen = lit_seen
  is_compilable_from (w ∷ []) lit_seen =
      w == 0 || w == link.word_of halt_prim || w == link.word_of lit_prim || operation w
  is_compilable_from (w ∷ arg ∷ rest) lit_seen =
      if w == 0 || w == link.word_of halt_prim
      then true
      else if w == link.word_of lit_prim
      then is_compilable_from rest true
      else if operation w
      then is_compilable_from (arg ∷ rest) true
      else false

  unfoldable pub is_compilable : List ℕ → ℕ → Bool
  unfolding is_compilable_from
  is_compilable stream len = is_compilable_from (take len stream) false

  -- Up to the jump to the buffer.
  unfoldable pub compile_stream : List ℕ → ℕ → N
  unfolding is_compilable emit_words
  compile_stream stream len =
      if is_compilable stream len then emit_words (take len stream) false else give_up
