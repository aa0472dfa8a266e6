-- ===== src/Compiler/Emitter/Bounds.antt =====
-- src/compiler/emitter.rs: an emitter writes inside its buffer only.
use hr_os.Prelude.{
  ℕ, ◌≤◌, ◌<◌, ◌≡◌, refl, ◌∙◌, inl, inr, Bool, true, false, Bool-cases, Option, some, none, List,
  [], ◌∷◌, Result, ok, err, leb, ltb, not, ◌&&◌, ◌||◌, ◌==◌, ◌/◌, ◌^◌, if◌then◌else◌, arith, length,
  length-set,
}
use hr_os.Compiler.Emitter.{
  Call, mov_imm, store_u32, load_u32, cap_guard_scalar, cap_guard_vector, cap_guard_custom, add,
  sub, mul, div, mov_ret, ret, emit_all, rv32_ret, encode_movw, encode_movt, encode_sdiv, overflow,
  bad_register, EmitError, Emitter, E, ◌>>◌, refuse, write_unit, push16, push32, encoded,
  encode_str_imm, encode_ldr_imm, encode_sw, encode_lw,
}
use hr_os.Compiler.Emitter.Thumb2
use hr_os.Compiler.Emitter.Thumb2.{thumb2}
use hr_os.Compiler.Emitter.Riscv32
use hr_os.Compiler.Emitter.Riscv32.{riscv32}

-- The cursor is as far as the units counted, in a buffer of the capacity.
pub record IsValid (em : Emitter) : Type 0 where
  pub size : length em.buffer ≡ em.cap_words
  pub lockstep : em.cursor ≡ em.len_words
  pub fits : em.len_words ≤ em.cap_words

-- What an emission does to a valid emitter: it stays valid, and what was written is kept.
pub record Emitted (em em' : Emitter) : Type 0 where
  pub valid : IsValid em'
  pub cap : em'.cap_words ≡ em.cap_words
  pub grows : em.len_words ≤ em'.len_words

pub record Emits (m : E) : Type 0 where
  pub emitted : (em : Emitter) → IsValid em → Emitted em (m em).0

same-Emitted : (em : Emitter) → IsValid em → Emitted em em
same-Emitted em v = record { valid = v; cap = refl; grows = omega arith }

abbrev pub next_call :
    E → Emitter × Result EmitError (Unit {0}) → Emitter × Result EmitError (Unit {0})
next_call n (em, ok _) = n em
next_call n (em, err e) = (em, err e)

then_result :
    (em : Emitter) (r : Emitter × Result EmitError (Unit {0})) (n : E)
    → Emitted em r.0
    → Emits n
    → Emitted em (next_call n r).0
then_result em (em', ok _) n a k =
    let b = k.emitted em' a.valid in
    record { valid = b.valid; cap = b.cap ∙ a.cap; grows = omega (arith, a.grows, b.grows) }
then_result em (em', err e) n a k = a

then-Emits : {m n : E} → Emits m → Emits n → Emits (m >> n)
then-Emits {m} {n} a b = record { emitted = λ em v. then_result em (m em) n (a.emitted em v) b }

refuse-Emits : (e : EmitError) → Emits (refuse e)
refuse-Emits e = record { emitted = λ em v. same-Emitted em v }

if-Emits : (b : Bool) {m n : E} → Emits m → Emits n → Emits (if b then m else n)
if-Emits true a k = a
if-Emits false a k = k

write_unit-Emitted :
    (unit : ℕ) (em : Emitter)
    → IsValid em
    → em.len_words < em.cap_words
    → Emitted em (write_unit unit em)
unfolding write_unit
write_unit-Emitted unit em v lt = record {
  valid = record {
    size = length-set em.buffer em.cursor unit ∙ v.size;
    lockstep = omega (arith, v.lockstep);
    fits = omega arith;
  };
  cap = refl;
  grows = omega arith;
}

push16-Emits : (hw : ℕ) → Emits (push16 hw)
unfolding push16
push16-Emits hw = record {
  emitted = λ em v. elim (Bool-cases (leb em.cap_words em.len_words)) [
    | inl e ↦ rw e (same-Emitted em v)
    | inr e ↦ rw e (write_unit-Emitted hw em v (ground (arith, e)))
  ];
}

push32-Emits : (word : ℕ) → Emits (push32 word)
unfolding push32
push32-Emits word = record {
  emitted = λ em v. elim (Bool-cases (leb em.cap_words em.len_words)) [
    | inl e ↦ rw e (same-Emitted em v)
    | inr e ↦ rw e (write_unit-Emitted word em v (ground (arith, e)))
  ];
}

encoded-Emits :
    (push : ℕ → E) (unit : Option ℕ) → ((u : ℕ) → Emits (push u)) → Emits (encoded push unit)
encoded-Emits push (some u) k = k u
encoded-Emits push none k = refuse-Emits bad_register

done-Emits : Emits (λ em. (em, ok tt))
done-Emits = record { emitted = λ em v. same-Emitted em v }

push_pair-Emits : (hws : ℕ × ℕ) → Emits (Thumb2.push_pair hws)
unfolding Thumb2.push_pair
push_pair-Emits (hw1, hw2) = then-Emits (push16-Emits hw1) (push16-Emits hw2)

thumb2_mov : (reg imm : ℕ) → Emits (Thumb2.emit_mov_imm reg imm)
unfolding Thumb2.emit_mov_imm
thumb2_mov reg imm = if-Emits (ltb 15 reg) (refuse-Emits bad_register) (
    if-Emits (leb imm 0xFF && ltb reg 8) (push16-Emits _) (
      then-Emits (push_pair-Emits (encode_movw reg imm))
        (if-Emits (not (imm / 2 ^ 16 == 0)) (push_pair-Emits (encode_movt reg imm)) done-Emits)))

thumb2-Emits : (call : Call) → Emits (thumb2 call)
unfolding thumb2 Thumb2.emit_store_u32 Thumb2.emit_load_u32 Thumb2.emit_add Thumb2.emit_sub
    Thumb2.emit_mul Thumb2.emit_div Thumb2.emit_ret Thumb2.emit_mov_ret Thumb2.emit_cap_guard_scalar
    Thumb2.emit_cap_guard_vector Thumb2.emit_cap_guard_custom
thumb2-Emits (mov_imm reg imm) = thumb2_mov reg imm
thumb2-Emits (store_u32 src addr) = encoded-Emits push16 (encode_str_imm src addr 0) push16-Emits
thumb2-Emits (load_u32 dst addr) = encoded-Emits push16 (encode_ldr_imm dst addr 0) push16-Emits
thumb2-Emits (add dst a b) =
    if-Emits (Thumb2.high_register dst a b) (refuse-Emits bad_register) (push16-Emits _)
thumb2-Emits (sub dst a b) =
    if-Emits (Thumb2.high_register dst a b) (refuse-Emits bad_register) (push16-Emits _)
thumb2-Emits (mul dst a b) =
    if-Emits (Thumb2.high_register dst a b) (refuse-Emits bad_register)
      (then-Emits (if-Emits (not (a == dst)) (push16-Emits _) done-Emits) (push16-Emits _))
thumb2-Emits (div dst a b) =
    if-Emits (ltb 15 dst || ltb 15 a || ltb 15 b) (refuse-Emits bad_register)
      (push_pair-Emits (encode_sdiv dst a b))
thumb2-Emits (mov_ret imm) = then-Emits (thumb2_mov 0 imm) (push16-Emits 0x4770)
thumb2-Emits ret = push16-Emits 0x4770
thumb2-Emits (cap_guard_scalar a t) =
    then-Emits (push16-Emits 0xF3AF) (then-Emits (push16-Emits 0xF8D0) (push16-Emits 0xEC10))
thumb2-Emits (cap_guard_vector a len) =
    if-Emits (ltb 7 a || ltb 16 len) (refuse-Emits bad_register) (push16-Emits _)
thumb2-Emits (cap_guard_custom a cap) =
    if-Emits (ltb 7 a || ltb 7 cap) (refuse-Emits bad_register) (push16-Emits _)

riscv32_mov : (reg imm : ℕ) → Emits (Riscv32.emit_mov_imm reg imm)
unfolding Riscv32.emit_mov_imm
riscv32_mov reg imm = if-Emits (leb imm 0x7FF || leb 0xFFFF_F800 imm) (push32-Emits _) (
    then-Emits (push32-Emits _)
      (if-Emits (not (Riscv32.lo12 imm == 0)) (push32-Emits _) done-Emits))

riscv32-Emits : (call : Call) → Emits (riscv32 call)
unfolding riscv32 Riscv32.emit_store_u32 Riscv32.emit_load_u32 Riscv32.emit_add Riscv32.emit_sub
    Riscv32.emit_mul Riscv32.emit_div Riscv32.emit_ret Riscv32.emit_mov_ret
    Riscv32.emit_cap_guard_scalar Riscv32.emit_cap_guard_vector Riscv32.emit_cap_guard_custom
riscv32-Emits (mov_imm reg imm) = riscv32_mov reg imm
riscv32-Emits (store_u32 src addr) = encoded-Emits push32 (encode_sw src addr 0) push32-Emits
riscv32-Emits (load_u32 dst addr) = encoded-Emits push32 (encode_lw dst addr 0) push32-Emits
riscv32-Emits (add dst a b) = push32-Emits _
riscv32-Emits (sub dst a b) = push32-Emits _
riscv32-Emits (mul dst a b) = push32-Emits _
riscv32-Emits (div dst a b) = push32-Emits _
riscv32-Emits (mov_ret imm) = then-Emits (riscv32_mov 10 imm) (push32-Emits rv32_ret)
riscv32-Emits ret = push32-Emits rv32_ret
riscv32-Emits (cap_guard_scalar a t) =
    then-Emits (push32-Emits 0x00C5_5133)
      (then-Emits (push32-Emits 0x03F5_5033) (push32-Emits 0x0005_8063))
riscv32-Emits (cap_guard_vector a len) =
    if-Emits (ltb 256 len) (refuse-Emits overflow) (push32-Emits _)
riscv32-Emits (cap_guard_custom a cap) = push32-Emits _

emit_all-Emits :
    (emit : Call → E) (calls : List Call)
    → ((call : Call) → Emits (emit call))
    → Emits (emit_all emit calls)
unfolding emit_all
emit_all-Emits emit [] k = done-Emits
emit_all-Emits emit (call ∷ calls) k = then-Emits (k call) (emit_all-Emits emit calls k)

-- Whatever the calls, and whether they fail or not, either emitter keeps its cursor at the units
-- counted and within its buffer, so that it has written at most 4096 bytes on ARM and 768 on RISC-V.
pub emit_all-IsValid :
    (calls : List Call)
    → let arm = (emit_all thumb2 calls Thumb2.into_exec_buffer).0 in
      let riscv = (emit_all riscv32 calls Riscv32.into_exec_buffer).0 in
      IsValid arm
      × (Thumb2.bytes_written arm ≤ 4096)
      × IsValid riscv
      × (Riscv32.bytes_written riscv ≤ 768)
unfolding Thumb2.bytes_written Riscv32.bytes_written
emit_all-IsValid calls =
    let arm =
      (emit_all-Emits thumb2 calls thumb2-Emits).emitted Thumb2.into_exec_buffer
        (record { size = refl; lockstep = refl; fits = omega arith }) in
    let riscv =
      (emit_all-Emits riscv32 calls riscv32-Emits).emitted Riscv32.into_exec_buffer
        (record { size = refl; lockstep = refl; fits = omega arith }) in
    (
      arm.valid,
      omega (arith, arm.valid, arm.cap),
      riscv.valid,
      omega (arith, riscv.valid, riscv.cap),
    )
