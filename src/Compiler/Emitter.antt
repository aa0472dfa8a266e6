-- ===== src/Compiler/Emitter.antt =====
-- src/compiler/emitter.rs: the encodings of instructions, and the buffer that the emitters write.
-- A mask of the low bits is a remainder. The buffer is a list of units, halfwords or words.
pub mod Thumb2
pub mod Riscv32
pub mod Bounds
pub mod Fields
pub mod Appends
pub mod Moves
pub mod Words
mod Tests
use hr_os.Prelude.{
  ℕ, zero, suc, ◌+◌, ◌-◌, ◌*◌, ◌/◌, ◌%◌, ◌^◌, Bool, ◌||◌, ◌&&◌, not, Option, none, some, List, [],
  ◌∷◌, Result, ok, err, ltb, leb, ◌==◌, if◌then◌else◌, bit_or, set,
}

pub data EmitError : Type 0 where
  overflow bad_register : EmitError

-- The methods of `TargetEmitter` that emit, with their arguments.
pub data Call : Type 0 where
  mov_imm store_u32 load_u32 cap_guard_scalar cap_guard_vector cap_guard_custom : ℕ → ℕ → Call
  add sub mul div : ℕ → ℕ → ℕ → Call
  mov_ret : ℕ → Call
  ret : Call

-- `EXEC_BUFFER` from the emitter's side: `cursor` is the place of the next unit.
pub record Emitter : Type 0 where
  pub buffer : List ℕ
  pub cursor : ℕ
  pub cap_words : ℕ
  pub len_words : ℕ

-- `&mut self` and a result; `?` stops at the first error, and what was written stays.
abbrev pub E : Type 0
E = Emitter → Emitter × Result EmitError (Unit {0})

infixl 5 ◌>>◌
abbrev pub ◌>>◌ : E → E → E
(m >> n) em = let (em', r) = m em in elim r [ ok _ ↦ n em' | err e ↦ (em', err e) ]

abbrev pub refuse : EmitError → E
refuse e em = (em, err e)

-- The calls in order; the first that fails is the last.
unfoldable pub emit_all : (Call → E) → List Call → E
emit_all emit [] = λ em. (em, ok tt)
emit_all emit (call ∷ calls) = emit call >> emit_all emit calls

-- `write_volatile(self.cursor, unit); self.cursor = self.cursor.add(1); self.len_words += 1`
unfoldable pub write_unit : ℕ → Emitter → Emitter
write_unit unit em = record em {
  buffer = set em.buffer em.cursor unit;
  cursor = em.cursor + 1;
  len_words = em.len_words + 1;
}

unfoldable pub push16 : ℕ → E
unfolding write_unit
push16 hw em =
    if leb em.cap_words em.len_words then (em, err overflow) else (write_unit hw em, ok tt)

unfoldable pub push32 : ℕ → E
unfolding write_unit
push32 word em =
    if leb em.cap_words em.len_words then (em, err overflow) else (write_unit word em, ok tt)

-- An encoding that may refuse its registers.
abbrev pub encoded : (ℕ → E) → Option ℕ → E
encoded push (some unit) = push unit
encoded push none = refuse bad_register

-- The halfwords of MOVW and MOVT, which differ in the first's opcode.
abbrev pub mov_halves : ℕ → ℕ → ℕ → ℕ × ℕ
mov_halves opcode rd imm =
    let imm4 = imm / 2 ^ 12 % 2 ^ 4 in
    let i = imm / 2 ^ 11 % 2 in
    let imm3 = imm / 2 ^ 8 % 2 ^ 3 in
    let imm8 = imm % 2 ^ 8 in
    (
      bit_or (bit_or opcode (i * 2 ^ 10)) imm4,
      bit_or (bit_or (imm3 * 2 ^ 12) (rd % 2 ^ 4 * 2 ^ 8)) imm8,
    )

unfoldable pub encode_movw : ℕ → ℕ → ℕ × ℕ
encode_movw rd imm = mov_halves 0xF240 rd imm

unfoldable pub encode_movt : ℕ → ℕ → ℕ × ℕ
encode_movt rd imm = mov_halves 0xF2C0 rd (imm / 2 ^ 16)

abbrev pub bad_offset : ℕ → ℕ → ℕ → Bool
bad_offset rt rn byte_offset =
    ltb 7 rt || ltb 7 rn || ltb 124 byte_offset || not (byte_offset % 4 == 0)

unfoldable pub encode_str_imm : ℕ → ℕ → ℕ → Option ℕ
encode_str_imm rt rn byte_offset =
    if bad_offset rt rn byte_offset
    then none
    else some (bit_or (bit_or (bit_or 0x6000 (byte_offset / 4 * 2 ^ 6)) (rn * 2 ^ 3)) rt)

unfoldable pub encode_ldr_imm : ℕ → ℕ → ℕ → Option ℕ
encode_ldr_imm rt rn byte_offset =
    if bad_offset rt rn byte_offset
    then none
    else some (bit_or (bit_or (bit_or 0x6800 (byte_offset / 4 * 2 ^ 6)) (rn * 2 ^ 3)) rt)

unfoldable pub encode_sdiv : ℕ → ℕ → ℕ → ℕ × ℕ
encode_sdiv rd rn rm = (bit_or 0xFB90 rn, bit_or (bit_or 0xF010 (rd * 2 ^ 8)) rm)

-- A shift of a `u32` to the left drops what passes bit 31.
unfoldable pub encode_lui : ℕ → ℕ → ℕ
encode_lui rd imm20 = bit_or (bit_or 0x37 (rd % 2 ^ 5 * 2 ^ 7)) (imm20 % 2 ^ 20 * 2 ^ 20 % 2 ^ 32)

unfoldable pub encode_addi : ℕ → ℕ → ℕ → ℕ
encode_addi rd rs1 imm12_field =
    bit_or (bit_or (bit_or 0x13 (rd % 2 ^ 5 * 2 ^ 7)) (rs1 % 2 ^ 5 * 2 ^ 15))
      (imm12_field % 2 ^ 12 * 2 ^ 20)

-- `(0x800..0xFFFFF000).contains(&offset)`
abbrev pub out_of_reach : ℕ → Bool
out_of_reach offset = leb 0x800 offset && ltb offset 0xFFFF_F000

unfoldable pub encode_sw : ℕ → ℕ → ℕ → Option ℕ
encode_sw rs2 rs1 offset =
    let off = offset % 2 ^ 12 in
    if out_of_reach offset
    then none
    else some (
        bit_or
          (bit_or
            (bit_or (bit_or (bit_or 0x23 (2 * 2 ^ 12)) (off / 2 ^ 5 * 2 ^ 25))
              (rs2 % 2 ^ 5 * 2 ^ 20))
            (rs1 % 2 ^ 5 * 2 ^ 15))
          (off % 2 ^ 5 * 2 ^ 7))

unfoldable pub encode_lw : ℕ → ℕ → ℕ → Option ℕ
encode_lw rd rs1 offset =
    if out_of_reach offset
    then none
    else some (
        bit_or
          (bit_or (bit_or (bit_or 0x03 (2 * 2 ^ 12)) (rd % 2 ^ 5 * 2 ^ 7)) (rs1 % 2 ^ 5 * 2 ^ 15))
          (offset % 2 ^ 12 * 2 ^ 20))

unfoldable pub encode_rtype_addsub : ℕ → ℕ → ℕ → Bool → ℕ
encode_rtype_addsub rd rs1 rs2 minus =
    let funct7 = if minus then 0x20 else 0x00 in
    bit_or
      (bit_or (bit_or (bit_or 0x33 (funct7 * 2 ^ 25)) (rs2 % 2 ^ 5 * 2 ^ 20))
        (rs1 % 2 ^ 5 * 2 ^ 15))
      (rd % 2 ^ 5 * 2 ^ 7)

abbrev pub rv32_ret : ℕ
rv32_ret = 0x0000_8067

unfoldable pub encode_rtype : ℕ → ℕ → ℕ → ℕ → ℕ → ℕ
encode_rtype rd rs1 rs2 funct7 funct3 =
    bit_or
      (bit_or
        (bit_or (bit_or (bit_or 0x33 (funct7 * 2 ^ 25 % 2 ^ 32)) (rs2 % 2 ^ 5 * 2 ^ 20))
          (rs1 % 2 ^ 5 * 2 ^ 15))
        (funct3 * 2 ^ 12 % 2 ^ 32))
      (rd % 2 ^ 5 * 2 ^ 7)
