-- ===== src/Compiler/Emitter/Riscv32.antt =====
-- src/compiler/emitter.rs: `TargetEmitter` for `Riscv32Emitter`.
use hr_os.Prelude.{
  ℕ, ◌+◌, ◌-◌, ◌*◌, ◌/◌, ◌%◌, ◌^◌, false, true, ◌||◌, not, replicate, ok, ltb, leb, ◌==◌,
  if◌then◌else◌, bit_or,
}
use hr_os.Compiler.Emitter.{
  Call, mov_imm, store_u32, load_u32, cap_guard_scalar, cap_guard_vector, cap_guard_custom, add,
  sub, mul, div, mov_ret, ret, overflow, Emitter, E, ◌>>◌, refuse, push32, encoded, encode_lui,
  encode_addi, encode_sw, encode_lw, encode_rtype_addsub, encode_rtype, rv32_ret,
}

-- The buffer of 768 bytes.
abbrev pub into_exec_buffer : Emitter
into_exec_buffer = record { buffer = replicate 192 0; cursor = 0; cap_words = 192; len_words = 0 }

abbrev pub done : E
done em = (em, ok tt)

abbrev pub hi20 : ℕ → ℕ
hi20 imm = (imm + 0x800) % 2 ^ 32 / 2 ^ 12

abbrev pub lo12 : ℕ → ℕ
lo12 imm = (imm + 2 ^ 32 - hi20 imm * 2 ^ 12 % 2 ^ 32) % 2 ^ 32

unfoldable pub emit_mov_imm : ℕ → ℕ → E
unfolding push32 encode_addi encode_lui
emit_mov_imm reg imm =
    if leb imm 0x7FF || leb 0xFFFF_F800 imm
    then push32 (encode_addi reg 0 imm)
    else push32 (encode_lui reg (hi20 imm))
      >> (if not (lo12 imm == 0) then push32 (encode_addi reg reg (lo12 imm)) else done)

unfoldable pub emit_store_u32 : ℕ → ℕ → E
unfolding push32 encode_sw
emit_store_u32 src_reg addr_reg = encoded push32 (encode_sw src_reg addr_reg 0)

unfoldable pub emit_load_u32 : ℕ → ℕ → E
unfolding push32 encode_lw
emit_load_u32 dst_reg addr_reg = encoded push32 (encode_lw dst_reg addr_reg 0)

unfoldable pub emit_add : ℕ → ℕ → ℕ → E
unfolding push32 encode_rtype_addsub
emit_add dst a b = push32 (encode_rtype_addsub dst a b false)

unfoldable pub emit_sub : ℕ → ℕ → ℕ → E
unfolding push32 encode_rtype_addsub
emit_sub dst a b = push32 (encode_rtype_addsub dst a b true)

unfoldable pub emit_mul : ℕ → ℕ → ℕ → E
unfolding push32 encode_rtype
emit_mul dst a b = push32 (encode_rtype dst a b 0x01 0x00)

unfoldable pub emit_div : ℕ → ℕ → ℕ → E
unfolding push32 encode_rtype
emit_div dst a b = push32 (encode_rtype dst a b 0x01 0x04)

unfoldable pub emit_ret : E
unfolding push32
emit_ret = push32 rv32_ret

unfoldable pub emit_mov_ret : ℕ → E
unfolding emit_mov_imm emit_ret
emit_mov_ret imm = emit_mov_imm 10 imm >> emit_ret

unfoldable pub bytes_written : Emitter → ℕ
bytes_written em = em.len_words * 4

unfoldable pub emit_cap_guard_scalar : ℕ → ℕ → E
unfolding push32
emit_cap_guard_scalar addr_reg tmp_reg =
    push32 0x00C5_5133 >> (push32 0x03F5_5033 >> push32 0x0005_8063)

unfoldable pub emit_cap_guard_vector : ℕ → ℕ → E
unfolding push32
emit_cap_guard_vector addr_reg len =
    if ltb 256 len then refuse overflow else push32 (bit_or 0xF3AF_8000 (len % 2 ^ 8))

unfoldable pub emit_cap_guard_custom : ℕ → ℕ → E
unfolding push32
emit_cap_guard_custom addr_reg cap_reg = push32 (
    bit_or
      (bit_or
        (bit_or (bit_or (0x01 * 2 ^ 25) (cap_reg % 2 ^ 5 * 2 ^ 20)) (addr_reg % 2 ^ 5 * 2 ^ 15))
        (0x00 * 2 ^ 12))
      0x0B)

unfoldable pub riscv32 : Call → E
unfolding emit_mov_imm emit_store_u32 emit_load_u32 emit_cap_guard_scalar emit_cap_guard_vector
    emit_cap_guard_custom emit_add emit_sub emit_mul emit_div emit_mov_ret emit_ret
riscv32 (mov_imm x y) = emit_mov_imm x y
riscv32 (store_u32 x y) = emit_store_u32 x y
riscv32 (load_u32 x y) = emit_load_u32 x y
riscv32 (cap_guard_scalar x y) = emit_cap_guard_scalar x y
riscv32 (cap_guard_vector x y) = emit_cap_guard_vector x y
riscv32 (cap_guard_custom x y) = emit_cap_guard_custom x y
riscv32 (add dst a b) = emit_add dst a b
riscv32 (sub dst a b) = emit_sub dst a b
riscv32 (mul dst a b) = emit_mul dst a b
riscv32 (div dst a b) = emit_div dst a b
riscv32 (mov_ret imm) = emit_mov_ret imm
riscv32 ret = emit_ret
