-- ===== src/Compiler/Emitter/Thumb2.antt =====
-- src/compiler/emitter.rs: `TargetEmitter` for `Thumb2Emitter`.
use hr_os.Prelude.{
  ℕ, ◌+◌, ◌-◌, ◌*◌, ◌/◌, ◌%◌, ◌^◌, Bool, ◌||◌, ◌&&◌, not, replicate, ok, ltb, leb, ◌==◌,
  if◌then◌else◌, bit_or,
}
use hr_os.Compiler.Emitter.{
  Call, mov_imm, store_u32, load_u32, cap_guard_scalar, cap_guard_vector, cap_guard_custom, add,
  sub, mul, div, mov_ret, ret, bad_register, Emitter, E, ◌>>◌, refuse, push16, encoded, encode_movw,
  encode_movt, encode_str_imm, encode_ldr_imm, encode_sdiv,
}

-- The buffer of 4096 bytes.
abbrev pub into_exec_buffer : Emitter
into_exec_buffer = record { buffer = replicate 2048 0; cursor = 0; cap_words = 2048; len_words = 0 }

unfoldable pub push_pair : ℕ × ℕ → E
unfolding push16
push_pair (hw1, hw2) = push16 hw1 >> push16 hw2

abbrev pub done : E
done em = (em, ok tt)

unfoldable pub emit_mov_imm : ℕ → ℕ → E
unfolding push16 push_pair encode_movw encode_movt
emit_mov_imm reg imm =
    if ltb 15 reg
    then refuse bad_register
    else if leb imm 0xFF && ltb reg 8
    then push16 (bit_or (bit_or 0x2000 (reg * 2 ^ 8)) (imm % 2 ^ 16 % 2 ^ 8))
    else push_pair (encode_movw reg imm)
      >> (if not (imm / 2 ^ 16 == 0) then push_pair (encode_movt reg imm) else done)

unfoldable pub emit_store_u32 : ℕ → ℕ → E
unfolding push16 encode_str_imm
emit_store_u32 src_reg addr_reg = encoded push16 (encode_str_imm src_reg addr_reg 0)

unfoldable pub emit_load_u32 : ℕ → ℕ → E
unfolding push16 encode_ldr_imm
emit_load_u32 dst_reg addr_reg = encoded push16 (encode_ldr_imm dst_reg addr_reg 0)

abbrev pub high_register : ℕ → ℕ → ℕ → Bool
high_register dst a b = ltb 7 dst || ltb 7 a || ltb 7 b

unfoldable pub emit_add : ℕ → ℕ → ℕ → E
unfolding push16
emit_add dst a b =
    if high_register dst a b
    then refuse bad_register
    else push16 (bit_or (bit_or (bit_or 0x1800 (b * 2 ^ 6)) (a * 2 ^ 3)) dst)

unfoldable pub emit_sub : ℕ → ℕ → ℕ → E
unfolding push16
emit_sub dst a b =
    if high_register dst a b
    then refuse bad_register
    else push16 (bit_or (bit_or (bit_or 0x1A00 (b * 2 ^ 6)) (a * 2 ^ 3)) dst)

unfoldable pub emit_mul : ℕ → ℕ → ℕ → E
unfolding push16
emit_mul dst a b =
    if high_register dst a b
    then refuse bad_register
    else (if not (a == dst) then push16 (bit_or (a * 2 ^ 3) dst) else done)
      >> push16 (bit_or (bit_or 0x4340 (b * 2 ^ 3)) dst)

unfoldable pub emit_div : ℕ → ℕ → ℕ → E
unfolding push_pair encode_sdiv
emit_div dst a b =
    if ltb 15 dst || ltb 15 a || ltb 15 b
    then refuse bad_register
    else push_pair (encode_sdiv dst a b)

unfoldable pub emit_ret : E
unfolding push16
emit_ret = push16 0x4770

unfoldable pub emit_mov_ret : ℕ → E
unfolding emit_mov_imm emit_ret
emit_mov_ret imm = emit_mov_imm 0 imm >> emit_ret

unfoldable pub bytes_written : Emitter → ℕ
bytes_written em = em.len_words * 2

unfoldable pub emit_cap_guard_scalar : ℕ → ℕ → E
unfolding push16
emit_cap_guard_scalar addr_reg tmp_reg = push16 0xF3AF >> (push16 0xF8D0 >> push16 0xEC10)

-- `len - 1` wraps for a length of 0.
unfoldable pub emit_cap_guard_vector : ℕ → ℕ → E
unfolding push16
emit_cap_guard_vector addr_reg len =
    if ltb 7 addr_reg || ltb 16 len
    then refuse bad_register
    else push16
        (bit_or (bit_or 0xDE00 (addr_reg % 2 ^ 4 * 2 ^ 4)) ((len + 2 ^ 32 - 1) % 2 ^ 32 % 2 ^ 4))

unfoldable pub emit_cap_guard_custom : ℕ → ℕ → E
unfolding push16
emit_cap_guard_custom addr_reg cap_reg =
    if ltb 7 addr_reg || ltb 7 cap_reg
    then refuse bad_register
    else push16 (bit_or (bit_or 0xDE00 (cap_reg % 2 ^ 4 * 2 ^ 4)) (addr_reg % 2 ^ 4))

unfoldable pub thumb2 : Call → E
unfolding emit_mov_imm emit_store_u32 emit_load_u32 emit_cap_guard_scalar emit_cap_guard_vector
    emit_cap_guard_custom emit_add emit_sub emit_mul emit_div emit_mov_ret emit_ret
thumb2 (mov_imm x y) = emit_mov_imm x y
thumb2 (store_u32 x y) = emit_store_u32 x y
thumb2 (load_u32 x y) = emit_load_u32 x y
thumb2 (cap_guard_scalar x y) = emit_cap_guard_scalar x y
thumb2 (cap_guard_vector x y) = emit_cap_guard_vector x y
thumb2 (cap_guard_custom x y) = emit_cap_guard_custom x y
thumb2 (add dst a b) = emit_add dst a b
thumb2 (sub dst a b) = emit_sub dst a b
thumb2 (mul dst a b) = emit_mul dst a b
thumb2 (div dst a b) = emit_div dst a b
thumb2 (mov_ret imm) = emit_mov_ret imm
thumb2 ret = emit_ret
