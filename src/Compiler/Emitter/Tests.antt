-- ===== src/Compiler/Emitter/Tests.antt =====
-- Instructions on which the theorems about src/compiler/emitter.rs are applied.
use hr_os.Prelude.{◌≤◌, ◌≡◌, refl, [], ◌∷◌, take}
use hr_os.Compiler.Emitter.{mov_imm, store_u32, ret, emit_all, encode_lui, encode_sdiv}
use hr_os.Compiler.Emitter.Thumb2
use hr_os.Compiler.Emitter.Thumb2.{thumb2}
use hr_os.Compiler.Emitter.Riscv32
use hr_os.Compiler.Emitter.Riscv32.{riscv32}
use hr_os.Compiler.Emitter.Bounds.{IsValid, emit_all-IsValid}

emit_all-IsValid_example :
    let arm =
      (emit_all thumb2 (mov_imm 0 7 ∷ store_u32 1 0 ∷ ret ∷ []) Thumb2.into_exec_buffer).0 in
    let riscv =
      (emit_all riscv32 (mov_imm 0 7 ∷ store_u32 1 0 ∷ ret ∷ []) Riscv32.into_exec_buffer).0 in
    IsValid arm
    × (Thumb2.bytes_written arm ≤ 4096)
    × IsValid riscv
    × (Riscv32.bytes_written riscv ≤ 768)
emit_all-IsValid_example = emit_all-IsValid (mov_imm 0 7 ∷ store_u32 1 0 ∷ ret ∷ [])

-- The upper immediate of LUI starts at bit 12: this is `lui a0, 0`.
lui_loses_the_immediate : encode_lui 10 0x20000 ≡ 0x0000_0537
unfolding encode_lui
lui_loses_the_immediate = refl

-- SDIV r0, r0, r1 is 0xFB90 0xF0F1.
sdiv_halves : encode_sdiv 0 0 1 ≡ (0xFB90, 0xF011)
unfolding encode_sdiv
sdiv_halves = refl

-- MULS with the destination as its second operand squares the first.
mul_overwrites :
    take 2 (Thumb2.emit_mul 1 0 1 Thumb2.into_exec_buffer).0.buffer ≡ 0x0001 ∷ 0x4349 ∷ []
unfolding Thumb2.emit_mul
mul_overwrites = refl
