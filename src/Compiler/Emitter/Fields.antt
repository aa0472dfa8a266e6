-- ===== src/Compiler/Emitter/Fields.antt =====
-- src/compiler/emitter.rs: the fields of the instructions, read back by the layouts of the manuals.
use hr_os.Prelude.{ℕ, ◌+◌, ◌*◌, ◌/◌, ◌%◌, ◌^◌, ◌<◌, ◌≡◌, ap, ap₂, ◌∙◌, inl, inr, ◌⊎◌, arith, bit_or}
use hr_os.Prelude.Bits.{bit_or-field}
use hr_os.Compiler.Emitter.{mov_halves}

-- The register and the immediate of MOVW and MOVT, ARMv7-M: imm4:i:imm3:imm8.
unfoldable pub mov_register : ℕ × ℕ → ℕ
mov_register (hw1, hw2) = hw2 / 2 ^ 8 % 2 ^ 4

unfoldable pub mov_immediate : ℕ × ℕ → ℕ
mov_immediate (hw1, hw2) =
    hw1 % 2 ^ 4 * 2 ^ 12 + hw1 / 2 ^ 10 % 2 * 2 ^ 11 + hw2 / 2 ^ 12 % 2 ^ 3 * 2 ^ 8 + hw2 % 2 ^ 8

-- The first halfword is the opcode with bit 10 and the low four bits.
first_half :
    (opcode i imm4 : ℕ)
    → (opcode ≡ 0xF240) ⊎ (opcode ≡ 0xF2C0)
    → i < 2
    → imm4 < 16
    → bit_or (bit_or opcode (i * 2 ^ 10)) imm4 ≡ opcode + i * 2 ^ 10 + imm4
first_half opcode i imm4 op hi h4 = elim op [
  | inl e ↦ rw e (elim (bit i hi) [
    | inl z ↦ rw z (bit_or-field 4 0xF24 imm4 h4)
    | inr o ↦ rw o (bit_or-field 4 0xF64 imm4 h4)
  ])
  | inr e ↦ rw e (elim (bit i hi) [
    | inl z ↦ rw z (bit_or-field 4 0xF2C imm4 h4)
    | inr o ↦ rw o (bit_or-field 4 0xF6C imm4 h4)
  ])
]
  where
    bit : (i : ℕ) → i < 2 → (i ≡ 0) ⊎ (i ≡ 1)
    bit i h = omega arith

second_half :
    (imm3 rd imm8 : ℕ)
    → rd < 16
    → imm8 < 256
    → bit_or (bit_or (imm3 * 2 ^ 12) (rd * 2 ^ 8)) imm8 ≡ imm3 * 2 ^ 12 + rd * 2 ^ 8 + imm8
second_half imm3 rd imm8 hr h8 =
    ap (λ (n : ℕ). bit_or n imm8)
      (bit_or-field 12 imm3 (rd * 2 ^ 8) (omega arith)
        ∙ (let e : imm3 * 2 ^ 12 + rd * 2 ^ 8 ≡ (imm3 * 2 ^ 4 + rd) * 2 ^ 8 = omega arith in e))
    ∙ bit_or-field 8 (imm3 * 2 ^ 4 + rd) imm8 h8
    ∙ omega arith

abbrev pub MovOpcode : ℕ → Type 0
MovOpcode opcode = (opcode ≡ 0xF240) ⊎ (opcode ≡ 0xF2C0)

pub halves :
    (opcode rd imm : ℕ)
    → MovOpcode opcode
    → mov_halves opcode rd imm ≡ (
      opcode + imm / 2 ^ 11 % 2 * 2 ^ 10 + imm / 2 ^ 12 % 2 ^ 4,
      imm / 2 ^ 8 % 2 ^ 3 * 2 ^ 12 + rd % 2 ^ 4 * 2 ^ 8 + imm % 2 ^ 8,
    )
halves opcode rd imm op =
    ap₂ (λ (a b : ℕ). (a, b))
      (first_half opcode (imm / 2 ^ 11 % 2) (imm / 2 ^ 12 % 2 ^ 4) op (omega arith) (omega arith))
      (second_half (imm / 2 ^ 8 % 2 ^ 3) (rd % 2 ^ 4) (imm % 2 ^ 8) (omega arith) (omega arith))

pub halves-read :
    (opcode rd imm : ℕ)
    → MovOpcode opcode
    → (mov_register (mov_halves opcode rd imm) ≡ rd % 2 ^ 4)
      × (mov_immediate (mov_halves opcode rd imm) ≡ imm % 2 ^ 16)
unfolding mov_register mov_immediate
halves-read opcode rd imm op = (
  ap (λ (hws : ℕ × ℕ). hws.1 / 2 ^ 8 % 2 ^ 4) (halves opcode rd imm op) ∙ omega arith,
  ap mov_immediate (halves opcode rd imm op)
      ∙ elim op [ inl e ↦ omega arith | inr e ↦ omega arith ],
)
