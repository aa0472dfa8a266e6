-- ===== src/Compiler/Emitter/Words.antt =====
-- src/compiler/emitter.rs: the fields of the words of RISC-V, read back by the layouts of the manual.
use mathlib.Core.Path.{subst}
use hr_os.Prelude.{
  ℕ, ◌+◌, ◌*◌, ◌/◌, ◌%◌, ◌^◌, ◌<◌, ◌≡◌, ap, ap₂, sym, ◌∙◌, Bool, true, false, arith, bit_or,
  if◌then◌else◌,
}
use hr_os.Prelude.Bits.{bit_or-field, bit_or_comm, bit_or_right_comm}
use hr_os.Compiler.Emitter.{encode_rtype, encode_rtype_addsub}

-- The fields of a word of type R: opcode, rd, funct3, rs1, rs2 and funct7, from the lowest on.
pub record Fields : Type 0 where
  pub opcode : ℕ
  pub rd : ℕ
  pub funct3 : ℕ
  pub rs1 : ℕ
  pub rs2 : ℕ
  pub funct7 : ℕ

unfoldable pub fields : ℕ → Fields
fields word = record {
  opcode = word % 2 ^ 7;
  rd = word / 2 ^ 7 % 2 ^ 5;
  funct3 = word / 2 ^ 12 % 2 ^ 3;
  rs1 = word / 2 ^ 15 % 2 ^ 5;
  rs2 = word / 2 ^ 20 % 2 ^ 5;
  funct7 = word / 2 ^ 25 % 2 ^ 7;
}

-- The opcode comes first in the or, and is the lowest field.
opcode_last :
    (a b c d e f : ℕ)
    → bit_or (bit_or (bit_or (bit_or (bit_or a b) c) d) e) f
      ≡ bit_or (bit_or (bit_or (bit_or (bit_or b c) d) e) f) a
opcode_last a b c d e f =
    ap (λ (t : ℕ). bit_or (bit_or (bit_or (bit_or t c) d) e) f) (bit_or_comm a b)
    ∙ ap (λ (t : ℕ). bit_or (bit_or (bit_or t d) e) f) (bit_or_right_comm b a c)
    ∙ ap (λ (t : ℕ). bit_or (bit_or t e) f) (bit_or_right_comm (bit_or b c) a d)
    ∙ ap (λ (t : ℕ). bit_or t f) (bit_or_right_comm (bit_or (bit_or b c) d) a e)
    ∙ bit_or_right_comm (bit_or (bit_or (bit_or b c) d) e) a f

rtype_sum :
    (rd rs1 rs2 funct7 funct3 : ℕ)
    → rd < 2 ^ 5
    → rs1 < 2 ^ 5
    → rs2 < 2 ^ 5
    → funct3 < 2 ^ 3
    → bit_or
        (bit_or
          (bit_or (bit_or (bit_or 0x33 (funct7 * 2 ^ 25)) (rs2 * 2 ^ 20)) (rs1 * 2 ^ 15))
          (funct3 * 2 ^ 12))
        (rd * 2 ^ 7)
      ≡ 0x33 + rd * 2 ^ 7 + funct3 * 2 ^ 12 + rs1 * 2 ^ 15 + rs2 * 2 ^ 20 + funct7 * 2 ^ 25
rtype_sum rd rs1 rs2 funct7 funct3 hd h1 h2 h3 =
    opcode_last 0x33 (funct7 * 2 ^ 25) (rs2 * 2 ^ 20) (rs1 * 2 ^ 15) (funct3 * 2 ^ 12) (rd * 2 ^ 7)
    ∙ ap
        (λ (t : ℕ).
          bit_or (bit_or (bit_or (bit_or t (rs1 * 2 ^ 15)) (funct3 * 2 ^ 12)) (rd * 2 ^ 7)) 0x33)
        (bit_or-field 25 funct7 (rs2 * 2 ^ 20) (omega arith)
          ∙ (let e : funct7 * 2 ^ 25 + rs2 * 2 ^ 20 ≡ (funct7 * 2 ^ 5 + rs2) * 2 ^ 20 =
                omega arith in
              e))
    ∙ ap (λ (t : ℕ). bit_or (bit_or (bit_or t (funct3 * 2 ^ 12)) (rd * 2 ^ 7)) 0x33)
        (bit_or-field 20 (funct7 * 2 ^ 5 + rs2) (rs1 * 2 ^ 15) (omega arith)
          ∙ (let e : (funct7 * 2 ^ 5 + rs2) * 2 ^ 20 + rs1 * 2 ^ 15
                  ≡ ((funct7 * 2 ^ 5 + rs2) * 2 ^ 5 + rs1) * 2 ^ 15 =
                omega arith in
              e))
    ∙ ap (λ (t : ℕ). bit_or (bit_or t (rd * 2 ^ 7)) 0x33)
        (bit_or-field 15 ((funct7 * 2 ^ 5 + rs2) * 2 ^ 5 + rs1) (funct3 * 2 ^ 12) (omega arith)
          ∙ (let e : ((funct7 * 2 ^ 5 + rs2) * 2 ^ 5 + rs1) * 2 ^ 15 + funct3 * 2 ^ 12
                  ≡ (((funct7 * 2 ^ 5 + rs2) * 2 ^ 5 + rs1) * 2 ^ 3 + funct3) * 2 ^ 12 =
                omega arith in
              e))
    ∙ ap (λ (t : ℕ). bit_or t 0x33)
        (bit_or-field 12 (((funct7 * 2 ^ 5 + rs2) * 2 ^ 5 + rs1) * 2 ^ 3 + funct3) (rd * 2 ^ 7)
            (omega arith)
          ∙ (let e : (((funct7 * 2 ^ 5 + rs2) * 2 ^ 5 + rs1) * 2 ^ 3 + funct3) * 2 ^ 12 + rd * 2 ^ 7
                  ≡ ((((funct7 * 2 ^ 5 + rs2) * 2 ^ 5 + rs1) * 2 ^ 3 + funct3) * 2 ^ 5 + rd)
                    * 2 ^ 7 =
                omega arith in
              e))
    ∙ bit_or-field 7 ((((funct7 * 2 ^ 5 + rs2) * 2 ^ 5 + rs1) * 2 ^ 3 + funct3) * 2 ^ 5 + rd) 0x33
        (omega arith)
    ∙ omega arith

no_wrap :
    (rd rs1 rs2 funct7 funct3 : ℕ)
    → funct7 < 2 ^ 7
    → funct3 < 2 ^ 3
    → encode_rtype rd rs1 rs2 funct7 funct3
      ≡ bit_or
          (bit_or
            (bit_or
              (bit_or (bit_or 0x33 (funct7 * 2 ^ 25)) (rs2 % 2 ^ 5 * 2 ^ 20))
              (rs1 % 2 ^ 5 * 2 ^ 15))
            (funct3 * 2 ^ 12))
          (rd % 2 ^ 5 * 2 ^ 7)
unfolding encode_rtype
no_wrap rd rs1 rs2 funct7 funct3 h7 h3 =
    ap₂
      (λ (f g : ℕ).
        bit_or
          (bit_or (bit_or (bit_or (bit_or 0x33 f) (rs2 % 2 ^ 5 * 2 ^ 20)) (rs1 % 2 ^ 5 * 2 ^ 15)) g)
          (rd % 2 ^ 5 * 2 ^ 7))
      {x = funct7 * 2 ^ 25 % 2 ^ 32} {y = funct7 * 2 ^ 25} (omega arith)
      (let e : funct3 * 2 ^ 12 % 2 ^ 32 ≡ funct3 * 2 ^ 12 = omega arith in e)

bit_or_zero : (a : ℕ) → bit_or a 0 ≡ a
bit_or_zero a =
    ap (λ (t : ℕ). bit_or t 0) {x = a} {y = a * 2 ^ 0} (omega arith)
    ∙ bit_or-field 0 a 0 (omega arith)
    ∙ omega arith

addsub_rtype :
    (rd rs1 rs2 : ℕ) (minus : Bool)
    → encode_rtype_addsub rd rs1 rs2 minus ≡ encode_rtype rd rs1 rs2 (if minus then 0x20 else 0) 0
unfolding encode_rtype encode_rtype_addsub
addsub_rtype rd rs1 rs2 true = ap (λ (t : ℕ). bit_or t (rd % 2 ^ 5 * 2 ^ 7)) (sym (bit_or_zero _))
addsub_rtype rd rs1 rs2 false = ap (λ (t : ℕ). bit_or t (rd % 2 ^ 5 * 2 ^ 7)) (sym (bit_or_zero _))

-- The fields are those given.
abbrev pub Reads : ℕ → ℕ → ℕ → ℕ → ℕ → ℕ → Type 0
Reads word rd rs1 rs2 funct7 funct3 =
    ((fields word).opcode ≡ 0x33)
    × ((fields word).rd ≡ rd)
    × ((fields word).funct3 ≡ funct3)
    × ((fields word).rs1 ≡ rs1)
    × ((fields word).rs2 ≡ rs2)
    × ((fields word).funct7 ≡ funct7)

sum-Reads :
    (rd rs1 rs2 funct7 funct3 : ℕ)
    → rd < 2 ^ 5
    → rs1 < 2 ^ 5
    → rs2 < 2 ^ 5
    → funct3 < 2 ^ 3
    → funct7 < 2 ^ 7
    → Reads
        (0x33 + rd * 2 ^ 7 + funct3 * 2 ^ 12 + rs1 * 2 ^ 15 + rs2 * 2 ^ 20 + funct7 * 2 ^ 25)
        rd
        rs1
        rs2
        funct7
        funct3
unfolding fields
sum-Reads rd rs1 rs2 funct7 funct3 hd h1 h2 h3 h7 =
    (omega arith, omega arith, omega arith, omega arith, omega arith, omega arith)

rtype-Reads :
    (rd rs1 rs2 funct7 funct3 : ℕ)
    → funct7 < 2 ^ 7
    → funct3 < 2 ^ 3
    → Reads
        (encode_rtype rd rs1 rs2 funct7 funct3)
        (rd % 2 ^ 5)
        (rs1 % 2 ^ 5)
        (rs2 % 2 ^ 5)
        funct7
        funct3
rtype-Reads rd rs1 rs2 funct7 funct3 h7 h3 =
    subst (λ w. Reads w (rd % 2 ^ 5) (rs1 % 2 ^ 5) (rs2 % 2 ^ 5) funct7 funct3)
      (sym (
        no_wrap rd rs1 rs2 funct7 funct3 h7 h3
        ∙ rtype_sum (rd % 2 ^ 5) (rs1 % 2 ^ 5) (rs2 % 2 ^ 5) funct7 funct3 (omega arith)
            (omega arith) (omega arith) h3))
      (sum-Reads (rd % 2 ^ 5) (rs1 % 2 ^ 5) (rs2 % 2 ^ 5) funct7 funct3 (omega arith) (omega arith)
        (omega arith) h3 h7)

-- The word of an R-type instruction has the opcode 0x33, the low five bits of each register, and
-- the function codes, each at the place that the RISC-V manual gives it, for a `funct7` of seven
-- bits and a `funct3` of three; and the word of an addition or a subtraction has the same fields,
-- with `funct3` 0 and `funct7` 0 or 0x20.
pub encode_rtype-Reads :
    (rd rs1 rs2 funct7 funct3 : ℕ) (minus : Bool)
    → funct7 < 2 ^ 7
    → funct3 < 2 ^ 3
    → Reads
        (encode_rtype rd rs1 rs2 funct7 funct3)
        (rd % 2 ^ 5)
        (rs1 % 2 ^ 5)
        (rs2 % 2 ^ 5)
        funct7
        funct3
      × Reads
          (encode_rtype_addsub rd rs1 rs2 minus)
          (rd % 2 ^ 5)
          (rs1 % 2 ^ 5)
          (rs2 % 2 ^ 5)
          (if minus then 0x20 else 0)
          0
encode_rtype-Reads rd rs1 rs2 funct7 funct3 minus h7 h3 =
    let code : ℕ = if minus then 0x20 else 0 in
    let small : code < 2 ^ 7 = ground arith in
    (
      rtype-Reads rd rs1 rs2 funct7 funct3 h7 h3,
      subst (λ w. Reads w (rd % 2 ^ 5) (rs1 % 2 ^ 5) (rs2 % 2 ^ 5) code 0)
          (sym (addsub_rtype rd rs1 rs2 minus)) (rtype-Reads rd rs1 rs2 code 0 small (omega arith)),
    )
