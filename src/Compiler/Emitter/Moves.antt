-- ===== src/Compiler/Emitter/Moves.antt =====
-- src/compiler/emitter.rs: the halfwords of `emit_mov_imm` load the immediate.
use mathlib.Core.Path.{subst}
use hr_os.Prelude.{
  length, ℕ, ◌+◌, ◌*◌, ◌/◌, ◌%◌, ◌^◌, ◌≤◌, ◌<◌, ◌≡◌, refl, ap, ap₂, sym, ◌∙◌, inl, inr, Bool, true,
  false, ◌&&◌, ◌||◌, not, Option, none, some, List, [], ◌∷◌, Result, leb, ltb, ◌==◌, if◌then◌else◌,
  arith, bit_or,
}
use hr_os.Prelude.Bits.{bit_or-field}
use hr_os.Compiler.Emitter.{
  EmitError, Emitter, E, ◌>>◌, push16, mov_halves, encode_movw, encode_movt,
}
use hr_os.Compiler.Emitter.Thumb2.{push_pair, emit_mov_imm, done}
use hr_os.Compiler.Emitter.Bounds.{IsValid}
use hr_os.Compiler.Emitter.Fields.{mov_register, mov_immediate, halves, halves-read}
use hr_os.Compiler.Emitter.Appends.{
  Appends, push16-Appends, then-Appends, push_pair-Appends, done-Appends,
}

-- A register of MOVW or MOVT, and its value; ARMv7-M leaves registers 13 and 15 unpredictable.
abbrev pub into : ℕ → ℕ → Option (ℕ × ℕ)
into reg value = if reg == 13 || reg == 15 then none else some (reg, value)

-- What MOVS, MOVW and MOVW with MOVT load: the register, and the value in it. ARMv7-M.
abbrev pub is_mov : ℕ → ℕ × ℕ → Bool
is_mov opcode (hw1, hw2) =
    hw1 / 2 ^ 11 == 0x1E && hw1 / 2 ^ 4 % 2 ^ 6 == opcode && hw2 / 2 ^ 15 == 0

unfoldable pub loads : List ℕ → Option (ℕ × ℕ)
unfolding mov_register mov_immediate
loads (hw ∷ []) = if hw / 2 ^ 11 == 0x4 then some (hw / 2 ^ 8 % 2 ^ 3, hw % 2 ^ 8) else none
loads (a ∷ b ∷ []) =
    if is_mov 0x24 (a, b) then into (mov_register (a, b)) (mov_immediate (a, b)) else none
loads (a ∷ b ∷ c ∷ d ∷ []) =
    if is_mov 0x24 (a, b) && is_mov 0x2C (c, d) && mov_register (a, b) == mov_register (c, d)
    then into (mov_register (a, b)) (mov_immediate (a, b) + mov_immediate (c, d) * 2 ^ 16)
    else none
loads _ = none

is_movw : (rd imm : ℕ) → is_mov 0x24 (mov_halves 0xF240 rd imm) ≡ true
is_movw rd imm = ap (is_mov 0x24) (halves 0xF240 rd imm (inl refl)) ∙ ground arith

is_movt : (rd imm : ℕ) → is_mov 0x2C (mov_halves 0xF2C0 rd imm) ≡ true
is_movt rd imm = ap (is_mov 0x2C) (halves 0xF2C0 rd imm (inr refl)) ∙ ground arith

abbrev movs : ℕ → ℕ → ℕ
movs reg imm = bit_or (bit_or 0x2000 (reg * 2 ^ 8)) (imm % 2 ^ 16 % 2 ^ 8)

movs_fields : (reg imm : ℕ) → reg < 8 → imm ≤ 0xFF → movs reg imm ≡ 0x2000 + reg * 2 ^ 8 + imm
movs_fields reg imm lo hi =
    ap₂ bit_or {x = bit_or 0x2000 (reg * 2 ^ 8)} {y = (32 + reg) * 2 ^ 8}
      (bit_or-field 11 4 (reg * 2 ^ 8) (omega arith) ∙ omega arith)
      (let e : imm % 2 ^ 16 % 2 ^ 8 ≡ imm = omega arith in e)
    ∙ bit_or-field 8 (32 + reg) imm (omega arith)
    ∙ omega arith

loads-movs : (reg imm : ℕ) → reg < 8 → imm ≤ 0xFF → loads (movs reg imm ∷ []) ≡ some (reg, imm)
unfolding loads
loads-movs reg imm lo hi =
    ap (λ (hw : ℕ). loads (hw ∷ [])) (movs_fields reg imm lo hi) ∙ ground arith

loads-encode_movw :
    (reg imm : ℕ)
    → reg ≤ 15
    → imm < 2 ^ 16
    → loads ((encode_movw reg imm).0 ∷ (encode_movw reg imm).1 ∷ []) ≡ into reg imm
unfolding loads encode_movw mov_register mov_immediate
loads-encode_movw reg imm lo hi =
    let hws = mov_halves 0xF240 reg imm in
    let (r, v) = halves-read 0xF240 reg imm (inl refl) in
    ap (λ (b : Bool). if b then into (mov_register hws) (mov_immediate hws) else none)
      (is_movw reg imm)
    ∙ ap₂ into {y = reg} {v = imm} (r ∙ omega arith) (v ∙ omega arith)

loads-encode_movt :
    (reg imm : ℕ)
    → reg ≤ 15
    → imm < 2 ^ 32
    → loads (
        (encode_movw reg imm).0
        ∷ (encode_movw reg imm).1
        ∷ (encode_movt reg imm).0
        ∷ (encode_movt reg imm).1
        ∷ [])
      ≡ into reg imm
unfolding loads encode_movw encode_movt mov_register mov_immediate
loads-encode_movt reg imm lo hi =
    let low = mov_halves 0xF240 reg imm in
    let high = mov_halves 0xF2C0 reg (imm / 2 ^ 16) in
    let (r, v) = halves-read 0xF240 reg imm (inl refl) in
    let (r', v') = halves-read 0xF2C0 reg (imm / 2 ^ 16) (inr refl) in
    let same : (mov_register low == mov_register high) ≡ true = ground (arith, r, r') in
    let all : (is_mov 0x24 low && is_mov 0x2C high && mov_register low == mov_register high)
        ≡ true =
      ap₂ (λ (a b : Bool). a && b && mov_register low == mov_register high) (is_movw reg imm)
        (is_movt reg (imm / 2 ^ 16))
      ∙ same in
    ap
      (λ (b : Bool).
        if b
        then into (mov_register low) (mov_immediate low + mov_immediate high * 2 ^ 16)
        else none)
      all
    ∙ ap₂ into {y = reg} {v = imm} (r ∙ omega arith)
        (ap₂ (λ (a b : ℕ). a + b * 2 ^ 16) v v' ∙ omega arith)

-- What an emission appends loads the value into the register.
pub record Loads (em : Emitter) (reg imm : ℕ) (r : Emitter × Result EmitError (Unit {0}))
    : Type 0 where
  pub ws : List ℕ
  pub appends : Appends em ws r
  pub short : length ws ≤ 4
  pub meaning : loads ws ≡ into reg imm

abbrev wide : ℕ → ℕ → Bool → E
wide reg imm top =
    push_pair (encode_movw reg imm) >> (if top then push_pair (encode_movt reg imm) else done)

wide-Loads :
    (reg imm : ℕ) (em : Emitter) (top : Bool)
    → (not (imm / 2 ^ 16 == 0)) ≡ top
    → IsValid em
    → reg ≤ 15
    → imm < 2 ^ 32
    → em.len_words + 4 ≤ em.cap_words
    → Loads em reg imm (wide reg imm top em)
wide-Loads reg imm em true e v lo hi room = record {
  ws =
      (encode_movw reg imm).0
      ∷ (encode_movw reg imm).1
      ∷ (encode_movt reg imm).0
      ∷ (encode_movt reg imm).1
      ∷ [];
  appends =
      then-Appends em (push_pair (encode_movw reg imm)) (push_pair (encode_movt reg imm))
        ((encode_movw reg imm).0 ∷ (encode_movw reg imm).1 ∷ [])
        ((encode_movt reg imm).0 ∷ (encode_movt reg imm).1 ∷ [])
        (push_pair-Appends (encode_movw reg imm) em v (omega arith))
        (λ em' v' len cap.
          push_pair-Appends (encode_movt reg imm) em' v' (omega (arith, len, cap)));
  short = omega arith;
  meaning = loads-encode_movt reg imm lo hi;
}
wide-Loads reg imm em false e v lo hi room = record {
  ws = (encode_movw reg imm).0 ∷ (encode_movw reg imm).1 ∷ [];
  appends =
      then-Appends em (push_pair (encode_movw reg imm)) done
        ((encode_movw reg imm).0 ∷ (encode_movw reg imm).1 ∷ []) []
        (push_pair-Appends (encode_movw reg imm) em v (omega arith))
        (λ em' v' len cap. done-Appends em' v');
  short = omega arith;
  meaning = loads-encode_movw reg imm lo (ground (arith, e));
}

low_into : (reg imm : ℕ) → reg < 8 → some (reg, imm) ≡ into reg imm
low_into reg imm low = ground arith

abbrev mov_from : ℕ → ℕ → Bool → E
mov_from reg imm narrow =
    if narrow then push16 (movs reg imm) else wide reg imm (not (imm / 2 ^ 16 == 0))

mov_at :
    (reg imm : ℕ) (em : Emitter)
    → reg ≤ 15
    → emit_mov_imm reg imm em ≡ mov_from reg imm (leb imm 0xFF && ltb reg 8) em
unfolding emit_mov_imm
mov_at reg imm em lo = let fine : ltb 15 reg ≡ false = ground arith in rw fine refl

Loads-at :
    (reg imm : ℕ) (em : Emitter) (narrow : Bool)
    → (leb imm 0xFF && ltb reg 8) ≡ narrow
    → IsValid em
    → reg ≤ 15
    → imm < 2 ^ 32
    → em.len_words + 4 ≤ em.cap_words
    → Loads em reg imm (mov_from reg imm narrow em)
Loads-at reg imm em true e v lo hi room = record {
  ws = movs reg imm ∷ [];
  appends = push16-Appends (movs reg imm) em v (omega arith);
  short = omega arith;
  meaning =
      loads-movs reg imm (ground (arith, e)) (ground (arith, e))
      ∙ low_into reg imm (ground (arith, e));
}
Loads-at reg imm em false e v lo hi room =
    wide-Loads reg imm em (not (imm / 2 ^ 16 == 0)) refl v lo hi room

pub mov-Loads :
    (reg imm : ℕ) (em : Emitter)
    → IsValid em
    → reg ≤ 15
    → imm < 2 ^ 32
    → em.len_words + 4 ≤ em.cap_words
    → Loads em reg imm (emit_mov_imm reg imm em)
mov-Loads reg imm em v lo hi room =
    subst (Loads em reg imm) (sym (mov_at reg imm em lo))
      (Loads-at reg imm em (leb imm 0xFF && ltb reg 8) refl v lo hi room)
