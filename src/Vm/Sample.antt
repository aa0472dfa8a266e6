-- ===== src/Vm/Sample.antt =====
-- src/kernel/exec.rs: a concrete linkage and a machine at boot, for the tests.
use hr_os.Prelude.{
  ℕ, ◌≡◌, ◌≢◌, refl, Option, none, some, [], if◌then◌else◌, arith, length-replicate, replicate,
  ◌==◌,
}
use hr_os.Vm.{
  Vm, Primitive, lit_prim, load_reg_prim, write_reg_prim, add_prim, sub_prim, mul_prim, div_prim,
  halt_prim, Linkage,
}
use hr_os.Vm.Stack.{IsValid}
use hr_os.Vm.Meaning.{Shows}

-- A linkage: the primitives at the addresses 1 to 8.
abbrev pub word : Primitive → ℕ
word lit_prim = 1
word load_reg_prim = 2
word write_reg_prim = 3
word add_prim = 4
word sub_prim = 5
word mul_prim = 6
word div_prim = 7
word halt_prim = 8

abbrev pub decoded : ℕ → Option Primitive
decoded w =
    if w == 1
    then some lit_prim
    else if w == 2
    then some load_reg_prim
    else if w == 3
    then some write_reg_prim
    else if w == 4
    then some add_prim
    else if w == 5
    then some sub_prim
    else if w == 6
    then some mul_prim
    else if w == 7
    then some div_prim
    else if w == 8
    then some halt_prim
    else none

pub decoded-word : (p : Primitive) → decoded (word p) ≡ some p
decoded-word lit_prim = refl
decoded-word _ = refl

pub word-ne-zero : (p : Primitive) → word p ≢ 0
word-ne-zero p = ground arith

abbrev pub link : Linkage
link = record {
  word_of = word;
  decode = decoded;
  decode-word_of = decoded-word;
  word_of-ne-zero = word-ne-zero;
}

abbrev pub fresh : Vm
fresh = record { stack = replicate 64 0; sp = 0; mem = λ _. 0 }

pub fresh-IsValid : IsValid fresh
fresh-IsValid = record { slots = length-replicate {A = ℕ} 64 0; sp_in = omega arith }

pub fresh-Shows : Shows fresh ([], λ _. 0)
fresh-Shows = record { valid = fresh-IsValid; stack = refl; memory = refl }
