-- ===== src/Vm.antt =====
-- src/kernel/exec.rs and src/compiler/primitives.rs: the operand stack and the threaded dispatch.
-- A word of a stream is a primitive's address, which the linker chooses: `Linkage` is a parameter.
pub mod Stack
pub mod Threaded
pub mod Meaning
pub mod Sample
mod Tests
use hr_os.Prelude.{
  ℕ, ◌+◌, ◌-◌, ◌*◌, ◌/◌, ◌%◌, ◌^◌, ◌≢◌, ◌≡◌, Bool, true, false, Option, none, some, List, [], ◌∷◌,
  ◌==◌, leb, if◌then◌else◌, get_or, set,
}
use hr_os.Memory.{Memory, peek_u32, poke_u32}

abbrev pub vm_stack_size : ℕ
vm_stack_size = 64

-- `VM_STACK` and `VM_SP`, and the memory that the primitives reach.
pub record Vm : Type 0 where
  pub stack : List ℕ
  pub sp : ℕ
  pub mem : Memory

-- A push on the full stack is dropped.
unfoldable pub vm_push : ℕ → Vm → Vm × Bool
vm_push value vm =
    if leb vm_stack_size vm.sp
    then (vm, false)
    else (record vm { stack = set vm.stack vm.sp value; sp = vm.sp + 1 }, true)

-- A pop of the empty stack gives 0.
unfoldable pub vm_pop : Vm → Vm × ℕ
vm_pop vm =
    if vm.sp == 0 then (vm, 0) else (record vm { sp = vm.sp - 1 }, get_or vm.stack (vm.sp - 1) 0)

unfoldable pub vm_reset : Vm → Vm
vm_reset vm = record vm { sp = 0 }

unfoldable pub vm_depth : Vm → ℕ
vm_depth vm = vm.sp

pub data Primitive : Type 0 where
  lit_prim load_reg_prim write_reg_prim add_prim sub_prim mul_prim div_prim halt_prim : Primitive

-- Pop b, pop a, push the result. A `usize` has 32 bits on both targets.
unfoldable pub binary : (ℕ → ℕ → ℕ) → Vm → Vm
binary op vm = let (vm₁, b) = vm_pop vm in let (vm₂, a) = vm_pop vm₁ in (vm_push (op a b) vm₂).0

-- `checked_div(b).unwrap_or(0)`.
abbrev pub div_or_zero : ℕ → ℕ → ℕ
div_or_zero a b = if b == 0 then 0 else a / b

-- What a primitive with no inline argument does.
unfoldable pub perform : Primitive → Vm → Vm
perform load_reg_prim vm = let (vm₁, addr) = vm_pop vm in (vm_push (peek_u32 addr vm₁.mem) vm₁).0
perform write_reg_prim vm =
    let (vm₁, value) = vm_pop vm in
    let (vm₂, addr) = vm_pop vm₁ in record vm₂ { mem = poke_u32 addr value vm₂.mem }
perform add_prim vm = binary (λ a b. (a + b) % 2 ^ 32) vm
perform sub_prim vm = binary (λ a b. (a + 2 ^ 32 - b) % 2 ^ 32) vm
perform mul_prim vm = binary (λ a b. a * b % 2 ^ 32) vm
perform div_prim vm = binary div_or_zero vm
perform _ vm = vm

-- The addresses of the primitives: distinct, and none is null.
pub record Linkage : Type 0 where
  pub word_of : Primitive → ℕ
  pub decode : ℕ → Option Primitive
  pub decode-word_of : (p : Primitive) → decode (word_of p) ≡ some p
  pub word_of-ne-zero : (p : Primitive) → word_of p ≢ 0

-- The word to come is an opcode, or the inline argument of a literal.
pub data Fetch : Type 0 where
  opcode argument : Fetch

-- The loop of `run_threaded_stream` on the words from the instruction pointer on. `none` is
-- undefined behaviour: a word that is no primitive is called, or the array is left.
unfoldable pub dispatch : Linkage → Fetch → List ℕ → Vm → Option Vm
dispatch link fetch [] vm = none
dispatch link argument (value ∷ rest) vm = dispatch link opcode rest (vm_push value vm).0
dispatch link opcode (word ∷ rest) vm = if word == 0 then some vm else elim (link.decode word) [
  | some lit_prim ↦ dispatch link argument rest vm
  | some halt_prim ↦ some vm
  | some prim ↦ dispatch link opcode rest (perform prim vm)
  | none ↦ none
]

unfoldable pub run_threaded_stream : Linkage → List ℕ → Vm → Option Vm
run_threaded_stream link stream vm = dispatch link opcode stream vm
