-- ===== src/Vm/Meaning.antt =====
-- src/compiler/primitives.rs: the primitives on a list of operands, against the array of the machine.
use hr_os.Prelude.{
  ℕ, suc, ap₂, sym, ltb, lt→ltb, ◌+◌, ◌-◌, ◌*◌, ◌%◌, ◌^◌, ◌<◌, ◌≡◌, ap, ◌∙◌, some, List, [], ◌∷◌,
  ◌++◌, true, arith, length,
}
use hr_os.Memory.{Memory, peek_u32, poke_u32}
use hr_os.Vm.{
  Vm, vm_push, vm_pop, load_reg_prim, write_reg_prim, halt_prim, perform, binary, div_or_zero,
  Linkage, run_threaded_stream,
}
use hr_os.Vm.Stack.{IsValid, operands, vm_push_lem, vm_pop_lem, pop_operand, length-below}
use mathlib.Core.Path.{subst}
use hr_os.Vm.Threaded.{
  assemble, dispatch-assemble, dispatch-halt, Op, push, load, store, add, sub, mul, div, perform_op,
  perform_all,
}

-- What an operation means for a list of operands and the memory.
abbrev pub on_two : (ℕ → ℕ → ℕ) → List ℕ → List ℕ
on_two op (b ∷ a ∷ vs) = op a b ∷ vs
on_two op vs = vs

unfoldable pub meaning : Op → List ℕ × Memory → List ℕ × Memory
meaning (push v) (vs, mem) = (v ∷ vs, mem)
meaning load (a ∷ vs, mem) = (peek_u32 a mem ∷ vs, mem)
meaning store (v ∷ a ∷ vs, mem) = (vs, poke_u32 a v mem)
meaning add (vs, mem) = (on_two (λ a b. (a + b) % 2 ^ 32) vs, mem)
meaning sub (vs, mem) = (on_two (λ a b. (a + 2 ^ 32 - b) % 2 ^ 32) vs, mem)
meaning mul (vs, mem) = (on_two (λ a b. a * b % 2 ^ 32) vs, mem)
meaning div (vs, mem) = (on_two div_or_zero vs, mem)
meaning _ s = s

-- The operations never ask for an operand that is not there, nor for a 65th slot.
abbrev pub Fits : ℕ → List Op → Type 0
Fits n [] = Unit
Fits n (push v ∷ ops) = (n < 64) × Fits (suc n) ops
Fits (suc n) (load ∷ ops) = Fits (suc n) ops
Fits (suc (suc n)) (store ∷ ops) = Fits n ops
Fits (suc (suc n)) (add ∷ ops) = Fits (suc n) ops
Fits (suc (suc n)) (sub ∷ ops) = Fits (suc n) ops
Fits (suc (suc n)) (mul ∷ ops) = Fits (suc n) ops
Fits (suc (suc n)) (div ∷ ops) = Fits (suc n) ops
Fits _ _ = ⊥

pub record Shows (vm : Vm) (s : List ℕ × Memory) : Type 0 where
  pub valid : IsValid vm
  pub stack : operands vm ≡ s.0
  pub memory : vm.mem ≡ s.1

unfoldable pub meaning_all : List Op → List ℕ × Memory → List ℕ × Memory
meaning_all [] s = s
meaning_all (op ∷ ops) s = meaning_all ops (meaning op s)

sp-eq-length : {vm : Vm} {vs : List ℕ} {mem : Memory} → Shows vm (vs, mem) → vm.sp ≡ length vs
sp-eq-length {vm} h = sym (length-below vm.stack vm.sp) ∙ ap length h.stack

Shows-pop :
    {vm : Vm} (v : ℕ) (vs : List ℕ) {mem : Memory}
    → Shows vm (v ∷ vs, mem)
    → Shows (vm_pop vm).0 (vs, mem) × ((vm_pop vm).1 ≡ v)
Shows-pop {vm} v vs h =
    let (left, top, same, valid) = vm_pop_lem h.valid in
    (
      record {
        valid = valid;
        stack = left ∙ ap (λ s. (pop_operand s).0) h.stack;
        memory = same ∙ h.memory;
      },
      top ∙ ap (λ s. (pop_operand s).1) h.stack,
    )

room_below :
    {vm : Vm} {v : ℕ} {vs : List ℕ} {mem : Memory} → Shows vm (v ∷ vs, mem) → length vs < 64
room_below h = omega (arith, sp-eq-length h, h.valid)

room_below_two :
    {vm : Vm} {b a : ℕ} {vs : List ℕ} {mem : Memory} → Shows vm (b ∷ a ∷ vs, mem) → length vs < 64
room_below_two h = omega (arith, sp-eq-length h, h.valid)

Shows-push :
    {vm : Vm} (v : ℕ) {vs : List ℕ} {mem : Memory}
    → Shows vm (vs, mem)
    → length vs < 64
    → Shows (vm_push v vm).0 (v ∷ vs, mem)
Shows-push {vm} v {vs} h room =
    let (done, top, same, valid) = vm_push_lem v h.valid in
    let fits : ltb vm.sp 64 ≡ true = lt→ltb vm.sp 64 (omega (arith, sp-eq-length h)) in
    record {
      valid = valid;
      stack = top ∙ rw (done ∙ fits) (ap (λ s. v ∷ s) h.stack);
      memory = same ∙ h.memory;
    }

Shows-binary :
    (op : ℕ → ℕ → ℕ) {vm : Vm} (b a : ℕ) (vs : List ℕ) {mem : Memory}
    → Shows vm (b ∷ a ∷ vs, mem)
    → length vs < 64
    → Shows (binary op vm) (op a b ∷ vs, mem)
unfolding binary
Shows-binary op {vm} b a vs {mem} h room =
    let (after_b, top) = Shows-pop b (a ∷ vs) h in
    let (after_a, next) = Shows-pop a vs after_b in
    subst (λ r. Shows (binary op vm) (r ∷ vs, mem)) (ap₂ op next top) (Shows-push _ after_a room)

Shows-load :
    {vm : Vm} (addr : ℕ) (vs : List ℕ) {mem : Memory}
    → Shows vm (addr ∷ vs, mem)
    → length vs < 64
    → Shows (perform load_reg_prim vm) (peek_u32 addr mem ∷ vs, mem)
unfolding perform
Shows-load {vm} addr vs {mem} h room =
    let (after, top) = Shows-pop addr vs h in
    subst (λ r. Shows (perform load_reg_prim vm) (r ∷ vs, mem)) (ap₂ peek_u32 top after.memory)
      (Shows-push _ after room)

Shows-store :
    {vm : Vm} (value addr : ℕ) (vs : List ℕ) {mem : Memory}
    → Shows vm (value ∷ addr ∷ vs, mem)
    → Shows (perform write_reg_prim vm) (vs, poke_u32 addr value mem)
unfolding perform
Shows-store {vm} value addr vs h =
    let (after_value, top) = Shows-pop value (addr ∷ vs) h in
    let (after_addr, next) = Shows-pop addr vs after_value in
    rw (top, next)
      (record {
        valid = record { slots = after_addr.valid.slots; sp_in = after_addr.valid.sp_in };
        stack = after_addr.stack;
        memory = ap (poke_u32 addr value) after_addr.memory;
      })

-- One operation, when its operands are there and there is room for its result.
Shows-op :
    (op : Op) (ops : List Op) {vm : Vm} (vs : List ℕ) (mem : Memory)
    → Shows vm (vs, mem)
    → Fits (length vs) (op ∷ ops)
    → Shows (perform_op op vm) (meaning op (vs, mem)) × Fits (length (meaning op (vs, mem)).0) ops
unfolding meaning perform
Shows-op (push v) ops vs mem h f = (Shows-push v h f.0, f.1)
Shows-op load ops [] mem h f = absurd f
Shows-op load ops (a ∷ vs) mem h f = (Shows-load a vs h (room_below h), f)
Shows-op store ops [] mem h f = absurd f
Shows-op store ops (v ∷ []) mem h f = absurd f
Shows-op store ops (v ∷ a ∷ vs) mem h f = (Shows-store v a vs h, f)
Shows-op add ops [] mem h f = absurd f
Shows-op add ops (b ∷ []) mem h f = absurd f
Shows-op add ops (b ∷ a ∷ vs) mem h f = (Shows-binary _ b a vs h (room_below_two h), f)
Shows-op sub ops [] mem h f = absurd f
Shows-op sub ops (b ∷ []) mem h f = absurd f
Shows-op sub ops (b ∷ a ∷ vs) mem h f = (Shows-binary _ b a vs h (room_below_two h), f)
Shows-op mul ops [] mem h f = absurd f
Shows-op mul ops (b ∷ []) mem h f = absurd f
Shows-op mul ops (b ∷ a ∷ vs) mem h f = (Shows-binary _ b a vs h (room_below_two h), f)
Shows-op div ops [] mem h f = absurd f
Shows-op div ops (b ∷ []) mem h f = absurd f
Shows-op div ops (b ∷ a ∷ vs) mem h f = (Shows-binary _ b a vs h (room_below_two h), f)

-- From a machine whose operands and memory are known, performing operations that fit the stack
-- leaves the operands and the memory that their meanings give.
pub Shows-all :
    (ops : List Op) {vm : Vm} (vs : List ℕ) (mem : Memory)
    → Shows vm (vs, mem)
    → Fits (length vs) ops
    → Shows (perform_all ops vm) (meaning_all ops (vs, mem))
unfolding perform_all meaning_all
Shows-all [] vs mem h f = h
Shows-all (op ∷ ops) vs mem h f =
    let (h', f') = Shows-op op ops vs mem h f in
    Shows-all ops (meaning op (vs, mem)).0 (meaning op (vs, mem)).1 h' f'

-- A stream of operations that fit the stack, ended by `halt_prim`, runs without a fault, and
-- leaves the operands and the memory that its meaning gives.
pub run-assemble :
    (link : Linkage) (ops : List Op) (rest : List ℕ) {vm : Vm} (vs : List ℕ) (mem : Memory)
    → Shows vm (vs, mem)
    → Fits (length vs) ops
    → (vm' : Vm) × (run_threaded_stream link (assemble link ops ++ link.word_of halt_prim ∷ rest) vm
        ≡ some vm')
      × Shows vm' (meaning_all ops (vs, mem))
unfolding run_threaded_stream
run-assemble link ops rest {vm} vs mem h f = (
  perform_all ops vm,
  dispatch-assemble link ops (link.word_of halt_prim ∷ rest) vm
      ∙ dispatch-halt link rest (perform_all ops vm),
  Shows-all ops vs mem h f,
)
