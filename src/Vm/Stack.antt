-- ===== src/Vm/Stack.antt =====
-- src/kernel/exec.rs: the array and its pointer, as a list of operands.
use hr_os.Prelude.{
  ℕ, zero, suc, ◌+◌, ◌-◌, ◌≤◌, ◌<◌, ◌≡◌, ◌≢◌, refl, ap, ap₂, ◌∙◌, List, [], ◌∷◌, ltb, if◌then◌else◌,
  arith, length, get_or, set, length-set, get_or-set_self, get_or-set_ne,
}
use hr_os.Vm.{Vm, vm_stack_size, vm_push, vm_pop}

pub record IsValid (vm : Vm) : Type 0 where
  pub slots : length vm.stack ≡ vm_stack_size
  pub sp_in : vm.sp ≤ vm_stack_size

-- The operands, the top first.
abbrev pub below : List ℕ → ℕ → List ℕ
below stack zero = []
below stack (suc n) = get_or stack n 0 ∷ below stack n

abbrev pub operands : Vm → List ℕ
operands vm = below vm.stack vm.sp

pub length-below : (stack : List ℕ) (n : ℕ) → length (below stack n) ≡ n
length-below stack zero = refl
length-below stack (suc n) = ap suc (length-below stack n)

below-set : (stack : List ℕ) (n i v : ℕ) → n ≤ i → below (set stack i v) n ≡ below stack n
below-set stack zero i v h = refl
below-set stack (suc n) i v h =
    ap₂ ◌∷◌ (get_or-set_ne stack {i = i} {j = n} v 0 (omega arith))
      (below-set stack n i v (omega arith))

below_of_ne_zero :
    (stack : List ℕ) (n : ℕ) → n ≢ 0 → below stack n ≡ get_or stack (n - 1) 0 ∷ below stack (n - 1)
below_of_ne_zero stack zero h = absurd (h refl)
below_of_ne_zero stack (suc n) h = ap (λ k. get_or stack k 0 ∷ below stack k) (omega arith)

below-push :
    (stack : List ℕ) (n v : ℕ)
    → n < length stack
    → below (set stack n v) (n + 1) ≡ v ∷ below stack n
below-push stack n v h =
    ap (below (set stack n v)) {y = suc n} (omega arith)
    ∙ ap₂ ◌∷◌ (get_or-set_self stack n v 0 h) (below-set stack n n v (omega arith))

-- A push puts the value on top while there are fewer than 64 operands, and otherwise changes
-- nothing and says so.
pub vm_push_lem :
    {vm : Vm} (v : ℕ)
    → IsValid vm
    → let (vm', done) = vm_push v vm in
      (done ≡ ltb vm.sp 64)
      × (operands vm' ≡ (if done then v ∷ operands vm else operands vm))
      × (vm'.mem ≡ vm.mem)
      × IsValid vm'
unfolding vm_push
vm_push_lem {vm} v h = ground (arith, below-push vm.stack vm.sp v, length-set vm.stack vm.sp v)

abbrev pub pop_operand : List ℕ → List ℕ × ℕ
pop_operand [] = ([], 0)
pop_operand (v ∷ vs) = (vs, v)

-- A pop takes the operand on top, or gives 0 when there is none.
pub vm_pop_lem :
    {vm : Vm}
    → IsValid vm
    → let (vm', v) = vm_pop vm in
      (operands vm' ≡ (pop_operand (operands vm)).0)
      × (v ≡ (pop_operand (operands vm)).1)
      × (vm'.mem ≡ vm.mem)
      × IsValid vm'
unfolding vm_pop
vm_pop_lem {vm} h = ground (arith, below_of_ne_zero vm.stack vm.sp)
