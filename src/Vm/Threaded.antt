-- ===== src/Vm/Threaded.antt =====
-- src/kernel/exec.rs: a well-formed threaded stream does what its operations say, in order.
use hr_os.Prelude.{ℕ, ◌≡◌, refl, some, List, [], ◌∷◌, ◌++◌, ◌==◌, false, arith}
use hr_os.Vm.{
  Vm, vm_push, Primitive, lit_prim, load_reg_prim, write_reg_prim, add_prim, sub_prim, mul_prim,
  div_prim, halt_prim, perform, Linkage, opcode, dispatch,
}

-- One operation of a stream: a literal with its argument, or another primitive.
pub data Op : Type 0 where
  push : ℕ → Op
  load store add sub mul div : Op

abbrev pub primitive : Op → Primitive
primitive (push v) = lit_prim
primitive load = load_reg_prim
primitive store = write_reg_prim
primitive add = add_prim
primitive sub = sub_prim
primitive mul = mul_prim
primitive div = div_prim

abbrev pub perform_op : Op → Vm → Vm
perform_op (push v) vm = (vm_push v vm).0
perform_op op vm = perform (primitive op) vm

unfoldable pub perform_all : List Op → Vm → Vm
perform_all [] vm = vm
perform_all (op ∷ ops) vm = perform_all ops (perform_op op vm)

module _ (link : Linkage) where
  unfoldable pub assemble : List Op → List ℕ
  assemble [] = []
  assemble (push v ∷ ops) = link.word_of lit_prim ∷ v ∷ assemble ops
  assemble (op ∷ ops) = link.word_of (primitive op) ∷ assemble ops

  not_null : (p : Primitive) → (link.word_of p == 0) ≡ false
  not_null p = ground (arith, link.word_of-ne-zero p)

  -- Dispatching the words of some operations performs them, and goes on with what follows.
  pub dispatch-assemble :
      (ops : List Op) (rest : List ℕ) (vm : Vm)
      → dispatch link opcode (assemble ops ++ rest) vm
        ≡ dispatch link opcode rest (perform_all ops vm)
  unfolding dispatch assemble perform_all
  dispatch-assemble [] rest vm = refl
  dispatch-assemble (push v ∷ ops) rest vm =
      rw (not_null lit_prim, link.decode-word_of lit_prim)
        (dispatch-assemble ops rest (vm_push v vm).0)
  dispatch-assemble (load ∷ ops) rest vm =
      rw (not_null load_reg_prim, link.decode-word_of load_reg_prim)
        (dispatch-assemble ops rest (perform load_reg_prim vm))
  dispatch-assemble (store ∷ ops) rest vm =
      rw (not_null write_reg_prim, link.decode-word_of write_reg_prim)
        (dispatch-assemble ops rest (perform write_reg_prim vm))
  dispatch-assemble (add ∷ ops) rest vm =
      rw (not_null add_prim, link.decode-word_of add_prim)
        (dispatch-assemble ops rest (perform add_prim vm))
  dispatch-assemble (sub ∷ ops) rest vm =
      rw (not_null sub_prim, link.decode-word_of sub_prim)
        (dispatch-assemble ops rest (perform sub_prim vm))
  dispatch-assemble (mul ∷ ops) rest vm =
      rw (not_null mul_prim, link.decode-word_of mul_prim)
        (dispatch-assemble ops rest (perform mul_prim vm))
  dispatch-assemble (div ∷ ops) rest vm =
      rw (not_null div_prim, link.decode-word_of div_prim)
        (dispatch-assemble ops rest (perform div_prim vm))

  pub dispatch-halt :
      (rest : List ℕ) (vm : Vm) → dispatch link opcode (link.word_of halt_prim ∷ rest) vm ≡ some vm
  unfolding dispatch
  dispatch-halt rest vm = rw (not_null halt_prim, link.decode-word_of halt_prim)
