-- ===== src/Vm/Tests.antt =====
-- src/kernel/exec.rs: the theorems at a concrete machine and stream.
use hr_os.Prelude.{◌≡◌, some, [], ◌∷◌, ◌++◌, arith}
use hr_os.Vm.{Vm, run_threaded_stream}
use hr_os.Vm.Threaded.{push, store, load, assemble}
use hr_os.Vm.Meaning.{Shows, meaning_all, run-assemble}
use hr_os.Vm.Sample.{link, fresh, fresh-Shows}

run-assemble_example :
    (vm : Vm) × (run_threaded_stream link
        (assemble link (push 16 ∷ push 9 ∷ store ∷ push 16 ∷ load ∷ []) ++ 8 ∷ [])
        fresh
      ≡ some vm)
    × Shows vm (meaning_all (push 16 ∷ push 9 ∷ store ∷ push 16 ∷ load ∷ []) ([], λ _. 0))
run-assemble_example =
    run-assemble link (push 16 ∷ push 9 ∷ store ∷ push 16 ∷ load ∷ []) [] [] (λ _. 0) fresh-Shows
      (omega arith)
