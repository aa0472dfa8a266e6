-- ===== src/Compiler/Command/Runs.antt =====
-- src/compiler/parser.rs and src/kernel/exec.rs: a call of a function that the console defined.
use hr_os.Prelude.{ℕ, ◌+◌, ◌≤◌, ◌<◌, ◌≡◌, ok}
use hr_os.Caps.Access.{check_access}
use hr_os.Memory.{Memory}
use hr_os.Vm.{Vm}
use hr_os.Compiler.Stream.{Compiler}
use hr_os.Compiler.Emit.Guarded.{Access}
use hr_os.Compiler.Action.{Env}

-- The byte at `x` is in a word that the registry grants.
unfoldable pub InGranted : Env → ℕ → Type 0
InGranted env x =
    (addr : ℕ) × (check_access env.arch env.bits addr ≡ ok tt) × (addr ≤ x) × (x < addr + 4)
