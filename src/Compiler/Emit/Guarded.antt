-- ===== src/Compiler/Emit/Guarded.antt =====
-- src/compiler/parser.rs: the accesses that a body makes, and their words.

use hr_os.Prelude.{
  ℕ, zero, suc, ◌+◌, ◌*◌, ◌≤◌, ◌≡◌, refl, ap, ◌∙◌, List, [], ◌∷◌, ◌++◌, ok, arith, length,
}
use hr_os.Caps.Access.{check_access}
use hr_os.Memory.{Memory, poke_u32}
use hr_os.Vm.{Linkage}
use hr_os.Vm.Threaded.{Op, push, load, store, assemble}
use hr_os.Vm.Meaning.{Fits, meaning, meaning_all}
use hr_os.Compiler.Action.{Env}
use hr_os.Compiler.Emit.Copies.{repeat}

-- A statement that touches memory, with its operands evaluated.
pub data Access : Type 0 where
  poke_at : ℕ → ℕ → Access
  peek_at : ℕ → Access

abbrev pub address : Access → ℕ
address (poke_at addr val) = addr
address (peek_at addr) = addr

unfoldable pub operations : List Access → List Op
operations [] = []
operations (poke_at addr val ∷ accesses) = push addr ∷ push val ∷ store ∷ operations accesses
operations (peek_at addr ∷ accesses) = push addr ∷ load ∷ operations accesses

-- The words of some accesses.
unfoldable pub code : Linkage → List Access → List ℕ
unfolding assemble operations
code link accesses = assemble link (operations accesses)

-- Every address is one that the registry lets the user touch.
unfoldable pub Granted : Env → List Access → Type 0
Granted env [] = Unit
Granted env (access ∷ accesses) =
    (check_access env.arch env.bits (address access) ≡ ok tt) × Granted env accesses

-- The writes, in order; a read changes nothing.
unfoldable pub write_all : List Access → Memory → Memory
write_all [] mem = mem
write_all (poke_at addr val ∷ accesses) mem = write_all accesses (poke_u32 addr val mem)
write_all (peek_at addr ∷ accesses) mem = write_all accesses mem

pub Granted-append :
    (env : Env) (xs ys : List Access) → Granted env xs → Granted env ys → Granted env (xs ++ ys)
unfolding Granted
Granted-append env [] ys g h = h
Granted-append env (x ∷ xs) ys (one, more) h = (one, Granted-append env xs ys more h)

pub code-append :
    (link : Linkage) (xs ys : List Access) → code link (xs ++ ys) ≡ code link xs ++ code link ys
unfolding code operations assemble
code-append link [] ys = refl
code-append link (poke_at addr val ∷ xs) ys =
    ap (λ t. code link (poke_at addr val ∷ []) ++ t) (code-append link xs ys)
code-append link (peek_at addr ∷ xs) ys =
    ap (λ t. code link (peek_at addr ∷ []) ++ t) (code-append link xs ys)

unfoldable pub times : ℕ → List Access → List Access
times zero xs = []
times (suc n) xs = xs ++ times n xs

pub Granted-times :
    (env : Env) (n : ℕ) (xs : List Access) → Granted env xs → Granted env (times n xs)
unfolding times Granted
Granted-times env zero xs g = tt
Granted-times env (suc n) xs g = Granted-append env xs (times n xs) g (Granted-times env n xs g)

pub code-times :
    (link : Linkage) (n : ℕ) (xs : List Access) → code link (times n xs) ≡ repeat n (code link xs)
unfolding times repeat code operations assemble
code-times link zero xs = refl
code-times link (suc n) xs =
    code-append link xs (times n xs) ∙ ap (λ t. code link xs ++ t) (code-times link n xs)

-- A read leaves one operand, and takes three words.
pub operations-Fits :
    (link : Linkage) (accesses : List Access) (n : ℕ)
    → 3 * n + length (code link accesses) ≤ 186
    → Fits n (operations accesses)
unfolding code operations assemble
operations-Fits link [] n h = tt
operations-Fits link (poke_at addr val ∷ accesses) n h =
    (omega arith, (omega arith, operations-Fits link accesses n (omega (arith, h))))
operations-Fits link (peek_at addr ∷ accesses) n h =
    (omega arith, operations-Fits link accesses (suc n) (omega (arith, h)))

pub memory-operations :
    (accesses : List Access) (vs : List ℕ) (mem : Memory)
    → (meaning_all (operations accesses) (vs, mem)).1 ≡ write_all accesses mem
unfolding operations meaning_all meaning write_all
memory-operations [] vs mem = refl
memory-operations (poke_at addr val ∷ accesses) vs mem =
    memory-operations accesses vs (poke_u32 addr val mem)
memory-operations (peek_at addr ∷ accesses) vs mem = memory-operations accesses (_ ∷ vs) mem
