-- ===== src/Compiler/Native/Tests.antt =====
-- src/compiler/native.rs: the code for concrete streams.
use hr_os.Prelude.{ℕ, ◌≡◌, refl, arith, List, [], ◌∷◌, ◌++◌, ok, some, take}
use hr_os.Vm.Sample.{link}
use hr_os.Compiler.Stream
use hr_os.Compiler.Stream.{StreamProgram, build_value_program}
use hr_os.Compiler.Emitter.Thumb2.{into_exec_buffer}
use hr_os.Compiler.Emitter.Bounds.{IsValid}
use hr_os.Compiler.Emitter.Appends.{code}
use hr_os.Compiler.Emitter.Moves.{loads}
use hr_os.Compiler.Emit.Guarded.{poke_at, peek_at}
use hr_os.Compiler.Emit.Guarded
use hr_os.Compiler.Native.{compile_stream}
use hr_os.Compiler.Native.Value.{value_program-returns}

buffer-IsValid : IsValid into_exec_buffer
buffer-IsValid = record { size = refl; lockstep = refl; fits = omega arith }

value_program-returns_example :
    (program : StreamProgram) × ((build_value_program link 42 Stream.fresh).1 ≡ ok program)
    × (moves : List ℕ) × ((compile_stream link program.words program.len into_exec_buffer).1
        ≡ ok tt)
    × (code (compile_stream link program.words program.len into_exec_buffer).0
        ≡ [] ++ (moves ++ 0x4770 ∷ []))
    × (loads moves ≡ some (0, 42))
value_program-returns_example =
    value_program-returns link 42 Stream.fresh into_exec_buffer refl (omega arith) buffer-IsValid
      (omega arith)

-- A poke: the address goes to r0, the value to r1, and STR stores r1 at the address in r0.
one_poke :
    take 4
      (compile_stream link
        (Guarded.code link (poke_at 16 7 ∷ []) ++ 8 ∷ [])
        6
        into_exec_buffer).0.buffer
    ≡ 0x2010 ∷ 0x2107 ∷ 0x6001 ∷ 0x4770 ∷ []
unfolding compile_stream Guarded.code
one_poke = refl

-- After a peek the address of a poke goes to r1, where the value overwrites it; STR stores the value
-- at the address in r0, which is the word that the peek has read.
poke_after_peek :
    take 6
      (compile_stream link
        (Guarded.code link (peek_at 16 ∷ poke_at 32 7 ∷ []) ++ 8 ∷ [])
        9
        into_exec_buffer).0.buffer
    ≡ 0x2110 ∷ 0x6808 ∷ 0x2120 ∷ 0x2107 ∷ 0x6001 ∷ 0x4770 ∷ []
unfolding compile_stream Guarded.code
poke_after_peek = refl
