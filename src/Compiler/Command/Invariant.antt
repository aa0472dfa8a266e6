-- ===== src/Compiler/Command/Invariant.antt =====
-- src/compiler/parser.rs: every line keeps the functions to granted addresses.
use hr_os.Prelude.{
  ℕ, zero, suc, ◌<◌, ◌≡◌, refl, none, List, [], ◌∷◌, Result, ok, err, length, get_or, arith,
}
use hr_os.Compiler.Names.{ParseError, NameBuf}
use hr_os.Compiler.Cursor.{Cur}
use hr_os.Compiler.Lexer.{new}
use hr_os.Compiler.Stream
use hr_os.Compiler.Stream.{Compiler, stream_reset, stream_push, max_fns}
use hr_os.Compiler.Emit.Writes.{Writes, stream_push-Writes}
use hr_os.Compiler.Emit.Guarded.{code, operations, Granted}
use hr_os.Vm.Threaded.{assemble}
use hr_os.Compiler.Action.{Env, insert}
use hr_os.Compiler.Action.Safe.{Keeps}
use hr_os.Compiler.Action.Guarded.{Body}
use hr_os.Compiler.Body.Safe.{Stable}
use hr_os.Compiler.Body.Define.{Good, Good-Same, define_body-Good}
use hr_os.Compiler.Command.{parse}
use hr_os.Compiler.Command.Ends.{line-Settles}
use hr_os.Compiler.Command.Keeps.{stable}

module _ (env : Env) where
  push-Good : (word : ℕ) → Keeps (Good env) (stream_push word)
  push-Good word c g = go (stream_push word c) (stream_push-Writes word c g.sized)
    where
      go : (r : Compiler × Result ParseError (Unit {0})) → Writes c (word ∷ []) r → Good env r.0
      go (c', ok a) e = Good-Same g e.same
      go (c', err e) s = Good-Same g s

  reset-Good : Keeps (Good env) stream_reset
  unfolding stream_reset
  reset-Good c g = Good-Same g (record {
    names = refl;
    bodies = refl;
    lens = refl;
    sized = record { size = g.sized.size; full = omega arith };
  })

  insert-Good : (name : NameBuf) (value : ℕ) → Keeps (Good env) (insert name value)
  unfolding insert
  insert-Good name value c g = Good-Same g (record {
    names = refl;
    bodies = refl;
    lens = refl;
    sized = record { size = g.sized.size; full = g.sized.full };
  })

  Good-Stable : Stable env (Good env)
  Good-Stable =
      stable push-Good reset-Good env insert-Good (λ name c cur g. define_body-Good name c cur g)

-- Whatever the line, and whether it is accepted or not, the compiler keeps its buffers' sizes, and
-- the body of every function keeps to the words of writes and reads at addresses granted by the
-- registry that the line is parsed with.
pub parse-Good :
    (env : Env) (line : List ℕ) (c : Compiler) → Good env c → Good env (parse env line c).0
unfolding parse new
parse-Good env line c g =
    let cur : Cur = record { lx = new line; ahead = none } in
    (line-Settles env (Good-Stable env) {n = 0}).keeps c cur g

-- At boot.
pub fresh-Good : (env : Env) → Good env Stream.fresh
unfolding code operations assemble Granted
fresh-Good env = record {
  sized = record { size = refl; full = omega arith };
  valid = record { names = refl; bodies = refl; lens = refl };
  rooms = λ i lt. room_at i lt;
  bodies = λ i lt. body_at i lt;
}
  where
    room_at : (i : ℕ) → i < max_fns → length (get_or Stream.fresh.fn_bodies i []) ≡ 32
    room_at zero lt = refl
    room_at (suc zero) lt = refl
    room_at (suc (suc i)) lt = absurd (omega arith)

    body_at : (i : ℕ) → i < max_fns → Body env Stream.fresh i
    body_at zero lt = record {
      inside = omega arith;
      guarded = record { accesses = []; granted = tt; words = refl };
    }
    body_at (suc zero) lt = record {
      inside = omega arith;
      guarded = record { accesses = []; granted = tt; words = refl };
    }
    body_at (suc (suc i)) lt = absurd (omega arith)
