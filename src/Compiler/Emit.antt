-- ===== src/Compiler/Emit.antt =====
-- src/compiler/parser.rs: what the statements of a body write to the stream.
pub mod Writes
pub mod Copies
pub mod Guarded
use hr_os.Prelude.{ℕ, zero, suc, ◌+◌, ◌-◌, List, Result, ok, err, ltb, if◌then◌else◌, get_or}
use hr_os.Vm.{Linkage, write_reg_prim, load_reg_prim}
use hr_os.Compiler.Names.{ParseError, stream_full}
use hr_os.Compiler.Stream.{Compiler, M, ◌>>=◌, ◌>>◌, max_stream_words, stream_push, stream_push_lit}

module _ (link : Linkage) where
  -- A write of a literal to a literal address, and a read.
  unfoldable pub emit_poke : ℕ → ℕ → M (Unit {0})
  unfolding stream_push stream_push_lit
  emit_poke addr val = do
    stream_push_lit link addr
    stream_push_lit link val
    stream_push (link.word_of write_reg_prim)

  unfoldable pub emit_peek : ℕ → M (Unit {0})
  unfolding stream_push stream_push_lit
  emit_peek addr = do stream_push_lit link addr; stream_push (link.word_of load_reg_prim)

abbrev pub nothing : M (Unit {0})
nothing c = (c, ok tt)

unfoldable pub copy_word : ℕ → M (Unit {0})
unfolding stream_push
copy_word i c = stream_push (get_or c.stream i 0) c

-- `for i in i..i + left { self.stream_push(self.stream[i])?; }`
unfoldable pub copy_range : ℕ → ℕ → M (Unit {0})
unfolding copy_word
copy_range zero i = nothing
copy_range (suc left) i = do copy_word i; copy_range left (i + 1)

-- There must be room for `len` words more.
unfoldable pub need_room : ℕ → M (Unit {0})
need_room len c =
    if ltb max_stream_words (c.stream_len + len) then (c, err stream_full) else (c, ok tt)

-- The body that starts at `start`, of `len` words, `rounds` times more.
unfoldable pub unroll : ℕ → ℕ → ℕ → M (Unit {0})
unfolding copy_range need_room
unroll zero start len = nothing
unroll (suc rounds) start len = do need_room len; copy_range len start; unroll rounds start len

-- The end of the loop's body is where the stream ends before the first copy.
unfoldable pub unroll_from : ℕ → ℕ → M (Unit {0})
unfolding unroll
unroll_from count start c = unroll (count - 1) start (c.stream_len - start) c
