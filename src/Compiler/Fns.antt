-- ===== src/Compiler/Fns.antt =====
-- src/compiler/parser.rs: the table of two functions, and the programs that call them. A body is
-- stored without a halt, so that it can be spliced into another.
pub mod Table
pub mod Calls
use hr_os.Prelude.{
  ℕ, zero, suc, ◌+◌, Bool, not, ◌&&◌, Option, none, some, List, ◌++◌, Result, ok, err, ltb, ◌==◌,
  if◌then◌else◌, length, get_or, set, take, drop,
}
use hr_os.Vm.{Linkage}
use hr_os.Compiler.Names.{
  ParseError, unknown_symbol, duplicate_fn, fn_table_full, stream_full, name_too_long, NameBuf,
  name_max, from_slice, as_slice, eq_bytes,
}
use hr_os.Compiler.Stream.{
  Compiler, StreamProgram, M, ◌>>=◌, ◌>>◌, max_fns, fn_body_words, no_name, stream_reset,
  stream_push, stream_halt, take_program,
}

-- `(i..i + left).find(test)`.
unfoldable pub find_index : (ℕ → Bool) → ℕ → ℕ → Option ℕ
find_index test zero i = none
find_index test (suc left) i =
    let later = find_index test left (i + 1) in if test i then some i else later

abbrev pub name_at : Compiler → ℕ → NameBuf
name_at c i = get_or c.fn_names i no_name

unfoldable pub fn_allocated : Compiler → ℕ → Bool
fn_allocated c i = ltb 0 (name_at c i).len

unfoldable pub find_fn : List ℕ → Compiler → Option ℕ
unfolding find_index fn_allocated
find_fn name c = find_index (λ i. fn_allocated c i && eq_bytes (name_at c i) name) max_fns 0

unfoldable pub alloc_fn_slot : NameBuf → M ℕ
unfolding find_fn find_index
alloc_fn_slot name c = elim (find_fn (as_slice name) c) [
  | some _ ↦ (c, err duplicate_fn)
  | none ↦ elim (find_index (λ i. (name_at c i).len == 0) max_fns 0) [
    | some i ↦ (c, ok i)
    | none ↦ (c, err fn_table_full)
  ]
]

-- The name, the length and the words, over the front of the old body.
unfoldable pub store_fn : ℕ → NameBuf → List ℕ → M (Unit {0})
store_fn index name words c = (
  record c {
    fn_names = set c.fn_names index name;
    fn_body_lens = set c.fn_body_lens index (length words);
    fn_bodies =
        set c.fn_bodies index (words ++ drop (length words) (get_or c.fn_bodies index List.[]));
  },
  ok tt,
)

-- A result that does not depend on the compiler.
abbrev pub lift : {A : Type 0} → Result ParseError A → M A
lift r c = (c, r)

unfoldable pub import_fn : List ℕ → List ℕ → M (Unit {0})
unfolding from_slice alloc_fn_slot store_fn
import_fn name words =
    if ltb name_max (length name)
    then lift (err name_too_long)
    else if ltb fn_body_words (length words)
    then lift (err stream_full)
    else do nb ← lift (from_slice name); index ← alloc_fn_slot nb; store_fn index nb words

-- The body in the stream becomes the function's.
unfoldable pub short_body : M (Unit {0})
short_body c = if ltb fn_body_words c.stream_len then (c, err stream_full) else (c, ok tt)

unfoldable pub store_stream : NameBuf → ℕ → M (Unit {0})
unfolding store_fn
store_stream name index c = store_fn index name (take c.stream_len c.stream) c

unfoldable pub define_fn : NameBuf → M (Unit {0})
unfolding short_body alloc_fn_slot store_stream
define_fn name = do short_body; index ← alloc_fn_slot name; store_stream name index

-- The words copied to a buffer of `room` words.
unfoldable pub export_fn : List ℕ → ℕ → Compiler → Option (List ℕ)
unfolding find_fn
export_fn name room c = elim (find_fn name c) [
  | none ↦ none
  | some idx ↦
      let len = get_or c.fn_body_lens idx 0 in
      if ltb room len then none else some (take len (get_or c.fn_bodies idx List.[]))
]

-- `for w in w..w + left { self.stream_push(body[w])?; }`
unfoldable pub push_body : ℕ → ℕ → List ℕ → M (Unit {0})
unfolding stream_push
push_body zero w body = lift (ok tt)
push_body (suc left) w body = do stream_push (get_or body w 0); push_body left (w + 1) body

-- The index of a function that must exist.
unfoldable pub need_fn : List ℕ → M ℕ
unfolding find_fn
need_fn name c = elim (find_fn name c) [
  | some index ↦ (c, ok index)
  | none ↦ (c, err unknown_symbol)
]

unfoldable pub push_fn : ℕ → M (Unit {0})
unfolding push_body
push_fn index c = push_body (get_or c.fn_body_lens index 0) 0 (get_or c.fn_bodies index List.[]) c

unfoldable pub splice_call : List ℕ → M (Unit {0})
unfolding need_fn push_fn
splice_call name = do index ← need_fn name; push_fn index

module _ (link : Linkage) where
  unfoldable pub build_call_program : List ℕ → M StreamProgram
  unfolding need_fn stream_reset push_fn stream_halt take_program
  build_call_program name = do
    index ← need_fn name
    stream_reset
    push_fn index
    stream_halt link
    take_program Bool.false
