-- ===== src/Compiler/Stream.antt =====
-- src/compiler/parser.rs: the state of `Compiler`, the stream of words, and the programs taken
-- from it. `link` has the primitives' addresses.
pub mod Programs
use hr_os.Prelude.{
  ℕ, zero, suc, ◌+◌, ◌-◌, Bool, true, false, List, ◌++◌, Result, ok, err, leb, if◌then◌else◌,
  length, get_or, set, take, replicate,
}
use hr_os.Vm.{Linkage, Primitive, lit_prim, halt_prim}
use hr_os.Compiler.Names.{ParseError, stream_full, NameBuf, name_max}
use hr_os.Compiler.Symbols.{Symbol, symbol_slots, empty_symbol}

abbrev pub max_stream_words : ℕ
max_stream_words = 128

abbrev pub max_fns : ℕ
max_fns = 2

abbrev pub fn_body_words : ℕ
fn_body_words = 32

pub record Compiler : Type 0 where
  pub symbols : List Symbol
  pub fn_names : List NameBuf
  pub fn_bodies : List (List ℕ)
  pub fn_body_lens : List ℕ
  pub stream : List ℕ
  pub stream_len : ℕ

abbrev pub no_name : NameBuf
no_name = record { len = 0; bytes = replicate name_max 0 }

abbrev pub fresh : Compiler
fresh = record {
  symbols = replicate symbol_slots empty_symbol;
  fn_names = replicate max_fns no_name;
  fn_bodies = replicate max_fns (replicate fn_body_words 0);
  fn_body_lens = replicate max_fns 0;
  stream = replicate max_stream_words 0;
  stream_len = 0;
}

pub record StreamProgram : Type 0 where
  pub words : List ℕ
  pub len : ℕ
  pub yields_value : Bool

-- A method with `&mut self` that may fail; `?` stops at the first error.
abbrev pub M : Type 0 → Type 0
M A = Compiler → Compiler × Result ParseError A

infixl 5 ◌>>=◌ ◌>>◌
abbrev pub ◌>>=◌ : {A B : Type 0} → M A → (A → M B) → M B
◌>>=◌ m f c = let (c', r) = m c in elim r [ ok a ↦ f a c' | err e ↦ (c', err e) ]

abbrev pub ◌>>◌ : {A B : Type 0} → M A → M B → M B
m >> n = m >>= (λ _. n)

unfoldable pub stream_reset : M (Unit {0})
stream_reset c = (record c { stream_len = 0 }, ok tt)

unfoldable pub stream_push : ℕ → M (Unit {0})
stream_push word c = if leb max_stream_words c.stream_len then (c, err stream_full) else (
  record c { stream = set c.stream c.stream_len word; stream_len = c.stream_len + 1 },
  ok tt,
)

unfoldable pub take_program : Bool → M StreamProgram
take_program yields_value c = (
  c,
  ok (record {
    words = take c.stream_len c.stream ++ replicate (max_stream_words - c.stream_len) 0;
    len = c.stream_len;
    yields_value = yields_value;
  }),
)

module _ (link : Linkage) where
  unfoldable pub stream_push_lit : ℕ → M (Unit {0})
  unfolding stream_push
  stream_push_lit value = do stream_push (link.word_of lit_prim); stream_push value

  unfoldable pub stream_halt : M (Unit {0})
  unfolding stream_push
  stream_halt = stream_push (link.word_of halt_prim)

  unfoldable pub build_value_program : ℕ → M StreamProgram
  unfolding stream_reset stream_push_lit stream_halt take_program
  build_value_program value = do stream_reset; stream_push_lit value; stream_halt; take_program true
