-- ===== src/Compiler/Names.antt =====
-- src/compiler/parser.rs: the errors of the parser, and identifiers in buffers of sixteen bytes.
use hr_os.Prelude.{
  ℕ, ◌-◌, ◌≤◌, ◌≡◌, Bool, List, ◌++◌, Result, ok, err, ltb, if◌then◌else◌, arith, length, take,
  take-append, replicate, bytes_eq,
}
use hr_os.Compiler.Lexer.{LexMessage}

pub data ParseError : Type 0 where
  lex_error : LexMessage → ParseError
  unexpected_token : ParseError
  unsupported_operator : ℕ → ParseError
  unknown_symbol duplicate_fn symbol_table_full fn_table_full stream_full name_too_long : ParseError
  div_by_zero missing_semicolon empty_line capability_violation loop_too_large : ParseError

abbrev pub name_max : ℕ
name_max = 16

pub record NameBuf : Type 0 where
  pub len : ℕ
  pub bytes : List ℕ

unfoldable pub from_slice : List ℕ → Result ParseError NameBuf
from_slice name =
    if ltb name_max (length name)
    then err name_too_long
    else ok (record { len = length name; bytes = name ++ replicate (name_max - length name) 0 })

unfoldable pub as_slice : NameBuf → List ℕ
as_slice name = take name.len name.bytes

unfoldable pub eq_bytes : NameBuf → List ℕ → Bool
unfolding as_slice
eq_bytes name other = bytes_eq (as_slice name) other

pub as_slice-from_slice :
    (name : List ℕ) (buf : NameBuf)
    → from_slice name ≡ ok buf
    → (as_slice buf ≡ name) × (length name ≤ name_max)
unfolding from_slice as_slice
as_slice-from_slice name buf h =
    ground (arith, h, take-append name (replicate (name_max - length name) 0))
