-- ===== src/Compiler/Lexer.antt =====
-- src/compiler/lexer.rs: the streaming lexer. `rest` is `stream[cursor..]`.
pub mod Progress
use hr_os.Prelude.{
  ℕ, ◌+◌, ◌-◌, ◌*◌, ◌^◌, ◌<◌, Bool, true, false, ◌&&◌, ◌||◌, Option, none, some, List, [], ◌∷◌,
  ◌==◌, ltb, leb, if◌then◌else◌, codes, bytes_eq,
}

-- The interned messages of `Token::Error`.
pub data LexMessage : Type 0 where
  unexpected_character hex_literal_overflow malformed_hex_literal literal_overflow : LexMessage

pub data Token : Type 0 where
  kw_fn kw_let : Token
  identifier : List ℕ → Token
  operator : ℕ → Token
  literal : ℕ → Token
  lparen rparen lbrace rbrace semicolon comma : Token
  error : LexMessage → Token
  eof : Token

pub record Lexer : Type 0 where
  pub rest : List ℕ
  pub cursor : ℕ
  pub line : ℕ

unfoldable pub new : List ℕ → Lexer
new stream = record { rest = stream; cursor = 0; line = 1 }

abbrev pub in_range : ℕ → ℕ → ℕ → Bool
in_range lo hi b = leb lo b && leb b hi

abbrev pub is_digit : ℕ → Bool
is_digit = in_range b'0' b'9'

abbrev pub is_alpha : ℕ → Bool
is_alpha b = in_range b'a' b'z' b || in_range b'A' b'Z' b

abbrev pub is_ident : ℕ → Bool
is_ident b = is_alpha b || is_digit b || b == b'_'

abbrev pub is_hex : ℕ → Bool
is_hex b = is_digit b || in_range b'a' b'f' b || in_range b'A' b'F' b

abbrev pub is_operator : ℕ → Bool
is_operator b =
    b == b'+'
    || b == b'-'
    || b == b'*'
    || b == b'/'
    || b == b'%'
    || b == b'='
    || b == b'<'
    || b == b'>'
    || b == b'!'
    || b == b'&'
    || b == b'|'
    || b == b'^'
    || b == b'~'
    || b == b':'
    || b == b'?'

-- The bytes up to the first that fails the test, and the lexer behind them.
unfoldable pub span : (ℕ → Bool) → List ℕ → ℕ → ℕ → List ℕ × Lexer
span test [] cursor line = ([], record { rest = []; cursor = cursor; line = line })
span test (b ∷ rest) cursor line =
    let (taken, after) = span test rest (cursor + 1) line in
    if test b
    then (b ∷ taken, after)
    else ([], record { rest = b ∷ rest; cursor = cursor; line = line })

unfoldable pub parse_identifier : Lexer → Token × Lexer
unfolding span
parse_identifier lx =
    let (ident, after) = span is_ident lx.rest lx.cursor lx.line in
    (
      if bytes_eq ident (codes "fn")
          then kw_fn
          else if bytes_eq ident (codes "let")
          then kw_let
          else identifier ident,
      after,
    )

-- `value.checked_mul(base).and_then(|v| v.checked_add(digit))` on `u32`.
abbrev pub checked : ℕ → Option ℕ
checked v = if ltb v (2 ^ 32) then some v else none

abbrev pub checked_mul_add : ℕ → ℕ → ℕ → Option ℕ
checked_mul_add value base digit = elim (checked (value * base)) [
  | some v ↦ checked (v + digit)
  | none ↦ none
]

abbrev pub hex_digit : ℕ → ℕ
hex_digit b =
    if is_digit b then b - b'0' else if in_range b'a' b'f' b then b - b'a' + 10 else b - b'A' + 10

-- What is left of the token once its value does not fit.
abbrev pub skip : (ℕ → Bool) → List ℕ → ℕ → ℕ → Lexer
skip test rest cursor line = (span (λ b. test b || b == b'_') rest cursor line).1

-- The loop over the digits of either base, with its accumulator.
unfoldable pub parse_digits :
    (ℕ → Bool) → (ℕ → ℕ) → ℕ → LexMessage → List ℕ → ℕ → ℕ → ℕ → Token × Lexer
parse_digits test digit base message [] cursor line value =
    (literal value, record { rest = []; cursor = cursor; line = line })
parse_digits test digit base message (b ∷ rest) cursor line value =
    let next = λ (v : ℕ). parse_digits test digit base message rest (cursor + 1) line v in
    if b == b'_'
    then next value
    else if test b
    then elim (checked_mul_add value base (digit b)) [
      | some v ↦ next v
      | none ↦ (error message, skip test (b ∷ rest) cursor line)
    ]
    else (literal value, record { rest = b ∷ rest; cursor = cursor; line = line })

-- `0x` with no digit behind it is malformed.
abbrev pub finish_hex : Token → ℕ → Lexer → Token
finish_hex (literal value) digits_start after =
    if after.cursor == digits_start then error malformed_hex_literal else literal value
finish_hex tok digits_start after = tok

unfoldable pub parse_hex : List ℕ → ℕ → ℕ → Token × Lexer
unfolding parse_digits
parse_hex digits cursor line =
    let (tok, after) = parse_digits is_hex hex_digit 16 hex_literal_overflow digits cursor line 0 in
    (finish_hex tok cursor after, after)

unfoldable pub parse_decimal : List ℕ → ℕ → ℕ → Token × Lexer
unfolding parse_digits
parse_decimal digits cursor line =
    parse_digits is_digit (λ b. b - b'0') 10 literal_overflow digits cursor line 0

-- `0x` or `0X` begins a hexadecimal literal.
unfoldable pub literal_from : List ℕ → ℕ → ℕ → Token × Lexer
literal_from [] cursor line = parse_decimal [] cursor line
literal_from (a ∷ []) cursor line = parse_decimal (a ∷ []) cursor line
literal_from (a ∷ x ∷ digits) cursor line =
    if a == b'0' && (x == b'x' || x == b'X')
    then parse_hex digits (cursor + 2) line
    else parse_decimal (a ∷ x ∷ digits) cursor line

unfoldable pub parse_literal : Lexer → Token × Lexer
unfolding literal_from
parse_literal lx = literal_from lx.rest lx.cursor lx.line

-- A token of one byte.
unfoldable pub punctuation : ℕ → Token
punctuation b =
    if b == b'('
    then lparen
    else if b == b')'
    then rparen
    else if b == b'{'
    then lbrace
    else if b == b'}'
    then rbrace
    else if b == b';'
    then semicolon
    else if b == b','
    then comma
    else if is_operator b
    then operator b
    else error unexpected_character

abbrev pub newline : ℕ
newline = 10

-- Space, tab, carriage return and newline.
abbrev pub is_blank : ℕ → Bool
is_blank b = b == 32 || b == 9 || b == 13 || b == newline

unfoldable pub next_from : List ℕ → ℕ → ℕ → Token × Lexer
unfolding parse_identifier parse_literal punctuation
next_from [] cursor line = (eof, record { rest = []; cursor = cursor; line = line })
next_from (b ∷ rest) cursor line =
    let skipped = next_from rest (cursor + 1) (if b == newline then line + 1 else line) in
    let lx : Lexer = record { rest = b ∷ rest; cursor = cursor; line = line } in
    if is_blank b
    then skipped
    else if is_alpha b || b == b'_'
    then parse_identifier lx
    else if is_digit b
    then parse_literal lx
    else (punctuation b, record { rest = rest; cursor = cursor + 1; line = line })

unfoldable pub next_token : Lexer → Token × Lexer
unfolding next_from
next_token lx = next_from lx.rest lx.cursor lx.line
