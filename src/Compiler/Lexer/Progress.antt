-- ===== src/Compiler/Lexer/Progress.antt =====
-- src/compiler/lexer.rs: the cursor stays in the stream, and every token but the last moves it.
use hr_os.Prelude.{
  ℕ, ◌+◌, ◌-◌, ◌*◌, ◌≤◌, ◌<◌, ◌≡◌, refl, Bool, true, ◌||◌, ◌⊎◌, inr, List, [], ◌∷◌, ◌==◌,
  if◌then◌else◌, arith, length,
}
use hr_os.Compiler.Lexer.{
  LexMessage, Token, eof, Lexer, span, is_ident, is_digit, is_hex, parse_identifier, parse_digits,
  parse_hex, parse_decimal, literal_from, parse_literal, next_from, next_token, hex_digit,
}

-- The lexer has moved `n` bytes on.
record Moved (n cursor : ℕ) (rest : List ℕ) (lx : Lexer) : Type 0 where
  least : length lx.rest + n ≤ length rest
  inside : lx.cursor + length lx.rest ≡ cursor + length rest

span-Moved :
    (test : ℕ → Bool) (rest : List ℕ) (cursor line : ℕ)
    → Moved 0 cursor rest (span test rest cursor line).1
unfolding span
span-Moved test [] cursor line = omega arith
span-Moved test (b ∷ rest) cursor line = ground (arith, span-Moved test rest (cursor + 1) line)

-- A first byte that passes the test is taken.
span-Moved_one :
    (test : ℕ → Bool) (b : ℕ) (rest : List ℕ) (cursor line : ℕ)
    → test b ≡ true
    → Moved 1 cursor (b ∷ rest) (span test (b ∷ rest) cursor line).1
unfolding span
span-Moved_one test b rest cursor line h = ground (arith, span-Moved test rest (cursor + 1) line)

module _ (test : ℕ → Bool) (digit : ℕ → ℕ) (base : ℕ) (message : LexMessage) where
  parse_digits-Moved :
      (rest : List ℕ) (cursor line value : ℕ)
      → Moved 0 cursor rest (parse_digits test digit base message rest cursor line value).1
  unfolding parse_digits
  parse_digits-Moved [] cursor line value = omega arith
  parse_digits-Moved (b ∷ rest) cursor line value = ground (
    arith,
    parse_digits-Moved rest (cursor + 1) line value,
    parse_digits-Moved rest (cursor + 1) line (value * base + digit b),
    span-Moved (λ b. test b || b == b'_') (b ∷ rest) cursor line,
  )

  parse_digits-Moved_one :
      (b : ℕ) (rest : List ℕ) (cursor line value : ℕ)
      → test b ≡ true
      → Moved 1 cursor
          (b ∷ rest)
          (parse_digits test digit base message (b ∷ rest) cursor line value).1
  unfolding parse_digits
  parse_digits-Moved_one b rest cursor line value h = ground (
    arith,
    parse_digits-Moved rest (cursor + 1) line value,
    parse_digits-Moved rest (cursor + 1) line (value * base + digit b),
    span-Moved_one (λ b. test b || b == b'_') b rest cursor line,
  )

literal_from-Moved :
    (b : ℕ) (rest : List ℕ) (cursor line : ℕ)
    → is_digit b ≡ true
    → Moved 1 cursor (b ∷ rest) (literal_from (b ∷ rest) cursor line).1
unfolding literal_from parse_hex parse_decimal
literal_from-Moved b [] cursor line h =
    parse_digits-Moved_one is_digit (λ b. b - b'0') 10 LexMessage.literal_overflow b [] cursor line
      0 h
literal_from-Moved b (x ∷ digits) cursor line h = ground (
  arith,
  parse_digits-Moved is_hex hex_digit 16 LexMessage.hex_literal_overflow digits (cursor + 2) line 0,
  parse_digits-Moved_one is_digit (λ b. b - b'0') 10 LexMessage.literal_overflow b (x ∷ digits)
      cursor line 0 h,
)

identifier-Moved :
    (b : ℕ) (rest : List ℕ) (cursor line : ℕ)
    → is_ident b ≡ true
    → Moved 1 cursor
        (b ∷ rest)
        (parse_identifier (record { rest = b ∷ rest; cursor = cursor; line = line })).1
unfolding parse_identifier
identifier-Moved b rest cursor line h = span-Moved_one is_ident b rest cursor line h

-- What the next token did: it moved on, or the input had run out.
record Advanced (rest : List ℕ) (cursor : ℕ) (out : Token × Lexer) : Type 0 where
  inside : out.1.cursor + length out.1.rest ≡ cursor + length rest
  onward : (length out.1.rest < length rest) ⊎ (out.0 ≡ eof) × (out.1.rest ≡ [])

next_from-Advanced :
    (rest : List ℕ) (cursor line : ℕ) → Advanced rest cursor (next_from rest cursor line)
unfolding next_from parse_literal
next_from-Advanced [] cursor line = record { inside = refl; onward = inr (refl, refl) }
next_from-Advanced (b ∷ rest) cursor line = ground (
  arith,
  next_from-Advanced rest (cursor + 1) (if b == 10 then line + 1 else line),
  identifier-Moved b rest cursor line,
  literal_from-Moved b rest cursor line,
)

-- Every call of `next_token` keeps the cursor inside the stream, and moves it on unless the input
-- has run out; then the token is `Eof`.
pub next_token-advances :
    (lx : Lexer)
    → let (tok, after) = next_token lx in
      (after.cursor + length after.rest ≡ lx.cursor + length lx.rest)
      × ((length after.rest < length lx.rest) ⊎ (tok ≡ eof) × (after.rest ≡ []))
unfolding next_token
next_token-advances lx =
    let a = next_from-Advanced lx.rest lx.cursor lx.line in (a.inside, a.onward)
