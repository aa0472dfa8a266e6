-- ===== src/Compiler/Cursor.antt =====
-- src/compiler/parser.rs, `Cur`: the lexer with one token of lookahead. What `peek` found is kept
-- for the `next` that follows.
use hr_os.Prelude.{ℕ, ◌+◌, ◌≤◌, ◌<◌, ◌≡◌, ◌⊎◌, Option, none, some, arith, length}
use hr_os.Compiler.Lexer.{Token, eof, Lexer, next_token}
use hr_os.Compiler.Lexer.Progress.{next_token-advances}

pub record Cur : Type 0 where
  pub lx : Lexer
  pub ahead : Option Token

unfoldable pub next : Cur → Token × Cur
next cur = elim cur.ahead [
  | some t ↦ (t, record cur { ahead = none })
  | none ↦ let (t, lx) = next_token cur.lx in (t, record { lx = lx; ahead = none })
]

unfoldable pub peek : Cur → Token × Cur
peek cur = elim cur.ahead [
  | some t ↦ (t, cur)
  | none ↦ let (t, lx) = next_token cur.lx in (t, record { lx = lx; ahead = some t })
]

abbrev pub pending : Option Token → ℕ
pending none = 0
pending (some eof) = 0
pending (some t) = 1

-- There are at most so many tokens to come.
abbrev pub room : Cur → ℕ
room cur = length cur.lx.rest + pending cur.ahead

-- A token is taken, unless the input has run out.
pub next-room :
    (cur : Cur)
    → (room (next cur).1 ≤ room cur) × ((room (next cur).1 < room cur) ⊎ ((next cur).0 ≡ eof))
unfolding next
next-room cur = ground (arith, next_token-advances cur.lx)

-- What is seen ahead is what is taken next.
pub next-peek : (cur : Cur) → next (peek cur).1 ≡ next cur
unfolding next peek
next-peek cur = ground arith

pub peek-next : (cur : Cur) → (peek cur).0 ≡ (next cur).0
unfolding next peek
peek-next cur = ground arith

pub peek-room : (cur : Cur) → room (peek cur).1 ≤ room cur
unfolding peek
peek-room cur = ground (arith, next_token-advances cur.lx)
