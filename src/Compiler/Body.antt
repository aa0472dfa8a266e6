-- ===== src/Compiler/Body.antt =====
-- src/compiler/parser.rs: function bodies. A block runs on fuel; every statement takes a token, so
-- one more than the tokens to come is enough.
pub mod Safe
pub mod Guarded
pub mod Blocks
pub mod Define
use hr_os.Prelude.{
  ℕ, zero, suc, ◌+◌, Bool, ◌||◌, none, some, List, ok, err, ltb, ◌==◌, if◌then◌else◌, take, codes,
  bytes_eq,
}
use hr_os.Compiler.Lexer.{Token, identifier, rbrace, eof}
use hr_os.Compiler.Names.{ParseError, unexpected_token, loop_too_large, stream_full, NameBuf}
use hr_os.Compiler.Cursor.{Cur, room}
use hr_os.Compiler.Expr.{Halt, starved}
use hr_os.Compiler.Stream.{Compiler, M, fn_body_words, stream_reset}
use hr_os.Compiler.Fns.{define_fn, splice_call}
use hr_os.Compiler.Emit.{emit_poke, emit_peek, unroll_from}
use hr_os.Compiler.Action.{
  Env, P, ◌>>=◌, ◌>>◌, pure, fail, on_compiler, take_token, look, eval, atomic, is_lparen,
  is_rparen, is_lbrace, expect, expect_semicolon, expect_name, check,
}

abbrev pub max_loop_unroll : ℕ
max_loop_unroll = 64

unfoldable pub stream_pos : P ℕ
stream_pos c cur = (c, ok (c.stream_len, cur))

-- Out of fuel.
abbrev pub starve : P (Unit {0})
starve c cur = (c, err starved)

abbrev pub in_loop_range : ℕ → P (Unit {0})
in_loop_range count =
    if count == 0 || ltb max_loop_unroll count then fail loop_too_large else pure tt

module _ (env : Env) where
  unfoldable pub poke_stmt : P (Unit {0})
  unfolding eval atomic expect_semicolon check emit_poke
  poke_stmt = do
    addr ← atomic env
    val ← eval env none
    expect_semicolon
    check env addr
    on_compiler (emit_poke env.link addr val)

  unfoldable pub peek_stmt : P (Unit {0})
  unfolding atomic expect_semicolon check emit_peek
  peek_stmt = do
    addr ← atomic env
    expect_semicolon
    check env addr
    on_compiler (emit_peek env.link addr)

  -- `loop N { ... }`: the body is compiled once and copied.
  unfoldable pub loop_stmt : P (Unit {0}) → P (Unit {0})
  unfolding atomic stream_pos expect unroll_from
  loop_stmt block = do
    count ← atomic env
    in_loop_range count
    start ← stream_pos
    expect is_lbrace unexpected_token
    block
    on_compiler (unroll_from count start)

  unfoldable pub call_stmt : List ℕ → P (Unit {0})
  unfolding take_token expect expect_semicolon splice_call
  call_stmt id = do
    take_token
    expect is_rparen unexpected_token
    expect_semicolon
    on_compiler (splice_call id)

  -- A bare expression: its value is dropped.
  unfoldable pub expr_stmt : List ℕ → P (Unit {0})
  unfolding eval expect_semicolon
  expr_stmt id = do eval env (some (identifier id)); expect_semicolon

  unfoldable pub other_stmt : List ℕ → P (Unit {0})
  unfolding look call_stmt expr_stmt
  other_stmt id = do tok ← look; if is_lparen tok then call_stmt id else expr_stmt id

  unfoldable pub stmt_from : P (Unit {0}) → Token → P (Unit {0})
  unfolding poke_stmt peek_stmt loop_stmt other_stmt
  stmt_from block (identifier id) =
      if bytes_eq id (codes "poke")
      then poke_stmt
      else if bytes_eq id (codes "peek")
      then peek_stmt
      else if bytes_eq id (codes "loop")
      then loop_stmt block
      else other_stmt id
  stmt_from block _ = fail unexpected_token

  unfoldable pub parse_body_stmt : P (Unit {0}) → P (Unit {0})
  unfolding take_token stmt_from
  parse_body_stmt block = do tok ← take_token; stmt_from block tok

  -- Up to the closing brace, which is taken too.
  unfoldable pub block_from : P (Unit {0}) → Token → P (Unit {0})
  unfolding take_token parse_body_stmt
  block_from rest rbrace = take_token >> pure tt
  block_from rest eof = fail unexpected_token
  block_from rest _ = parse_body_stmt rest >> rest

  unfoldable pub block : ℕ → P (Unit {0})
  unfolding look block_from
  block zero = starve
  block (suc fuel) = do tok ← look; block_from (block fuel) tok

  unfoldable pub whole_block : P (Unit {0})
  unfolding block
  whole_block c cur = block (room cur + 1) c cur

-- The body of a function, from its first statement on.
unfoldable pub define_body : Env → NameBuf → P NameBuf
unfolding stream_reset whole_block define_fn
define_body env name = do
  on_compiler stream_reset
  whole_block env
  on_compiler (define_fn name)
  pure name

-- `fn NAME() { ... }`
unfoldable pub parse_fn : Env → P NameBuf
unfolding expect_name expect define_body
parse_fn env = do
  name ← expect_name
  expect is_lparen unexpected_token
  expect is_rparen unexpected_token
  expect is_lbrace unexpected_token
  define_body env name
