-- ===== src/Compiler/Symbols.antt =====
-- src/compiler/parser.rs: the symbol table, thirty-two slots with open addressing.
pub mod Probe
pub mod Bindings
use hr_os.Prelude.{
  ℕ, zero, suc, ◌+◌, ◌*◌, ◌%◌, ◌^◌, Bool, true, false, not, ◌&&◌, ◌||◌, Option, none, some, List,
  [], ◌∷◌, ◌++◌, Result, ok, err, ◌==◌, if◌then◌else◌, length, get_or, set, take, drop, replicate,
  bit_xor, bytes_eq,
}
use hr_os.Compiler.Names.{ParseError, symbol_table_full, name_max, NameBuf, as_slice}

abbrev pub symbol_slots : ℕ
symbol_slots = 32

pub record Symbol : Type 0 where
  pub used : Bool
  pub name_len : ℕ
  pub name : List ℕ
  pub value : ℕ

abbrev pub empty_symbol : Symbol
empty_symbol = record { used = false; name_len = 0; name = replicate name_max 0; value = 0 }

unfoldable pub fnv : ℕ → List ℕ → ℕ
fnv h [] = h
fnv h (b ∷ name) = fnv (bit_xor h b * 0x0100_0193 % 2 ^ 32) name

unfoldable pub hash : List ℕ → ℕ
unfolding fnv
hash name = fnv 0x811C_9DC5 name % symbol_slots

-- `s.name_len == name.len() && s.name[..name.len()] == *name`.
unfoldable pub holds : Symbol → List ℕ → Bool
holds s name = (s.name_len == length name) && bytes_eq (take (length name) s.name) name

-- The loop of `lookup_symbol`, with the steps left and the step to come.
unfoldable pub lookup_from : List Symbol → List ℕ → ℕ → ℕ → Option ℕ
unfolding hash holds
lookup_from symbols name zero step = none
lookup_from symbols name (suc left) step =
    let s = get_or symbols ((hash name + step) % symbol_slots) empty_symbol in
    let later = lookup_from symbols name left (step + 1) in
    if not s.used then none else if holds s name then some s.value else later

unfoldable pub lookup_symbol : List Symbol → List ℕ → Option ℕ
unfolding lookup_from
lookup_symbol symbols name = lookup_from symbols name symbol_slots 0

-- The slot once the name's bytes are copied over the front of its buffer.
unfoldable pub fill : Symbol → List ℕ → ℕ → Symbol
fill s bytes value = record {
  used = true;
  name_len = length bytes;
  name = bytes ++ drop (length bytes) s.name;
  value = value;
}

unfoldable pub insert_from :
    List Symbol → List ℕ → ℕ → ℕ → ℕ → List Symbol × Result ParseError (Unit {0})
unfolding hash holds fill
insert_from symbols bytes value zero step = (symbols, err symbol_table_full)
insert_from symbols bytes value (suc left) step =
    let i = (hash bytes + step) % symbol_slots in
    let s = get_or symbols i empty_symbol in
    let later = insert_from symbols bytes value left (step + 1) in
    if not s.used || holds s bytes then (set symbols i (fill s bytes value), ok tt) else later

unfoldable pub insert_symbol :
    NameBuf → ℕ → List Symbol → List Symbol × Result ParseError (Unit {0})
unfolding insert_from as_slice
insert_symbol name value symbols = insert_from symbols (as_slice name) value symbol_slots 0
