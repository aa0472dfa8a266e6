-- ===== src/Drivers/Repl/Tests.antt =====
-- src/drivers/repl.rs: the theorems at concrete lines and names.
use hr_os.Prelude.{◌≤◌, [], if◌then◌else◌, ◌≡◌, ◌≢◌, refl, arith, ◌++◌, codes, replicate}
use hr_os.Caps.Registry.{registry_bits, is_claimed}
use hr_os.Caps.Registry.Laws
use hr_os.Caps.Tokens.{resolve_name}
use hr_os.Compiler.Names.{NameBuf, as_slice}
use hr_os.Drivers.Repl.{Line, evaluating, prompt, feed, do_claim, do_drop, take_line}
use hr_os.Drivers.Repl.Editor.{IsValid, text, edit, show, feed-edits}
use hr_os.Drivers.Repl.Owners.{Reach, claims, names, boot, next, claimed_by_name, Reach-exclusive}
use hr_os.Caps.Tokens.Ledger.{Ledger, count, after_claim}
use hr_os.Drivers.Repl.Claims.{Claims, Drops, registry_commands}

-- `le`, with the buffer of 128 bytes.
abbrev le : Line
le = record { line_buf = codes "le" ++ replicate 126 0; line_len = 2 }

le-IsValid : IsValid le
le-IsValid = record { size = refl; fits = omega arith }

feed-edits_example :
    let (state, l', out) = feed 0x7F le in
    IsValid l'
    × (text l' ≡ edit 0x7F (codes "le"))
    × (state ≢ evaluating → show (codes "holy> le") out ≡ prompt ++ text l')
feed-edits_example = feed-edits 0x7F le le-IsValid

abbrev led_port : NameBuf
led_port = record { len = 5; bytes = codes "GPIOB" ++ replicate 11 0 }

registry_commands_example :
    Claims registry_bits (resolve_name (as_slice led_port)) 1 (do_claim led_port registry_bits).0
    × Drops registry_bits (resolve_name (as_slice led_port)) 1 (do_drop led_port registry_bits).0
registry_commands_example =
    registry_commands led_port registry_bits 1
      (let v : Laws.IsValid registry_bits = omega arith in v) (omega arith)

taken : (take_line le).1 ≡ codes "le"
unfolding take_line
taken = refl

-- GPIOB claimed by a token, and then by its name.
abbrev owned : Ledger
owned = claimed_by_name led_port (after_claim 1 (record { bits = registry_bits; live = [] }))

owned-Reach : Reach owned
owned-Reach =
    next
      (next (boot registry_bits (let v : Laws.IsValid registry_bits = omega arith in v))
        (claims _ 1 (omega arith)))
      (names _ led_port)

Reach-exclusive_example : count 1 owned.live ≤ (if is_claimed owned.bits 1 then 1 else 0)
Reach-exclusive_example = Reach-exclusive 1 owned-Reach (omega arith)
