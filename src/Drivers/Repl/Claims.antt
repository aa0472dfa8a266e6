-- ===== src/Drivers/Repl/Claims.antt =====
-- src/drivers/repl.rs: what `cap_claim` and `cap_drop` do to the registry.
use hr_os.Prelude.{
  ℕ, ◌<◌, ◌≡◌, refl, ap, ◌∙◌, inl, inr, true, not, ◌||◌, ◌&&◌, Bool-cases, Option, none, some, List,
  ◌==◌, arith,
}
use hr_os.Caps.Registry.{RegistryBits, available, is_claimed}
use hr_os.Caps.Registry.Laws.{IsValid}
use hr_os.Caps.Registry.Ownership.{is_claimed-acquire, is_claimed-release}
use hr_os.Caps.Access.{CapId, index, gpio_a, gpio_b, uart0, spi0, i2c0, timer0, dma0, super_user}
use hr_os.Caps.Tokens.{resolve_name}
use hr_os.Caps.Tokens.Names.{resolve_name_iff}
use hr_os.Compiler.Names.{NameBuf, as_slice}
use hr_os.Drivers.Repl.{claim_resolved, do_claim, drop_resolved, do_drop}

index-lt : (c : CapId) → index c < 256
index-lt gpio_a = omega arith
index-lt gpio_b = omega arith
index-lt uart0 = omega arith
index-lt spi0 = omega arith
index-lt i2c0 = omega arith
index-lt timer0 = omega arith
index-lt dma0 = omega arith
index-lt super_user = omega arith

pub named-lt : (n : List ℕ) (id : ℕ) → resolve_name n ≡ some id → id < 256
named-lt n id e = let (c, same, at) = (resolve_name_iff n id).0 e in omega (arith, at, index-lt c)

-- What the registry says of resource `j` afterwards.
abbrev pub Claims : RegistryBits → Option ℕ → ℕ → RegistryBits → Type 0
Claims bits (some id) j after =
    (is_claimed after j ≡ ((j == id) || is_claimed bits j)) × IsValid after
Claims bits none j after = after ≡ bits

abbrev pub Drops : RegistryBits → Option ℕ → ℕ → RegistryBits → Type 0
Drops bits (some id) j after =
    (is_claimed after j ≡ (not (j == id) && is_claimed bits j)) × IsValid after
Drops bits none j after = after ≡ bits

claim-Claims :
    (name : NameBuf) (bits : RegistryBits) (found : Option ℕ) (j : ℕ)
    → IsValid bits
    → ((id : ℕ) → found ≡ some id → id < 256)
    → j < 256
    → Claims bits found j (claim_resolved name found bits).0
unfolding claim_resolved
claim-Claims name bits none j v small lt = refl
claim-Claims name bits (some id) j v small lt =
    let (won, claimed, valid) = is_claimed-acquire id j v (small id refl) lt in (claimed, valid)

free_already :
    (bits : RegistryBits) (id j : ℕ)
    → available bits id ≡ true
    → is_claimed bits j ≡ (not (j == id) && is_claimed bits j)
unfolding is_claimed
free_already bits id j e = elim (Bool-cases (j == id)) [
  | inl same ↦
      let at : j ≡ id = ground (arith, same) in
      rw same (ap (λ k. not (available bits k)) at ∙ ap not e)
  | inr other ↦ rw other refl
]

drop-Drops :
    (name : NameBuf) (bits : RegistryBits) (found : Option ℕ) (j : ℕ)
    → IsValid bits
    → ((id : ℕ) → found ≡ some id → id < 256)
    → j < 256
    → Drops bits found j (drop_resolved name found bits).0
unfolding drop_resolved
drop-Drops name bits none j v small lt = refl
drop-Drops name bits (some id) j v small lt = elim (Bool-cases (available bits id)) [
  | inl e ↦ rw e (free_already bits id j e, v)
  | inr e ↦ rw e (is_claimed-release id j v (small id refl) lt)
]

-- On a well-formed registry, a claim command whose name resolves leaves that resource claimed and a
-- drop command leaves it free, whether it was claimed before or not; every other resource below 256
-- is as it was, and the registry stays well formed. A name that does not resolve changes nothing.
pub registry_commands :
    (name : NameBuf) (bits : RegistryBits) (j : ℕ)
    → IsValid bits
    → j < 256
    → Claims bits (resolve_name (as_slice name)) j (do_claim name bits).0
      × Drops bits (resolve_name (as_slice name)) j (do_drop name bits).0
unfolding do_claim do_drop
registry_commands name bits j v lt = (
  claim-Claims name bits (resolve_name (as_slice name)) j v (named-lt (as_slice name)) lt,
  drop-Drops name bits (resolve_name (as_slice name)) j v (named-lt (as_slice name)) lt,
)
