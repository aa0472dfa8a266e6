-- ===== src/Drivers/Repl/Owners.antt =====
-- src/drivers/repl.rs and src/capabilities/tokens.rs: the tokens of the code and the claim and drop
-- commands, which change the same registry and know nothing of the tokens.
use hr_os.Prelude.{
  ℕ, ◌≤◌, ◌<◌, ◌≡◌, ap, true, Option, none, some, List, [], arith, ◌==◌, if◌then◌else◌, get_or, ◌/◌,
  ◌%◌, Bool-cases, inl, inr, ◌∙◌,
}
use mathlib.Core.Path.{subst, sym}
use hr_os.Prelude.Bits.{test_bit-le}
use hr_os.Caps.Registry.{RegistryBits, max_resources, is_claimed}
use hr_os.Caps.Registry.Laws.{IsValid, bit_at, is_claimed_lem, available_lem, acquire_lem}
use hr_os.Caps.Tokens.{Cap, resolve_name}
use hr_os.Caps.Tokens.Ledger.{
  Ledger, count, after_claim, after_drop, Inv, claims-Inv, drops-Inv, count-after_claim,
}
use hr_os.Compiler.Names.{NameBuf, as_slice}
use hr_os.Drivers.Repl.{do_claim, do_drop}
use hr_os.Drivers.Repl.Claims.{Claims, Drops, registry_commands, named-lt}

abbrev pub claimed_by_name : NameBuf → Ledger → Ledger
claimed_by_name name s = record s { bits = (do_claim name s.bits).0 }

abbrev pub dropped_by_name : NameBuf → Ledger → Ledger
dropped_by_name name s = record s { bits = (do_drop name s.bits).0 }

-- No token of the resource, if there is one, exists.
abbrev pub IsUnheld : List ℕ → Option ℕ → Type 0
IsUnheld live none = Unit
IsUnheld live (some id) = count id live ≡ 0

-- A claim hands out a token when it wins, and a drop consumes a token that its caller holds; the
-- commands claim any resource by its name, and drop one that has no token.
pub data Step : Ledger → Ledger → Type 0 where
  claims : (s : Ledger) (i : ℕ) → i < max_resources → Step s (after_claim i s)
  drops : (s : Ledger) (cap : Cap) → 0 < count cap.id s.live → Step s (after_drop cap s)
  names : (s : Ledger) (name : NameBuf) → Step s (claimed_by_name name s)
  frees :
      (s : Ledger) (name : NameBuf)
      → IsUnheld s.live (resolve_name (as_slice name))
      → Step s (dropped_by_name name s)

-- The section of the registry is not cleared at boot: its contents are arbitrary.
pub data Reach : Ledger → Type 0 where
  boot : (bits : RegistryBits) → IsValid bits → Reach (record { bits = bits; live = [] })
  next : {s t : Ledger} → Reach s → Step s t → Reach t

Claims-IsValid :
    (bits : RegistryBits) (found : Option ℕ) (j : ℕ) (after : RegistryBits)
    → IsValid bits
    → Claims bits found j after
    → IsValid after
Claims-IsValid bits none j after v c = subst IsValid (sym c) v
Claims-IsValid bits (some id) j after v c = c.1

Drops-IsValid :
    (bits : RegistryBits) (found : Option ℕ) (j : ℕ) (after : RegistryBits)
    → IsValid bits
    → Drops bits found j after
    → IsValid after
Drops-IsValid bits none j after v c = subst IsValid (sym c) v
Drops-IsValid bits (some id) j after v c = c.1

-- A resource stays claimed under a claim, and under a drop of another one.
Claims-held :
    (bits : RegistryBits) (found : Option ℕ) (j : ℕ) (after : RegistryBits)
    → Claims bits found j after
    → is_claimed bits j ≡ true
    → is_claimed after j ≡ true
Claims-held bits none j after c e = ap (λ b. is_claimed b j) c ∙ e
Claims-held bits (some id) j after c e = ground (arith, c.0, e)

Drops-held :
    (bits : RegistryBits) (found : Option ℕ) (j : ℕ) (live : List ℕ) (after : RegistryBits)
    → Drops bits found j after
    → IsUnheld live found
    → 0 < count j live
    → is_claimed bits j ≡ true
    → is_claimed after j ≡ true
Drops-held bits none j live after c free some_token e = ap (λ b. is_claimed b j) c ∙ e
Drops-held bits (some id) j live after c free some_token e = elim (Bool-cases (j == id)) [
  | inl same ↦
      let at : j ≡ id = ground (arith, same) in
      let gone : count j live ≡ 0 = ap (λ (k : ℕ). count k live) at ∙ free in absurd (omega arith)
  | inr other ↦ ground (arith, c.0, e, other)
]

-- With its token's bit kept, the ledger stays in order.
held_after :
    (s : Ledger) (after : RegistryBits) (j : ℕ)
    → Inv s
    → IsValid after
    → j < max_resources
    → (0 < count j s.live → is_claimed s.bits j ≡ true → is_claimed after j ≡ true)
    → count j s.live ≤ bit_at after j
held_after s after j v valid h keeps = ground (
  arith,
  v.held j h,
  keeps,
  is_claimed_lem j v.valid h,
  is_claimed_lem j valid h,
  test_bit-le (get_or s.bits (j / 32) 0) (j % 32),
)

names-Inv : (s : Ledger) (name : NameBuf) → Inv s → Inv (claimed_by_name name s)
names-Inv s name v =
    let found = resolve_name (as_slice name) in
    let after = (do_claim name s.bits).0 in
    let valid =
      Claims-IsValid s.bits found 0 after v.valid
        (registry_commands name s.bits 0 v.valid (omega arith)).0 in
    record {
      valid = valid;
      small = v.small;
      held = λ j h.
          held_after s after j v valid h
            (λ _. Claims-held s.bits found j after (registry_commands name s.bits j v.valid h).0);
    }

frees-Inv :
    (s : Ledger) (name : NameBuf)
    → IsUnheld s.live (resolve_name (as_slice name))
    → Inv s
    → Inv (dropped_by_name name s)
frees-Inv s name free v =
    let found = resolve_name (as_slice name) in
    let after = (do_drop name s.bits).0 in
    let valid =
      Drops-IsValid s.bits found 0 after v.valid
        (registry_commands name s.bits 0 v.valid (omega arith)).1 in
    record {
      valid = valid;
      small = v.small;
      held = λ j h. held_after s after j v valid h (
          Drops-held s.bits found j s.live after (registry_commands name s.bits j v.valid h).1
            free);
    }

Step-Inv : {s t : Ledger} → Step s t → Inv s → Inv t
Step-Inv (claims s i h) v = claims-Inv s i h v
Step-Inv (drops s cap h) v = drops-Inv s cap h v
Step-Inv (names s name) v = names-Inv s name v
Step-Inv (frees s name free) v = frees-Inv s name free v

Reach-Inv : {s : Ledger} → Reach s → Inv s
Reach-Inv (boot bits valid) = record { valid = valid; small = tt; held = λ j h. omega arith }
Reach-Inv (next r st) = Step-Inv st (Reach-Inv r)

-- From any contents of the registry, with no token yet, and whatever tokens are claimed and dropped
-- and whatever claim and drop commands run, as long as no command drops a resource that has a token:
-- a resource below 256 has at most one token, and none unless the registry marks it as claimed. The
-- unsafe `steal` and raw writes to the registry are not among the steps.
pub Reach-exclusive :
    {s : Ledger} (j : ℕ)
    → Reach s
    → j < max_resources
    → count j s.live ≤ (if is_claimed s.bits j then 1 else 0)
Reach-exclusive {s} j r h =
    let v = Reach-Inv r in
    ground (
      arith,
      v.held j h,
      is_claimed_lem j v.valid h,
      test_bit-le (get_or s.bits (j / 32) 0) (j % 32),
    )

-- A drop command on a resource that has a token frees it all the same, and the next claim hands out
-- a second token.
pub drop-second_token :
    {s : Ledger} (name : NameBuf) (id : ℕ)
    → Reach s
    → resolve_name (as_slice name) ≡ some id
    → count id s.live ≡ 1
    → count id (after_claim id (dropped_by_name name s)).live ≡ 2
drop-second_token {s} name id r e one =
    let v = Reach-Inv r in
    let lt : id < 256 = named-lt (as_slice name) id e in
    let after = (do_drop name s.bits).0 in
    let freed : Drops s.bits (some id) id after =
      subst (λ found. Drops s.bits found id after) e
        (registry_commands name s.bits id v.valid lt).1 in
    ground (
      arith,
      freed.0,
      one,
      count-after_claim (dropped_by_name name s) id id,
      ap (λ r. r.1) (acquire_lem id freed.1 lt),
      available_lem id freed.1 lt,
      is_claimed_lem id freed.1 lt,
      test_bit-le (get_or after (id / 32) 0) (id % 32),
    )
