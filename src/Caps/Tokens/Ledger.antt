-- ===== src/Caps/Tokens/Ledger.antt =====
-- src/capabilities/tokens.rs: the tokens that exist, and that each of them has its bit in the registry.
use hr_os.Prelude.{
  ℕ, suc, ◌-◌, ◌≤◌, ◌<◌, ◌≡◌, refl, Bool, true, false, Option, none, some, List, [], ◌∷◌, arith,
  ◌==◌, if◌then◌else◌, All, get_or, ◌/◌, ◌%◌,
}
use hr_os.Prelude.Bits.{test_bit-le}
use hr_os.Caps.Registry.{RegistryBits, max_resources, acquire}
use hr_os.Caps.Registry.Laws.{
  IsValid, bit_at, available_lem, acquire_lem, acquire-IsValid, release-IsValid, bit_at-acquire,
  bit_at-release,
}
use hr_os.Caps.Tokens.{Cap, claim, drop_cap}

-- The registry, and the identifiers of the tokens that exist.
pub record Ledger : Type 0 where
  pub bits : RegistryBits
  pub live : List ℕ

-- How many tokens for resource `j` exist.
abbrev pub count : ℕ → List ℕ → ℕ
count j [] = 0
count j (i ∷ live) = if j == i then suc (count j live) else count j live

abbrev pub remove : ℕ → List ℕ → List ℕ
remove j [] = []
remove j (i ∷ live) = if j == i then live else i ∷ remove j live

-- The tokens once a claim has answered.
abbrev pub minted : Option Cap → List ℕ → List ℕ
minted (some c) live = c.id ∷ live
minted none live = live

unfoldable pub after_claim : ℕ → Ledger → Ledger
after_claim i s = record { bits = (claim i s.bits).0; live = minted (claim i s.bits).1 s.live }

unfoldable pub after_drop : Cap → Ledger → Ledger
after_drop cap s = record { bits = drop_cap cap s.bits; live = remove cap.id s.live }

-- No resource has more tokens than its bit says.
pub record Inv (s : Ledger) : Type 0 where
  pub valid : IsValid s.bits
  pub small : All (λ i. i < max_resources) s.live
  pub held : (j : ℕ) → j < max_resources → count j s.live ≤ bit_at s.bits j

small_of_held :
    (live : List ℕ) (j : ℕ)
    → All (λ i. i < max_resources) live
    → 0 < count j live
    → j < max_resources
small_of_held [] j h p = absurd (omega arith)
small_of_held (i ∷ live) j h p = ground (arith, small_of_held live j h.1)

count-remove :
    (live : List ℕ) (i j : ℕ)
    → 0 < count i live
    → count j (remove i live) ≡ (if j == i then count j live - 1 else count j live)
count-remove [] i j p = absurd (omega arith)
count-remove (k ∷ live) i j p = ground (arith, count-remove live i j)

All-remove :
    (live : List ℕ) (i : ℕ)
    → All (λ i. i < max_resources) live
    → All (λ i. i < max_resources) (remove i live)
All-remove [] i h = tt
All-remove (k ∷ live) i h = ground (arith, All-remove live i h.1)

count-granted :
    (won : Bool) (i j : ℕ) (live : List ℕ)
    → count j (minted (if◌then◌else◌ {A = Option Cap} won (some (record { id = i })) none) live)
      ≡ (if won then count j (i ∷ live) else count j live)
count-granted true i j live = refl
count-granted false i j live = refl

pub count-after_claim :
    (s : Ledger) (i j : ℕ)
    → count j (after_claim i s).live
      ≡ (if (acquire s.bits i).1 then count j (i ∷ s.live) else count j s.live)
unfolding claim after_claim
count-after_claim s i j = count-granted (acquire s.bits i).1 i j s.live

pub claims-Inv : (s : Ledger) (i : ℕ) → i < max_resources → Inv s → Inv (after_claim i s)
unfolding claim after_claim
claims-Inv s i h v = record {
  valid = acquire-IsValid i v.valid h;
  small = ground (arith, v.small);
  held = λ j hj. ground (
    arith,
    v.held j hj,
    v.held i h,
    count-after_claim s i j,
    test_bit-le (get_or s.bits (i / 32) 0) (i % 32),
    acquire_lem i v.valid h,
    available_lem i v.valid h,
    bit_at-acquire i j v.valid h,
  );
}

pub drops-Inv : (s : Ledger) (cap : Cap) → 0 < count cap.id s.live → Inv s → Inv (after_drop cap s)
unfolding drop_cap after_drop
drops-Inv s cap h v =
    let hi = small_of_held s.live cap.id v.small h in
    record {
      valid = release-IsValid cap.id v.valid hi;
      small = All-remove s.live cap.id v.small;
      held = λ j hj. ground (
        arith,
        v.held j hj,
        v.held cap.id hi,
        count-remove s.live cap.id j h,
        bit_at-release cap.id j v.valid hi,
        test_bit-le (get_or s.bits (j / 32) 0) (j % 32),
      );
    }
