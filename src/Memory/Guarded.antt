-- ===== src/Memory/Guarded.antt =====
-- src/kernel/memory.rs: what the guarded accesses let through, and what they change.
use mathlib.Core.Option.{some-injective, none-ne-some}
use hr_os.Prelude.{
  refl, Bool-cases, ap, sym, ◌∙◌, ℕ, ◌+◌, ◌*◌, ◌^◌, ◌<◌, ◌≡◌, true, false, none, some, Option-cases,
  inl, inr, ok, err, arith, ◌⊎◌, ◌↔◌, set,
}
use hr_os.Caps.Registry.{is_claimed}
use hr_os.Caps.Access.{
  CapId, index, addr_to_cap_id, is_superuser_active, check_access, is_ram_flash,
}
use hr_os.Caps.Audit.{record_event}
use hr_os.Memory.Flat.{peek_u32, poke_u32, words_at-poke_apart, words_at-poke}
use hr_os.Memory.Guard.{
  Board, Machine, bits, log_size, overlaps, write_volatile, capability_violation, enforced_poke_u32,
  enforced_peek_u32,
}

write-Keeps :
    (board : Board) (addr value : ℕ) (m : Machine)
    → (bits board (write_volatile board addr value m) ≡ bits board m)
      ⊎ (overlaps addr board.registry_at 32 ≡ true)
unfolding write_volatile
write-Keeps board addr value m = elim (Bool-cases (overlaps addr board.registry_at 32)) [
  | inl hit ↦ inr hit
  | inr apart ↦
      inl (words_at-poke_apart 8 addr board.registry_at value m.mem (ground (arith, apart)))
]

written_mem :
    (board : Board) (addr value : ℕ) (m : Machine)
    → (write_volatile board addr value m).mem ≡ poke_u32 addr value m.mem
unfolding write_volatile
written_mem board addr value m = refl

write_log :
    (board : Board) (addr value : ℕ) (m : Machine)
    → ((write_volatile board addr value m).log ≡ m.log)
      ⊎ (overlaps addr board.log_at log_size ≡ true)
unfolding write_volatile
write_log board addr value m = elim (Bool-cases (overlaps addr board.log_at log_size)) [
  | inl hit ↦ inr hit
  | inr apart ↦ inl (rw apart refl)
]

-- A guarded write either is refused and changes nothing, and so is a guarded read: exactly when the
-- superuser capability is not held and the address belongs to a peripheral that is not claimed. Or
-- it writes the word, and a guarded read gives what was there; the log gains an entry exactly under
-- the superuser. The write leaves the registry and the log alone unless the word overlaps them.
pub enforced_poke_u32_lem :
    (board : Board) (cycles addr value : ℕ) (m : Machine)
    → let (m', r) = enforced_poke_u32 board cycles addr value m in
      ((m' ≡ m)
        × (r ≡ err capability_violation)
        × (enforced_peek_u32 board addr m ≡ err capability_violation)
        × (is_superuser_active (bits board m) ≡ false)
        × ((c : CapId) × (addr_to_cap_id board.arch addr ≡ some c)
            × (is_claimed (bits board m) (index c) ≡ false)))
      ⊎ ((m'.mem ≡ poke_u32 addr value m.mem)
          × (r ≡ ok tt)
          × (enforced_peek_u32 board addr m ≡ ok (peek_u32 addr m.mem))
          × ((bits board m' ≡ bits board m) ⊎ (overlaps addr board.registry_at 32 ≡ true))
          × ((is_superuser_active (bits board m) ≡ true)
                × ((m'.log ≡ record_event cycles addr value m.log)
                    ⊎ (overlaps addr board.log_at log_size ≡ true))
              ⊎ (is_superuser_active (bits board m) ≡ false)
                × ((m'.log ≡ m.log) ⊎ (overlaps addr board.log_at log_size ≡ true))
                × ((c : CapId)
                    → addr_to_cap_id board.arch addr ≡ some c
                    → is_claimed (bits board m) (index c) ≡ true)))
unfolding enforced_poke_u32 enforced_peek_u32
enforced_poke_u32_lem board cycles addr value m =
    let recorded : Machine = record m { log = record_event cycles addr value m.log } in
    let keeps = write-Keeps board addr value m in
    let logs = write_log board addr value m in
    elim (Bool-cases (is_superuser_active (bits board m))) [
      | inl on ↦ rw on (
          inr (
            written_mem board addr value recorded,
            refl,
            refl,
            write-Keeps board addr value recorded,
            inl (refl, write_log board addr value recorded),
          ))
      | inr off ↦ elim (Option-cases (addr_to_cap_id board.arch addr)) [
        | inl free ↦
            rw (off, free)
              (inr (
                written_mem board addr value m,
                refl,
                refl,
                keeps,
                inr (refl, logs, λ c e. absurd (none-ne-some c e)),
              ))
        | inr (c, guarded) ↦ elim (Bool-cases (is_claimed (bits board m) (index c))) [
          | inl held ↦
              rw (off, guarded, held)
                (inr (
                  written_mem board addr value m,
                  refl,
                  refl,
                  keeps,
                  inr (
                    refl,
                    logs,
                    λ d e.
                        ap (λ k. is_claimed (bits board m) (index k)) (sym (some-injective c d e))
                        ∙ held,
                  ),
                ))
          | inr missing ↦
              rw (off, guarded, missing) (inl (refl, refl, refl, refl, (c, refl, missing)))
        ]
      ]
    ]

-- Without any capability, a guarded write of a `u32` to word `i` of the registry, at an address that
-- is no peripheral's, puts that word in place: it claims and releases whatever its bits say.
pub enforced_poke-registry :
    (board : Board) (cycles i value : ℕ) (m : Machine)
    → i < 8
    → value < 2 ^ 32
    → addr_to_cap_id board.arch (board.registry_at + 4 * i) ≡ none
    → let (m', r) = enforced_poke_u32 board cycles (board.registry_at + 4 * i) value m in
      (r ≡ ok tt) × (bits board m' ≡ set (bits board m) i value)
unfolding enforced_poke_u32 write_volatile
enforced_poke-registry board cycles i value m lt small free =
    let placed : bits board (write_volatile board (board.registry_at + 4 * i) value m)
        ≡ set (bits board m) i value =
      words_at-poke 8 i board.registry_at (board.registry_at + 4 * i) value m.mem lt small refl in
    elim (Bool-cases (is_superuser_active (bits board m))) [
      | inl on ↦ rw on (refl, placed)
      | inr off ↦ rw (off, free) (refl, placed)
    ]

-- A guarded write succeeds exactly when `check_access` grants the address, or refuses it for want of
-- the superuser capability as one that is neither a peripheral's nor memory.
pub enforced-check_access :
    (board : Board) (cycles addr value : ℕ) (m : Machine)
    → ((enforced_poke_u32 board cycles addr value m).1 ≡ ok tt) ↔ (
        (check_access board.arch (bits board m) addr ≡ ok tt)
        ⊎ ((check_access board.arch (bits board m) addr ≡ err CapId.super_user)
            × (addr_to_cap_id board.arch addr ≡ none)
            × (is_ram_flash board.arch addr ≡ false)))
unfolding enforced_poke_u32 check_access
enforced-check_access board cycles addr value m =
    elim (Bool-cases (is_superuser_active (bits board m))) [
      | inl on ↦ rw on (λ _. inl refl, λ _. refl)
      | inr off ↦ elim (Option-cases (addr_to_cap_id board.arch addr)) [
        | inl free ↦ elim (Bool-cases (is_ram_flash board.arch addr)) [
          | inl memory ↦ rw (off, free, memory) (λ _. inl refl, λ _. refl)
          | inr unmapped ↦ rw (off, free, unmapped) (λ _. inr (refl, refl, refl), λ _. refl)
        ]
        | inr (c, guarded) ↦ elim (Bool-cases (is_claimed (bits board m) (index c))) [
          | inl held ↦ rw (off, guarded, held) (λ _. inl refl, λ _. refl)
          | inr missing ↦ (
            λ e. absurd (ground (arith, off, guarded, missing, e)),
            λ granted. ground (arith, off, guarded, missing, granted),
          )
        ]
      ]
    ]
