-- ===== src/Prelude/Ring.antt =====
-- The occupied part of a ring of 256 slots, as a list, oldest first: shared by the scheduler's
-- queue and the UART's receive ring.
use Prim.Native.Nat.{ℕ, zero, suc, ◌+◌, ◌%◌, ◌≤◌, ◌<◌}
use mathlib.Core.Path.{◌≡◌, refl, ap, ap₂, ◌∙◌}
use mathlib.Core.List.{List, [], ◌∷◌, ◌++◌}
use native.Mathlib.Omega.{arith}
use hr_os.Prelude.Lists.{length, get_or, set, get_or-set_self, get_or-set_ne}

module _ {ℓ} {A : Type ℓ} (d : A) where
  -- The `n` slots from `h` on, going round at 256.
  abbrev pub window : List A → ℕ → ℕ → List A
  window buf h zero = []
  window buf h (suc n) = get_or buf (h % 256) d ∷ window buf (h + 1) n

  pub length-window : (buf : List A) (h n : ℕ) → length (window buf h n) ≡ n
  length-window buf h zero = refl
  length-window buf h (suc n) = ap suc (length-window buf (h + 1) n)

  pub window-mod : (buf : List A) (h k n : ℕ) → h % 256 ≡ k % 256 → window buf h n ≡ window buf k n
  window-mod buf h k zero e = refl
  window-mod buf h k (suc n) e =
      ap₂ ◌∷◌ (ap (λ i. get_or buf i d) e) (window-mod buf (h + 1) (k + 1) n (omega arith))

  -- A write to the slot behind the window leaves the window as it is.
  pub window-set :
      (buf : List A) (h n i : ℕ) (x : A)
      → n < 256
      → i ≡ (h + n) % 256
      → window (set buf i x) h n ≡ window buf h n
  window-set buf h zero i x p e = refl
  window-set buf h (suc n) i x p e =
      ap₂ ◌∷◌ (get_or-set_ne buf {i = i} {j = h % 256} x d (omega arith))
        (window-set buf (h + 1) n i x (omega arith) (omega arith))

  pub window-snoc :
      (buf : List A) (h n : ℕ)
      → window buf h (suc n) ≡ window buf h n ++ get_or buf ((h + n) % 256) d ∷ []
  window-snoc buf h zero = ap (λ i. get_or buf i d ∷ []) (omega arith)
  window-snoc buf h (suc n) =
      ap (λ w. get_or buf (h % 256) d ∷ w)
        (window-snoc buf (h + 1) n
          ∙ ap (λ i. window buf (h + 1) n ++ get_or buf i d ∷ []) (omega arith))

  -- Filling the slot behind the window extends it.
  pub window-push :
      (buf : List A) (h n i : ℕ) (x : A)
      → 256 ≤ length buf
      → n < 256
      → i ≡ (h + n) % 256
      → window (set buf i x) h (suc n) ≡ window buf h n ++ x ∷ []
  window-push buf h n i x s p e =
      window-snoc (set buf i x) h n
      ∙ ap₂ (λ w y. w ++ y ∷ []) (window-set buf h n i x p e)
          (ap (λ k. get_or (set buf i x) k d) (omega arith)
            ∙ get_or-set_self buf i x d (omega arith))
