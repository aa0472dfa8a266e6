-- ===== src/Drivers/Uart/RxRing.antt =====
-- src/drivers/uart.rs: the receive ring, one byte at a time, is a FIFO of at most 255 bytes.
use hr_os.Prelude.{
  ℕ, zero, suc, ◌+◌, ◌-◌, ◌%◌, ◌<◌, ◌≡◌, ◌≢◌, refl, ap, Option, none, some, List, [], ◌∷◌, ◌++◌,
  ◌==◌, ltb, if◌then◌else◌, arith, length, get_or, set, length-set,
}
use hr_os.Prelude.Ring.{window, length-window, window-mod, window-push}

pub record Ring : Type 0 where
  pub buf : List ℕ
  pub head : ℕ
  pub tail : ℕ

-- `irq_handler`, given what `poll_get_byte` found.
unfoldable pub irq_handler : Option ℕ → Ring → Ring
irq_handler none ring = ring
irq_handler (some byte) ring =
    let next = (ring.head + 1) % 256 in
    if next == ring.tail
    then ring
    else record ring { buf = set ring.buf ring.head byte; head = next }

unfoldable pub ring_pop : Ring → Ring × Option ℕ
ring_pop ring =
    if ring.tail == ring.head
    then (ring, none)
    else (record ring { tail = (ring.tail + 1) % 256 }, some (get_or ring.buf ring.tail 0))

pub record IsValid (ring : Ring) : Type 0 where
  pub slots : length ring.buf ≡ 256
  pub head_in : ring.head < 256
  pub tail_in : ring.tail < 256

abbrev pub waiting : Ring → ℕ
waiting ring = (ring.head + 256 - ring.tail) % 256

-- The bytes received and not yet read, oldest first.
abbrev pub contents : Ring → List ℕ
contents ring = window 0 ring.buf ring.tail (waiting ring)

waiting-window :
    (ring : Ring)
    → waiting ring ≢ 0
    → contents ring
      ≡ get_or ring.buf (ring.tail % 256) 0 ∷ window 0 ring.buf (ring.tail + 1) (waiting ring - 1)
waiting-window ring h = go (waiting ring) h
  where
    go :
        (n : ℕ)
        → n ≢ 0
        → window 0 ring.buf ring.tail n
          ≡ get_or ring.buf (ring.tail % 256) 0 ∷ window 0 ring.buf (ring.tail + 1) (n - 1)
    go zero p = absurd (p refl)
    go (suc n) p =
        ap (λ k. get_or ring.buf (ring.tail % 256) 0 ∷ window 0 ring.buf (ring.tail + 1) k)
          (omega arith)

-- The interrupt handler adds a received byte behind the others, or drops it when 255 are waiting;
-- with no byte to receive it changes nothing. The ring stays well formed.
pub irq_handler_refines :
    {ring : Ring} (received : Option ℕ)
    → IsValid ring
    → (contents (irq_handler received ring) ≡ elim received [
      | some byte ↦
          if ltb (length (contents ring)) 255 then contents ring ++ byte ∷ [] else contents ring
      | none ↦ contents ring
    ])
      × IsValid (irq_handler received ring)
unfolding irq_handler
irq_handler_refines none v = (refl, v)
irq_handler_refines {ring} (some byte) v = ground (
  arith,
  length-set ring.buf ring.head byte,
  length-window 0 ring.buf ring.tail (waiting ring),
  window-push 0 ring.buf ring.tail (waiting ring) ring.head byte,
)

abbrev pub uncons : List ℕ → List ℕ × Option ℕ
uncons [] = ([], none)
uncons (b ∷ bs) = (bs, some b)

-- A pop takes the oldest byte, or says that there is none, and the ring stays well formed.
pub ring_pop_refines :
    {ring : Ring}
    → IsValid ring
    → let (ring', byte) = ring_pop ring in
      (contents ring' ≡ (uncons (contents ring)).0)
      × (byte ≡ (uncons (contents ring)).1)
      × IsValid ring'
unfolding ring_pop
ring_pop_refines {ring} v = ground (
  arith,
  waiting-window ring,
  window-mod 0 ring.buf (ring.tail + 1) ((ring.tail + 1) % 256) (waiting ring - 1),
)
