-- ===== src/Drivers/Tests.antt =====
-- src/drivers/uart.rs: the theorems at a concrete ring.
use hr_os.Prelude.{
  ℕ, ◌≡◌, refl, some, [], ◌∷◌, ◌++◌, ltb, if◌then◌else◌, arith, length, length-replicate, replicate,
  codes,
}
use hr_os.Drivers.Uart.{write_hex_u32, write_dec_u32}
use hr_os.Drivers.Uart.RxRing.{
  Ring, IsValid, irq_handler, ring_pop, contents, uncons, irq_handler_refines, ring_pop_refines,
}

abbrev wrapped : Ring
wrapped = record { buf = replicate 256 65; head = 1; tail = 254 }

wrapped-IsValid : IsValid wrapped
wrapped-IsValid = record {
  slots = length-replicate {A = ℕ} 256 65;
  head_in = omega arith;
  tail_in = omega arith;
}

irq_handler_refines_example :
    (contents (irq_handler (some 66) wrapped) ≡ (
      if ltb (length (contents wrapped)) 255
      then contents wrapped ++ 66 ∷ []
      else contents wrapped))
    × IsValid (irq_handler (some 66) wrapped)
irq_handler_refines_example = irq_handler_refines (some 66) wrapped-IsValid

ring_pop_refines_example :
    let (ring, byte) = ring_pop wrapped in
    (contents ring ≡ (uncons (contents wrapped)).0)
    × (byte ≡ (uncons (contents wrapped)).1)
    × IsValid ring
ring_pop_refines_example = ring_pop_refines wrapped-IsValid

printed : (write_hex_u32 0xBEEF ≡ codes "0x0000BEEF") × (write_dec_u32 40960 ≡ codes "40960")
unfolding write_hex_u32 write_dec_u32
printed = (refl, refl)
