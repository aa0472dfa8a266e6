-- ===== src/Caps/Audit/Recent.antt =====
-- src/capabilities/audit.rs: what the ring holds after any number of events.
use hr_os.Prelude.{
  ℕ, zero, suc, ◌+◌, ◌-◌, ◌%◌, ◌^◌, ◌<◌, ◌≡◌, refl, ap, ◌∙◌, List, [], ◌∷◌, arith, length,
  length-set, get_or, get_or-set_self, get_or-set_ne, set, min,
}
use hr_os.Caps.Audit.{AuditEntry, AuditLog, blank, new, record_event, total_audits, entries}

-- The log after a history of events, newest first.
unfoldable pub replay : List AuditEntry → AuditLog
unfolding new
replay [] = new
replay (e ∷ history) = record_event e.timestamp_cycles e.addr e.val (replay history)

record Placed (history : List AuditEntry) (log : AuditLog) : Type 0 where
  slots : length log.buffer ≡ 16
  head_at : log.head ≡ length history % 16
  total : log.count ≡ min (length history) (2 ^ 32 - 1)

replay-Placed : (history : List AuditEntry) → Placed history (replay history)
unfolding replay record_event new
replay-Placed [] = record { slots = refl; head_at = refl; total = refl }
replay-Placed (e ∷ history) =
    let p = replay-Placed history in
    record {
      slots = length-set (replay history).buffer (replay history).head _ ∙ p.slots;
      head_at = omega (arith, p);
      total = omega (arith, p);
    }

replay-slot :
    (history : List AuditEntry) (a : ℕ)
    → a < 16
    → a < length history
    → get_or (replay history).buffer (((replay history).head + 15 - a) % 16) blank
      ≡ get_or history a blank
unfolding replay record_event
replay-slot [] a h k = absurd (omega arith)
replay-slot (e ∷ history) zero h k =
    let log = replay history in
    let p = replay-Placed history in
    ap (λ i. get_or (set log.buffer log.head e) i blank) (omega (arith, p))
    ∙ get_or-set_self log.buffer log.head e blank (omega (arith, p))
replay-slot (e ∷ history) (suc a) h k =
    let log = replay history in
    let p = replay-Placed history in
    ap (λ i. get_or (set log.buffer log.head e) i blank) {y = (log.head + 15 - a) % 16}
      (omega (arith, p))
    ∙ get_or-set_ne log.buffer {i = log.head} {j = (log.head + 15 - a) % 16} e blank
        (omega (arith, p))
    ∙ replay-slot history a (omega arith) (omega arith)

-- After any history the log holds its last sixteen events, the event of age `a` in the slot that
-- lies `a + 1` behind the head; and the total is the number of events, up to the largest `u32`.
pub replay-recent :
    (history : List AuditEntry) (a : ℕ)
    → a < 16
    → a < length history
    → (get_or (entries (replay history)) (((replay history).head + 15 - a) % 16) blank
        ≡ get_or history a blank)
      × (total_audits (replay history) ≡ min (length history) (2 ^ 32 - 1))
unfolding total_audits entries
replay-recent history a h k = (replay-slot history a h k, (replay-Placed history).total)
