-- ===== src/Caps/Audit.antt =====
-- src/capabilities/audit.rs: the ring of the last sixteen operations under the superuser capability.
-- The cycle counter is a hardware register: its reading is an argument.
pub mod Recent
use hr_os.Prelude.{ℕ, ◌+◌, ◌-◌, ◌%◌, ◌^◌, List, set, replicate, min}

pub record AuditEntry : Type 0 where
  pub addr : ℕ
  pub val : ℕ
  pub timestamp_cycles : ℕ

pub record AuditLog : Type 0 where
  pub buffer : List AuditEntry
  pub head : ℕ
  pub count : ℕ

abbrev pub blank : AuditEntry
blank = record { addr = 0; val = 0; timestamp_cycles = 0 }

unfoldable pub new : AuditLog
new = record { buffer = replicate 16 blank; head = 0; count = 0 }

-- `count.saturating_add(1)` on a 32-bit `usize`.
unfoldable pub record_event : ℕ → ℕ → ℕ → AuditLog → AuditLog
record_event cycles addr val log = record {
  buffer = set log.buffer log.head (record { addr = addr; val = val; timestamp_cycles = cycles });
  head = (log.head + 1) % 16;
  count = min (log.count + 1) (2 ^ 32 - 1);
}

unfoldable pub total_audits : AuditLog → ℕ
total_audits log = log.count

unfoldable pub entries : AuditLog → List AuditEntry
entries log = log.buffer
