-- ===== src/Drivers.antt =====
-- src/drivers: the serial port.
pub mod Uart
pub mod Repl
mod Tests
