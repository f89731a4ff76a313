-- ===== src/Cycler.antt =====
-- services/cycler: the channels of a chassis, the safety loops and the Modbus server.
pub mod Channel
pub mod Safety
pub mod Block
pub mod Swap
pub mod Registers
pub mod Mirror
pub mod Events
pub mod Telemetry
pub mod Boot
