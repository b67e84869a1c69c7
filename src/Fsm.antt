-- ===== src/Fsm.antt =====
-- firmware/lib/iec61851_fsm.cpp: the IEC 61851 state machine.
pub mod Types
pub mod Countdown
pub mod Defs
pub mod Run
pub mod Power
pub mod Frames
pub mod Members
pub mod Contact
pub mod Licence
pub mod Opening
pub mod States
pub mod Calls
pub mod Safety
pub mod Silent
pub mod Faults
pub mod Names
pub mod Clock
pub mod Waiting
pub mod Timing
pub mod Lock
pub mod Reading
pub mod Voltage
pub mod Access
pub mod Mute
pub mod Events
