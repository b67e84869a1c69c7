-- ===== src/Link.antt =====
-- The two ends of the RPMsg link between the EVerest module and the firmware.
pub mod Messages
pub mod Firmware
pub mod Host
pub mod Codec
pub mod Names
pub mod Commands
pub mod Loop
pub mod Access
pub mod Rounds
pub mod Timing
pub mod Endpoint
pub mod Fields
pub mod Backlog
pub mod Module
pub mod Delivery
pub mod Peer
