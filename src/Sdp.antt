-- ===== src/Sdp.antt =====
-- src/utils/regiloader/sdp.cpp and sdp.hpp: the serial download protocol of the processor's ROM.
pub mod Packet
pub mod Commands
pub mod Link
pub mod Image
mod Runs
