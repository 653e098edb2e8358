-- ===== src/Ymodem.antt =====
-- src/utils/regiloader/ymodem.cpp and ymodem.hpp: the YModem sender of the boot loader.
pub mod Crc
pub mod Frames
pub mod Transfer
mod Runs
