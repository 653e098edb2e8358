-- ===== src/Tftp.antt =====
-- src/utils/regiloader/tftp.cpp and tftp.hpp: the TFTP server that hands files to the board.
pub mod Buffer
pub mod Packets
pub mod Session
pub mod Handlers
pub mod Download
pub mod Server
mod Runs
