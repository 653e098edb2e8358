-- ===== src/Loader.antt =====
-- src/utils/regiloader/regiloader.cpp and asio_helper.cpp: the program that loads a board.
pub mod Asio
pub mod State
pub mod Info
pub mod Console
pub mod Boot
pub mod Install
pub mod Register
pub mod Recipe
pub mod Frame
pub mod Startup
pub mod Runs
