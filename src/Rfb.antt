-- ===== src/Rfb.antt =====
-- src/utils/regirfb: the program that shows the screen of the device over HTTP.
pub mod Color
pub mod Bitmap
pub mod Frames
pub mod Requests
pub mod Runs
