-- ===== src/Hal.antt =====
-- hal/aur64: the hardware layer, as far as the console goes: the serial line, the keyboard, the
-- screen and the calls that the kernel makes of them.
pub mod Ports
pub mod Font
pub mod Keyboard
pub mod Console
pub mod Calls
mod Pixels
mod Grid
mod Letters
mod Tests
