-- ===== src/Functions.antt =====
-- functions/: the commands that the device offers, and their registration. The rest of the device is
-- a parameter `E`; what `system`, the clock and `reboot` do to it are parameters too.
pub mod Network
pub mod Media
pub mod System
pub mod Table
pub mod Enter
