-- ===== src/Keypad.antt =====
-- The keypad: the queue and the text input protocol of QSD8250Pkg/Drivers/KeypadDxe, the key state
-- machine of Include/Library/KeypadDeviceHelperLib.h.
pub mod Queue
pub mod Key
pub mod Console
pub mod Device
mod Tests
