-- ===== src/Lib.antt =====
-- Models of the drivers that the Qualcomm QSD8250 phones (HTC Leo, Schubert, Bravo, Passion) need
-- to run UEFI, with proofs. The program is QSD8250Pkg, a package of EDK2; what is modelled is the
-- chain from a pin or an interrupt line to a keystroke; the programs that read keystrokes, which
-- are the menu with its hexadecimal entry field and the Tetris game; the detection of the phone,
-- on which the key table depends; the charging of the battery; the calls to the modem processor with
-- the clocks that are set by them; and the text console and the memory ring that the drivers log
-- to.
--
-- How the parts work together. The primary interrupt controller (Interrupt) keeps a table of
-- handlers and calls the one of the vector it reads. Two of these handlers are dispatchers of
-- their own: the secondary controller (Sirc) for 23 further lines, and the GPIO driver (Gpio) for
-- the pins of eight banks. The keypad device (Keypad.Device) reads pins through the GPIO protocol
-- and runs one state machine for each key (Keypad.Key), which marks the key in two bit sets
-- (Bitmap) and reports a keystroke by a callback. The callback, and all of the text input
-- protocol, is the keypad driver (Keypad.Console): it puts the keystroke in a queue for the
-- readers and, if a notification matches, in a queue for the notifications (Keypad.Queue).
-- The charging driver sets its two pins through the GPIO driver too. The I2C driver
-- is moved on by its interrupts, which may come before any read of its status in a wait and between
-- the assignments of the set-up of a transfer, and after the read of the status in the handler that
-- the transfer calls itself; the rest of the handler runs as one step. The clock driver calls the modem
-- (Pcom), which answers in shared memory; the processor clock is set by its own registers.
--
-- Which file models which part:
--   Interrupt         Drivers/InterruptDxe/InterruptDxe.c, Include/Chipset/interrupts.h and irqs.h
--   Sirc              Drivers/SircDxe/SircDxe.c, Include/Protocol/HtcLeoSirc.h
--   Gpio              Drivers/GpioDxe/GpioDxe.c, Include/Chipset/gpio.h (the pin table: Gpio.Bank)
--   Bitmap            Include/Library/BitmapLib.h, Include/Library/AtomicLib.h
--   Keypad.Queue      Drivers/KeypadDxe/KeypadTextIn.c (the ring), Drivers/KeypadDxe/Keypad.h
--   Keypad.Key        Include/Library/KeypadDeviceHelperLib.h and its library
--   Keypad.Console    Drivers/KeypadDxe/KeypadTextIn.c, KeypadController.c, Keypad.c
--   Keypad.Device     Library/KeypadDeviceImplLib/KeypadDeviceImplLib.c, Include/Device/DeviceType.h
--   Charging          GPLDrivers/ChargingDxe/ChargingDxe.c, Library/DS2746Lib/DS2746.c
--   Pcom              Library/MsmPcomLib/pcom.c, Include/Library/pcom.h
--   Clock             GPLDrivers/ClockDxe: Speed and Table (ClockDxe.c), Acpu (acpuclock.c)
--   Timer             Library/GPTTimerLib/GPTTimerLib.c; Timer.Driver: Drivers/TimerDxe/Timer.c
--   I2c               GPLDrivers/I2CDxe/I2CDxe.c, Include/Chipset/msm_i2c.h
--   Tetris            Application/TetrisApp: Piece (Piece.c, Piece.h), Board and Moves (Board.c),
--                     Core (Core.c)
--   Menu.Options      Application/HtcLeoMenuApp/menu.c
--   Menu.HexInput     Application/HtcLeoMenuApp/HexInput.c
--   Detection         GPLDrivers/DeviceDetectionDxe
--   FbConsole         Library/FrameBufferSerialPortLib/FrameBufferSerialPortLib.c
--   MemLog            Library/InMemorySerialPortLib/InMemorySerialPortLib.c
-- all of them below QSD8250Pkg. Prelude, Word, Bus and Efi are shared: lists and tests, machine
-- words, memory-mapped registers, status codes. A function of the source keeps its name, in snake
-- case, and a structure its fields; a module whose name is below the component's proves things
-- about it, and Tests holds runs on concrete inputs.
--
-- How state is modelled. A function that changes a structure takes it and returns the new one.
-- Registers are read and written through the interface Bus, whose reads may change the hardware;
-- a theorem that needs registers to hold what was written says so by laws of the interface, which
-- the plain memory of Bus meets. A machine integer is a natural number with its wrap-around
-- written out. A fixed array is a list, with the access past its end written out where the source
-- can make one. EFI services, the I2C protocol, the LED, the timer library, the GPIO protocol, the callbacks and the
-- interrupt handlers are arguments of the definitions that use them.
--
-- Bounds and fuel. The loops over a queue have fuel: a queue of 256 entries holds at most 255
-- keys, and each pass takes one, so 256 passes are enough for KeypadReadKeyStroke,
-- KeypadWaitForKey and KeyNotifyProcessHandler. The line removal of Tetris
-- has 41 passes: each pass goes up a line of the 20 visible ones or takes one of the full lines
-- away, and the last one stops. A character of the console is painted at most twice. A dropped
-- piece falls at most 22 rows. The entry field is run over the list of its reads, of which
-- one without a keystroke may leave the last key in place.
-- The loop over missed edges is bounded by 100 in the source. A wait on a register has fuel for its reads
-- (Bus.Poll): with more reads than the register needs to show the value, the wait ends. The loops of a delay have fuel for
-- their reads of the counter. The walk over the boot tags has one
-- pass for each tag and one for the end.
--
-- Not modelled: protocol installation, driver binding and unloading, which only call EFI; tasks'
-- priority levels, since one function runs at a time; what is printed or drawn, but for the
-- colours that Tetris keeps in its fields by drawing; the other drivers, libraries and
-- applications of the package. Copies of EDK2 modules and of the MMC stack are not this program's
-- code.
pub mod Prelude
pub mod Word
pub mod Bus
pub mod Bitmap
pub mod Gpio
pub mod Efi
pub mod Pcom
pub mod Sirc
pub mod I2c
pub mod Interrupt
pub mod Keypad
pub mod Tetris
pub mod Timer
pub mod Menu
pub mod Charging
pub mod Clock
pub mod Detection
pub mod MemLog
pub mod FbConsole
