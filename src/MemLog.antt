-- ===== src/MemLog.antt =====
-- The log in memory that serves as the serial port of a second kind of build,
-- QSD8250Pkg/Library/InMemorySerialPortLib/InMemorySerialPortLib.c. The write-back of the cache changes
-- no byte.
pub mod Ring
mod Tests
use htc_leo_pkg.Prelude.{ℕ, ◌+◌, List, [], ◌∷◌, leb, if◌then◌else◌, set, length}

-- PcdPstoreSize of QSD8250Pkg.dec.
abbrev pub size : ℕ
size = 0x200000

-- The bytes at PcdPstoreAddress, and the static `offset`.
pub record MemLog : Type 0 where
  pub base : List ℕ
  pub offset : ℕ

pub mem_putchar : ℕ → MemLog → MemLog
mem_putchar c s = record {
  base = set s.base s.offset c;
  offset = if leb size (s.offset + 1) then 0 else s.offset + 1;
}

pub put_all : List ℕ → MemLog → MemLog
unfolding mem_putchar
put_all [] s = s
put_all (c ∷ buffer) s = put_all buffer (mem_putchar c s)

-- The number of bytes and the log.
pub serial_port_write : List ℕ → MemLog → ℕ × MemLog
unfolding put_all
serial_port_write buffer s = (length buffer, put_all buffer s)
