-- ===== src/MemLog/Tests.antt =====
-- A write to an empty log, from its last byte on.
use htc_leo_pkg.Prelude.{
  ℕ, ◌+◌, ◌%◌, ◌≡◌, arith, List, [], ◌∷◌, replicate, length, get_or, length-replicate,
}
use htc_leo_pkg.MemLog.{MemLog, size, serial_port_write}
use htc_leo_pkg.MemLog.Ring.{IsLog, serial_port_write_ring}

-- A memory of `n` zeros, which two million are never computed of.
blank : (n : ℕ) → (base : List ℕ) × (length base ≡ n)
blank n = (replicate n 0, length-replicate n 0)

abbrev at_end : MemLog
at_end = record { base = (blank size).0; offset = 0x1fffff }

at_end-IsLog : IsLog at_end
at_end-IsLog = record { storage = (blank size).1; offset_in = omega arith }

abbrev hi : List ℕ
hi = 72 ∷ 73 ∷ []

serial_port_write_ring_example :
    let (n, s') = serial_port_write hi at_end in
    (n ≡ length hi)
    × IsLog s'
    × (s'.offset ≡ (at_end.offset + length hi) % size)
    × (get_or s'.base ((at_end.offset + 1) % size) 0 ≡ get_or hi 1 0)
serial_port_write_ring_example =
    serial_port_write_ring hi at_end 1 at_end-IsLog (omega arith) (omega arith)
