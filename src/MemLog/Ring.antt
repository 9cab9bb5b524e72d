-- ===== src/MemLog/Ring.antt =====
-- The log keeps the last bytes written, in order, round its end.
use htc_leo_pkg.Prelude.{
  ℕ, zero, suc, ◌+◌, ◌-◌, ◌%◌, ◌<◌, ◌≤◌, ◌≡◌, refl, ap, sym, ◌∙◌, arith, List, [], ◌∷◌, get_or,
  length, length-set, get_or-set_self, get_or-set_ne,
}
use htc_leo_pkg.MemLog.{MemLog, size, mem_putchar, put_all, serial_port_write}

pub record IsLog (s : MemLog) : Type 0 where
  pub storage : length s.base ≡ size
  pub offset_in : s.offset < size

putchar-IsLog : (c : ℕ) (s : MemLog) → IsLog s → IsLog (mem_putchar c s)
unfolding mem_putchar
putchar-IsLog c s v = record {
  storage = length-set s.base s.offset c ∙ v.storage;
  offset_in = ground (arith, v.offset_in);
}

putchar-offset : (c : ℕ) (s : MemLog) → IsLog s → (mem_putchar c s).offset ≡ (s.offset + 1) % size
unfolding mem_putchar
putchar-offset c s v = ground (arith, v.offset_in)

put_all-IsLog : (buffer : List ℕ) (s : MemLog) → IsLog s → IsLog (put_all buffer s)
unfolding put_all
put_all-IsLog [] s v = v
put_all-IsLog (c ∷ buffer) s v = put_all-IsLog buffer (mem_putchar c s) (putchar-IsLog c s v)

put_all-offset :
    (buffer : List ℕ) (s : MemLog)
    → IsLog s
    → (put_all buffer s).offset ≡ (s.offset + length buffer) % size
unfolding put_all
put_all-offset [] s v = omega (arith, v.offset_in)
put_all-offset (c ∷ buffer) s v =
    let ih = put_all-offset buffer (mem_putchar c s) (putchar-IsLog c s v) in
    omega (arith, ih, putchar-offset c s v)

-- A slot that is at least as far ahead as the bytes reach keeps its byte.
kept :
    (buffer : List ℕ) (s : MemLog) (k : ℕ)
    → IsLog s
    → length buffer ≤ k
    → k < size
    → get_or (put_all buffer s).base ((s.offset + k) % size) 0
      ≡ get_or s.base ((s.offset + k) % size) 0
unfolding put_all mem_putchar
kept [] s k v h hk = refl
kept (c ∷ buffer) s zero v h hk = absurd (omega arith)
kept (c ∷ buffer) s (suc k) v h hk =
    let s' = mem_putchar c s in
    let e : (s.offset + suc k) % size ≡ (s'.offset + k) % size =
      omega (arith, putchar-offset c s v) in
    ap (λ (p : ℕ). get_or (put_all buffer s').base p 0) e
    ∙ kept buffer s' k (putchar-IsLog c s v) (omega arith) (omega arith)
    ∙ ap (λ (p : ℕ). get_or s'.base p 0) (sym e)
    ∙ get_or-set_ne s.base s.offset ((s.offset + suc k) % size) c 0 (omega (arith, v.offset_in))

stored :
    (buffer : List ℕ) (s : MemLog) (i : ℕ)
    → IsLog s
    → i < length buffer
    → length buffer ≤ i + size
    → get_or (put_all buffer s).base ((s.offset + i) % size) 0 ≡ get_or buffer i 0
unfolding put_all mem_putchar
stored [] s i v h hs = absurd (omega arith)
stored (c ∷ buffer) s zero v h hs =
    let s' = mem_putchar c s in
    let e : (s.offset + 0) % size ≡ (s'.offset + (size - 1)) % size =
      omega (arith, putchar-offset c s v, v.offset_in) in
    let here : (s'.offset + (size - 1)) % size ≡ s.offset =
      omega (arith, putchar-offset c s v, v.offset_in) in
    ap (λ (p : ℕ). get_or (put_all buffer s').base p 0) e
    ∙ kept buffer s' (size - 1) (putchar-IsLog c s v) (omega arith) (omega arith)
    ∙ ap (λ (p : ℕ). get_or s'.base p 0) here
    ∙ get_or-set_self s.base s.offset c 0 (omega (arith, v.storage, v.offset_in))
stored (c ∷ buffer) s (suc i) v h hs =
    let s' = mem_putchar c s in
    let e : (s.offset + suc i) % size ≡ (s'.offset + i) % size =
      omega (arith, putchar-offset c s v) in
    ap (λ (p : ℕ). get_or (put_all buffer s').base p 0) e
    ∙ stored buffer s' i (putchar-IsLog c s v) (omega arith) (omega arith)

-- A write of any length reports all its bytes and moves the offset on by as many, round the end.
-- Its last 2 MB (all of it, if it is shorter) are then in the log, each byte as far after the old
-- offset as in the buffer.
pub serial_port_write_ring :
    (buffer : List ℕ) (s : MemLog) (i : ℕ)
    → IsLog s
    → i < length buffer
    → length buffer ≤ i + size
    → let (n, s') = serial_port_write buffer s in
      (n ≡ length buffer)
      × IsLog s'
      × (s'.offset ≡ (s.offset + length buffer) % size)
      × (get_or s'.base ((s.offset + i) % size) 0 ≡ get_or buffer i 0)
unfolding serial_port_write
serial_port_write_ring buffer s i v h hs =
    (refl, put_all-IsLog buffer s v, put_all-offset buffer s v, stored buffer s i v h hs)
