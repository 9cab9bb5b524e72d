-- ===== src/Keypad/Queue/Refine.antt =====
-- A valid key queue behaves as a list of at most 255 keys, oldest first.
use htc_leo_pkg.Prelude.{
  ℕ, zero, suc, ◌+◌, ◌-◌, ◌%◌, ◌<◌, ◌≡◌, ◌≢◌, refl, ap, ap₂, sym, ◌∙◌, arith, List, [], ◌∷◌, ◌++◌,
  Option, none, some, ◌==◌, if◌then◌else◌, get_or, set, length, drop, get_or-set_self,
  get_or-set_ne, length-set, ==_ne,
}
use native.Mathlib.Decide.{ℕ_discrete}
use htc_leo_pkg.Efi.{Status, success, not_ready}
use htc_leo_pkg.Keypad.Queue.{
  KeyData, KeyQueue, max_count, zero_key, is_efikey_buf_empty, pop_efikey_buf_head,
  push_efikey_buf_tail,
}

pub record IsValid (q : KeyQueue) : Type 0 where
  pub storage : length q.buffer ≡ max_count
  pub head_in : q.head < max_count
  pub tail_in : q.tail < max_count

-- The keys in the `n` slots from slot `i` on, round the end of the buffer.
abbrev keys_from : List KeyData → ℕ → ℕ → List KeyData
keys_from buf i zero = []
keys_from buf i (suc n) = get_or buf i zero_key ∷ keys_from buf ((i + 1) % max_count) n

abbrev pub count : KeyQueue → ℕ
count q = (q.tail + max_count - q.head) % max_count

abbrev pub contents : KeyQueue → List KeyData
contents q = keys_from q.buffer q.head (count q)

pub length-keys_from : (buf : List KeyData) (i n : ℕ) → length (keys_from buf i n) ≡ n
length-keys_from buf i zero = refl
length-keys_from buf i (suc n) = ap suc (length-keys_from buf ((i + 1) % max_count) n)

-- `keys_from` matches on `suc`, the code tests `head == tail`.
keys_from-pos :
    (buf : List KeyData) (i n : ℕ)
    → n ≢ 0
    → keys_from buf i n ≡ get_or buf i zero_key ∷ keys_from buf ((i + 1) % max_count) (n - 1)
keys_from-pos buf i zero h = absurd (h refl)
keys_from-pos buf i (suc n) h = ap (λ (k : ℕ). keys_from buf i (suc k)) (omega arith)

-- Storing a key in the slot after the last one appends it.
keys_from-set :
    (buf : List KeyData) (key : KeyData) (n i j : ℕ)
    → length buf ≡ max_count
    → i < max_count
    → n < max_count
    → j ≡ (i + n) % max_count
    → keys_from (set buf j key) i (suc n) ≡ keys_from buf i n ++ (key ∷ [])
keys_from-set buf key zero i j len hi hn e =
    let e' : j ≡ i = omega arith in rw e' (rw (get_or-set_self buf i key zero_key (omega arith)))
keys_from-set buf key (suc n) i j len hi hn e =
    ap₂ ◌∷◌ (get_or-set_ne buf j i key zero_key (omega arith)) (
      keys_from-set buf key n ((i + 1) % max_count) j len (omega arith) (omega arith) (omega arith))

-- What a queue that drops its oldest key at 255 does with one more.
abbrev pub push_list : List KeyData → KeyData → List KeyData
push_list keys key = (if length keys == max_count - 1 then drop 1 keys else keys) ++ (key ∷ [])

-- Taking the oldest key.
abbrev pub pop_list : List KeyData → Status × Option KeyData × List KeyData
pop_list [] = (not_ready, none, [])
pop_list (k ∷ ks) = (success, some k, ks)

-- What a caller sees of a pop, with the keys that are left.
abbrev pub popped : KeyQueue → Status × Option KeyData × List KeyData
popped q = let (status, key, q') = pop_efikey_buf_head q in (status, key, contents q')

pub is_efikey_buf_empty_lem : (q : KeyQueue) → is_efikey_buf_empty q ≡ (q.head == q.tail)
unfolding is_efikey_buf_empty
is_efikey_buf_empty_lem q = refl

pub pop_empty : (q : KeyQueue) → q.head ≡ q.tail → pop_efikey_buf_head q ≡ (not_ready, none, q)
unfolding pop_efikey_buf_head
pop_empty q e = ground arith

pub pop_full :
    (q : KeyQueue)
    → q.head ≢ q.tail
    → pop_efikey_buf_head q ≡ (
      success,
      some (get_or q.buffer q.head zero_key),
      record q { head = (q.head + 1) % max_count },
    )
unfolding pop_efikey_buf_head
pop_full q ne = ground arith

pub contents_empty : (q : KeyQueue) → IsValid q → q.head ≡ q.tail → contents q ≡ []
contents_empty q v e = let z : count q ≡ 0 = omega arith in ap (keys_from q.buffer q.head) z

pub contents_full :
    (q : KeyQueue)
    → IsValid q
    → q.head ≢ q.tail
    → contents q
      ≡ get_or q.buffer q.head zero_key ∷ contents (record q { head = (q.head + 1) % max_count })
contents_full q v ne =
    keys_from-pos q.buffer q.head (count q) (omega arith)
    ∙ ap
        (λ (n : ℕ).
          get_or q.buffer q.head zero_key ∷ keys_from q.buffer ((q.head + 1) % max_count) n)
        (omega arith)

-- On a valid queue `PopEfikeyBufHead` reports and takes the oldest key, an empty queue gives
-- EFI_NOT_READY and no key, and the queue stays valid.
pub pop_refines :
    (q : KeyQueue)
    → IsValid q
    → IsValid (pop_efikey_buf_head q).2 × (popped q ≡ pop_list (contents q))
pop_refines q v = elim (ℕ_discrete q.head q.tail) [
  | yes e ↦ rw (pop_empty q e) (v, rw (contents_empty q v e))
  | no ne ↦ rw (pop_full q ne) (omega arith, rw (contents_full q v ne))
]

-- The slot and the head that a push uses.
push_room :
    (q : KeyQueue) (key : KeyData)
    → IsValid q
    → (count q ≡ max_count - 1)
    → push_efikey_buf_tail q key ≡ record {
      buffer = set q.buffer q.tail key;
      head = (q.head + 1) % max_count;
      tail = (q.tail + 1) % max_count;
    }
unfolding push_efikey_buf_tail
push_room q key v full =
    let e : (q.tail + 1) % max_count ≡ q.head = omega arith in
    let ne : q.head ≢ q.tail = omega arith in ground (arith, pop_full q ne)

push_free :
    (q : KeyQueue) (key : KeyData)
    → IsValid q
    → (count q ≢ max_count - 1)
    → push_efikey_buf_tail q key
      ≡ record q { buffer = set q.buffer q.tail key; tail = (q.tail + 1) % max_count }
unfolding push_efikey_buf_tail
push_free q key v room = let ne : (q.tail + 1) % max_count ≢ q.head = omega arith in ground arith

contents_room :
    (q : KeyQueue) (key : KeyData)
    → IsValid q
    → (count q ≡ max_count - 1)
    → contents (record {
      buffer = set q.buffer q.tail key;
      head = (q.head + 1) % max_count;
      tail = (q.tail + 1) % max_count;
    })
      ≡ drop 1 (contents q) ++ (key ∷ [])
contents_room q key v full =
    let h' = (q.head + 1) % max_count in
    ap (keys_from (set q.buffer q.tail key) h') {y = 255} (omega arith)
    ∙ (keys_from-set q.buffer key 254 h' q.tail v.storage (omega arith) (omega arith) (omega arith)
        ∙ ap (λ (l : List KeyData). l ++ (key ∷ []))
            (sym (ap (λ (n : ℕ). drop 1 (keys_from q.buffer q.head n)) full)))

contents_free :
    (q : KeyQueue) (key : KeyData)
    → IsValid q
    → (count q ≢ max_count - 1)
    → contents (record q { buffer = set q.buffer q.tail key; tail = (q.tail + 1) % max_count })
      ≡ contents q ++ (key ∷ [])
contents_free q key v room =
    ap (keys_from (set q.buffer q.tail key) q.head) {y = suc (count q)} (omega arith)
    ∙ keys_from-set q.buffer key (count q) q.head q.tail v.storage v.head_in (omega arith)
        (omega arith)

-- On a valid queue `PushEfikeyBufTail` appends the key, after dropping the oldest one if 255 keys
-- wait, and the queue stays valid.
pub push_refines :
    (q : KeyQueue) (key : KeyData)
    → IsValid q
    → IsValid (push_efikey_buf_tail q key)
      × (contents (push_efikey_buf_tail q key) ≡ push_list (contents q) key)
push_refines q key v =
    let len = length-keys_from q.buffer q.head (count q) in
    let stored = length-set q.buffer q.tail key in
    elim (ℕ_discrete (count q) (max_count - 1)) [
      | yes full ↦
          rw (push_room q key v full)
            (omega (arith, stored), contents_room q key v full ∙ rw (len, full, push_list))
      | no room ↦
          rw (push_free q key v room) (
            omega (arith, stored),
            contents_free q key v room ∙ rw (len, ==_ne _ _ room, push_list),
          )
    ]
