-- ===== src/RecvBuffer.antt =====
-- `PoolRecvBuffer` of EpollChatServer.h: a ring buffer whose capacity is a power of two.
pub mod PowerOfTwo
pub mod Inv
pub mod Refine
pub mod Copy
pub mod Write
pub mod Append
use linux.Base.{
  ℕ, ◌+◌, ◌-◌, ◌/◌, ◌%◌, ◌^◌, min, bit_and, bit_or, Option, none, some, [], ◌++◌, Bytes, u64_mod,
  ltb, leb, ◌==◌, if◌then◌else◌, length, take, drop, replicate,
}

-- `m_buf`, `m_read` and `m_size`; `m_buf.size()` is the length of `buf`. The differences below are taken
-- only where they do not go below 0, as long as the invariant of `Inv` holds.
pub record RecvBuffer : Type 0 where
  pub buf : Bytes
  pub read : ℕ
  pub size : ℕ

-- `n |= n >> k`
abbrev or_shift : ℕ → ℕ → ℕ
or_shift k n = bit_or n (n / 2 ^ k)

-- The six rounds that copy the highest set bit of a 64-bit word to all bits below it.
smear : ℕ → ℕ
smear n = or_shift 32 (or_shift 16 (or_shift 8 (or_shift 4 (or_shift 2 (or_shift 1 n)))))

-- From the test `(n & (n - 1)) == 0` on.
round_up : ℕ → ℕ
round_up n = if bit_and n (n - 1) == 0 then n else (smear (n - 1) + 1) % u64_mod

pub next_power_of_two : ℕ → ℕ
next_power_of_two x = round_up (if leb x 1 then 1 else x)

-- The constructor: `std::vector<uint8_t>(n)` is zero-filled.
pub init : ℕ → RecvBuffer
init initial_capacity = record {
  buf = replicate (next_power_of_two initial_capacity) 0;
  read = 0;
  size = 0;
}

-- `memcpy(buf + pos, src, length src)`, inside the buffer.
pub copy_in : Bytes → ℕ → Bytes → Bytes
copy_in buf pos src = take pos buf ++ (src ++ drop (pos + length src) buf)

-- `x & mask` for `mask = m_buf.size() - 1`.
abbrev masked : Bytes → ℕ → ℕ
masked buf x = bit_and (x % u64_mod) (length buf - 1)

-- The stored bytes at the start of the new storage.
move_to : Bytes → RecvBuffer → Bytes
move_to new_buf r =
    let first = min r.size (length r.buf - r.read) in
    let one = copy_in new_buf 0 (take first (drop r.read r.buf)) in
    if ltb first r.size then copy_in one first (take (r.size - first) r.buf) else one

pub ensure_capacity_for_append : ℕ → RecvBuffer → RecvBuffer
ensure_capacity_for_append append_len r =
    if leb append_len (length r.buf - r.size) then r else record r {
      buf = move_to (replicate (next_power_of_two ((r.size + append_len) % u64_mod)) 0) r;
      read = 0;
    }

-- The two copies of `append`: up to the end of the storage, and the rest at its start.
pub copy_round : Bytes → ℕ → Bytes → Bytes
copy_round buf write_pos src =
    let first = min (length src) (length buf - write_pos) in
    let one = copy_in buf write_pos (take first src) in
    if ltb first (length src) then copy_in one 0 (drop first src) else one

-- `append` after the capacity is there.
put_bytes : Bytes → RecvBuffer → RecvBuffer
put_bytes src r = record r {
  buf = copy_round r.buf (masked r.buf (r.read + r.size)) src;
  size = (r.size + length src) % u64_mod;
}

pub append : Bytes → RecvBuffer → RecvBuffer
append src r =
    if length src == 0 then r else put_bytes src (ensure_capacity_for_append (length src) r)

-- `none` is the answer `false`, which leaves `dst` alone.
pub peek : ℕ → ℕ → RecvBuffer → Option Bytes
peek len offset r =
    if ltb r.size ((offset + len) % u64_mod)
    then none
    else let start = masked r.buf (r.read + offset) in
      let first = min len (length r.buf - start) in
      some
        (take first (drop start r.buf) ++ (if ltb first len then take (len - first) r.buf else []))

-- `peekString`; the empty string stands for a failure too.
pub peek_string : ℕ → ℕ → RecvBuffer → Bytes
peek_string offset len r =
    if len == 0 then [] else elim (peek len offset r) [ none ↦ [] | some s ↦ s ]

pub consume : ℕ → RecvBuffer → RecvBuffer
consume len r =
    if leb r.size len
    then record r { read = 0; size = 0 }
    else record r { read = masked r.buf (r.read + len); size = r.size - len }
