-- ===== src/SendBuffer.antt =====
-- `PoolSendBuffer` of EpollChatServer.h. The storage is the list of the `m_size` bytes written so far: what
-- lies behind them is never read. Its memory comes from the memory pool, whose addresses play no part here.
use linux.Base.{
  ℕ, zero, suc, ◌+◌, ◌-◌, ◌*◌, ◌%◌, ◌^◌, ◌≤◌, ◌<◌, ◌≡◌, refl, sym, ap, ◌∙◌, inl, inr, false, [],
  ◌∷◌, ◌++◌, append-nil, arith, Bytes, u64_mod, ltb, leb, ◌==◌, if◌then◌else◌, leb→le, Bool-cases,
  length, drop, length-append, length-drop, drop_all, drop-drop,
}
use linux.Base.Bits.{pow_two_suc}

pub record SendBuffer : Type 0 where
  pub capacity : ℕ
  pub bytes : Bytes
  pub offset : ℕ

unfoldable pub init : ℕ → SendBuffer
init initial_capacity = record { capacity = initial_capacity; bytes = []; offset = 0 }

-- `remaining()`; the offset never passes the size.
unfoldable pub remaining : SendBuffer → ℕ
remaining b = length b.bytes - b.offset

-- The bytes from `currentData()` on.
unfoldable pub current_data : SendBuffer → Bytes
current_data b = drop b.offset b.bytes

pub consume : ℕ → SendBuffer → SendBuffer
consume len b =
    let offset = (b.offset + len) % u64_mod in
    if leb (length b.bytes) offset
    then record b { bytes = []; offset = 0 }
    else record b { offset = offset }

-- `while (newCapacity < required) newCapacity *= 2`, at most `fuel` times.
pub grow : ℕ → ℕ → ℕ → ℕ
grow zero required capacity = capacity
grow (suc fuel) required capacity =
    let doubled = grow fuel required (capacity * 2 % u64_mod) in
    if ltb capacity required then doubled else capacity

-- The sent bytes leave the storage first, so that it grows less often.
compact : SendBuffer → SendBuffer
compact b = if ltb 0 b.offset then record b { bytes = drop b.offset b.bytes; offset = 0 } else b

reserve : ℕ → SendBuffer → SendBuffer
reserve append_len b =
    let required = (length b.bytes + append_len) % u64_mod in
    if leb required b.capacity then b else record b { capacity = grow 64 required b.capacity }

pub ensure_capacity_for_append : ℕ → SendBuffer → SendBuffer
unfolding compact reserve
ensure_capacity_for_append append_len b = reserve append_len (compact b)

pub append : Bytes → SendBuffer → SendBuffer
append src b =
    if length src == 0
    then b
    else let room = ensure_capacity_for_append (length src) b in
      record room { bytes = room.bytes ++ src }

pub record IsValid (b : SendBuffer) : Type 0 where
  pub offset_le : b.offset ≤ length b.bytes
  pub fits : length b.bytes ≤ b.capacity
  pub positive : 0 < b.capacity
  pub small : b.capacity < u64_mod

pub remaining-current_data : (b : SendBuffer) → length (current_data b) ≡ remaining b
unfolding remaining current_data
remaining-current_data b = length-drop b.offset b.bytes

-- Sixty-four rounds end the doubling loop by its own test, for a request that fits a 63-bit number.
pub grow-large :
    (fuel required capacity : ℕ)
    → 0 < capacity
    → capacity < u64_mod
    → required ≤ 2 ^ 63
    → required ≤ capacity * 2 ^ fuel
    → (required ≤ grow fuel required capacity)
      × (grow fuel required capacity < u64_mod)
      × (capacity ≤ grow fuel required capacity)
unfolding grow
grow-large zero required capacity pos lt le h = omega arith
grow-large (suc fuel) required capacity pos lt le h = ground (
  arith,
  grow-large fuel required (capacity * 2 % u64_mod),
  doubled (2 ^ fuel) (rw (pow_two_suc fuel) at h),
)
  where
    doubled :
        (p : ℕ)
        → required ≤ capacity * (2 * p)
        → capacity < required
        → required ≤ capacity * 2 % u64_mod * p
    doubled p g low =
        let word : capacity * 2 % u64_mod ≡ capacity * 2 = omega arith in rw word (omega arith)

-- After `compact` the storage holds exactly the bytes that are not sent yet.
compact_lem :
    (b : SendBuffer)
    → ((compact b).bytes ≡ current_data b)
      × ((compact b).offset ≡ 0)
      × ((compact b).capacity ≡ b.capacity)
unfolding compact current_data
compact_lem b = elim (Bool-cases (ltb 0 b.offset)) [
  | inl e ↦ rw e (refl, refl, refl)
  | inr e ↦
      let none_sent : b.offset ≡ 0 = ground arith in
      rw e (ap (λ k. drop k b.bytes) (sym none_sent), none_sent, refl)
]

reserve_lem :
    (b : SendBuffer) (n : ℕ)
    → length b.bytes + n ≤ 2 ^ 63
    → 0 < b.capacity
    → b.capacity < u64_mod
    → let b' = reserve n b in
      (b'.bytes ≡ b.bytes)
      × (b'.offset ≡ b.offset)
      × (length b.bytes + n ≤ b'.capacity)
      × (b.capacity ≤ b'.capacity)
      × (b'.capacity < u64_mod)
unfolding reserve
reserve_lem b n small pos lt =
    let word : (length b.bytes + n) % u64_mod ≡ length b.bytes + n = omega arith in
    rw word (elim (Bool-cases (leb (length b.bytes + n) b.capacity)) [
      | inl e ↦ rw e (refl, refl, leb→le (length b.bytes + n) b.capacity e, omega arith, lt)
      | inr e ↦
          let g = grow-large 64 (length b.bytes + n) b.capacity pos lt small (omega arith) in
          rw e (refl, refl, g.0, g.2, g.1)
    ])

-- `append` puts the bytes behind those that are not sent yet and keeps the buffer valid, whatever had to be
-- moved or grown, for up to `2 ^ 63` bytes in all.
pub current_data-append :
    (b : SendBuffer) (src : Bytes)
    → IsValid b
    → remaining b + length src ≤ 2 ^ 63
    → IsValid (append src b) × (current_data (append src b) ≡ current_data b ++ src)
unfolding append
current_data-append b [] v small = (v, sym (append-nil (current_data b)))
current_data-append b (x ∷ xs) v small =
    let (bytes, offset, capacity) = compact_lem b in
    let len : length (compact b).bytes ≡ remaining b = ap length bytes ∙ remaining-current_data b in
    let (bytes', offset', room, grows, word) =
      reserve_lem (compact b) (length (x ∷ xs)) (omega (arith, len))
        (omega (arith, capacity, v.positive)) (omega (arith, capacity, v.small)) in
    let nonempty : (suc (length xs) == 0) ≡ false = ground arith in
    let start : (reserve (length (x ∷ xs)) (compact b)).offset ≡ 0 = offset' ∙ offset in
    unfold ensure_capacity_for_append in
    rw nonempty (
      record {
        offset_le = omega (arith, start);
        fits =
            rw (length-append (reserve (length (x ∷ xs)) (compact b)).bytes (x ∷ xs), bytes') room;
        positive = omega (arith, room);
        small = word;
      },
      unfold current_data in rw (start, bytes', bytes),
    )

-- `consume` drops that many of the bytes that are not sent yet, and starts again when none is left.
pub current_data-consume :
    (b : SendBuffer) (len : ℕ)
    → IsValid b
    → len ≤ remaining b
    → IsValid (consume len b) × (current_data (consume len b) ≡ drop len (current_data b))
unfolding consume current_data remaining
current_data-consume b len v h =
    elim (Bool-cases (leb (length b.bytes) ((b.offset + len) % u64_mod))) [
      | inl e ↦
          let all : length b.bytes ≤ b.offset + len = ground (arith, v.fits, v.small) in
          rw e (
            record {
              offset_le = omega arith;
              fits = omega arith;
              positive = v.positive;
              small = v.small;
            },
            sym (drop-drop len b.offset b.bytes ∙ drop_all (b.offset + len) b.bytes all),
          )
      | inr e ↦
          let word : (b.offset + len) % u64_mod ≡ b.offset + len =
            omega (arith, v.fits, v.small, v.offset_le) in
          rw (e, word)
            (
              record {
                offset_le = omega (arith, v.offset_le);
                fits = v.fits;
                positive = v.positive;
                small = v.small;
              },
              sym (drop-drop len b.offset b.bytes),
            )
    ]
