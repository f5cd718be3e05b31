-- ===== src/RecvBuffer/Refine.antt =====
-- The receive buffer as a byte queue: what each operation does to the contents.
use linux.Base.{
  ℕ, zero, suc, ◌+◌, ◌-◌, ◌%◌, ◌≤◌, ◌<◌, min, ◌≡◌, refl, sym, ap, ◌∙◌, true, false, none, some, [],
  ◌++◌, append-nil, arith, Bytes, u64_mod, ltb, leb, ◌==◌, if◌then◌else◌, lt→ltb, length, get_or,
  take, drop, drop_all,
}
use linux.Base.Tabulate.{
  tabulate, tabulate_ext, tabulate-append, take-tabulate, drop-tabulate, slice-tabulate,
}
use linux.RecvBuffer.{RecvBuffer, masked, peek, peek_string, consume}
use linux.RecvBuffer.Inv.{IsValid, byte_at, contents, length-contents, masked-mod, small_capacity}
use native.Mathlib.Nat.{mod-eq_of_lt, mod-eq-sub-mod, mod-lt, mod-add-mod}
use native.Mathlib.Decide.{dec_le}

-- The position `i` places on from `a`, before and after the end of the storage.
pub index_before : (cap a i : ℕ) → a % cap + i < cap → (a + i) % cap ≡ a % cap + i
index_before cap a i h = sym (mod-add-mod a cap i) ∙ mod-eq_of_lt h

pub index_after :
    (cap a i : ℕ) → cap ≤ a % cap + i → a % cap + i < cap + cap → (a + i) % cap ≡ a % cap + i - cap
index_after cap a i h lt =
    sym (mod-add-mod a cap i)
    ∙ mod-eq-sub-mod {n = a % cap + i} {m = cap} h
    ∙ mod-eq_of_lt (omega arith)

-- The two copies out of the ring, from any place in it, are the bytes read round the ring.
pub read_round :
    (buf : Bytes) (a len : ℕ)
    → 0 < length buf
    → len ≤ length buf
    → let start = a % length buf in
      let first = min len (length buf - start) in
      take first (drop start buf) ++ (if ltb first len then take (len - first) buf else [])
      ≡ tabulate len (byte_at buf a)
read_round buf a len pos hl = elim (dec_le len (length buf - a % length buf)) [
  | yes p ↦
      let f : min len (length buf - a % length buf) ≡ len = omega arith in
      let same : ltb len len ≡ false = ground arith in
      let inside : a % length buf < length buf = mod-lt a pos in
      rw (f, same, append-nil (take len (drop (a % length buf) buf)))
        (slice-tabulate (a % length buf) len buf 0 (omega arith)
          ∙ tabulate_ext len (λ i. get_or buf (a % length buf + i) 0) (byte_at buf a)
              (λ i lt.
                ap (λ k. get_or buf k 0) (sym (index_before (length buf) a i (omega arith)))))
  | no p ↦
      let n : ℕ = length buf - a % length buf in
      let f : min len (length buf - a % length buf) ≡ n = omega arith in
      let more : ltb n len ≡ true = lt→ltb n len (omega arith) in
      let inside : a % length buf < length buf = mod-lt a pos in
      let whole : n + (len - n) ≡ len = omega arith in
      rw
        (
          f,
          more,
          slice-tabulate (a % length buf) n buf 0 (omega arith),
          slice-tabulate 0 (len - n) buf 0 (omega arith),
        )
        (tabulate-append n (len - n) (λ i. get_or buf (a % length buf + i) 0)
            (λ i. get_or buf (0 + i) 0) (byte_at buf a)
            (λ i lt. ap (λ k. get_or buf k 0) (index_before (length buf) a i (omega arith)))
            (λ i lt.
              ap (λ k. get_or buf k 0)
                (index_after (length buf) a (n + i) (omega arith) (omega arith) ∙ omega arith))
          ∙ ap (λ k. tabulate k (byte_at buf a)) whole)
]

-- A part of the contents, as a table.
stored :
    (r : RecvBuffer) (len offset : ℕ)
    → offset + len ≤ r.size
    → tabulate len (byte_at r.buf (r.read + offset)) ≡ take len (drop offset (contents r))
stored r len offset h = sym (
    ap (take len) (drop-tabulate offset r.size (byte_at r.buf r.read) (omega arith))
    ∙ take-tabulate len (r.size - offset) (λ i. byte_at r.buf r.read (offset + i)) (omega arith)
    ∙ tabulate_ext len (λ i. byte_at r.buf r.read (offset + i)) (byte_at r.buf (r.read + offset))
        (λ i lt. ap (λ k. get_or r.buf (k % length r.buf) 0) (omega arith)))

-- `peek` answers exactly when the bytes are there, and then with those bytes of the contents.
pub peek-contents :
    (r : RecvBuffer) (len offset : ℕ)
    → IsValid r
    → offset + len < u64_mod
    → peek len offset r
      ≡ (if leb (offset + len) r.size then some (take len (drop offset (contents r))) else none)
unfolding peek
peek-contents r len offset v h = elim (dec_le (offset + len) r.size) [
  | yes p ↦
      let word : (offset + len) % u64_mod ≡ offset + len = omega arith in
      let fits : ltb r.size (offset + len) ≡ false = ground arith in
      let there : leb (offset + len) r.size ≡ true = ground arith in
      let place : masked r.buf (r.read + offset) ≡ (r.read + offset) % length r.buf =
        masked-mod v (r.read + offset) (omega (arith, small_capacity v)) in
      rw (word, fits, there, place)
        (ap some (
          read_round r.buf (r.read + offset) len (small_capacity v).0 (omega (arith, v.size_le))
          ∙ stored r len offset p))
  | no p ↦
      let word : (offset + len) % u64_mod ≡ offset + len = omega arith in
      let short : ltb r.size (offset + len) ≡ true = ground arith in
      let missing : leb (offset + len) r.size ≡ false = ground arith in rw (word, short, missing)
]

-- `consume` drops that many bytes, or all of them, and keeps the invariant.
pub contents-consume :
    (r : RecvBuffer) (len : ℕ)
    → IsValid r
    → IsValid (consume len r) × (contents (consume len r) ≡ drop len (contents r))
unfolding consume
contents-consume r len v = elim (dec_le r.size len) [
  | yes p ↦
      let all : leb r.size len ≡ true = ground arith in
      rw all (
        record {
          exponent = v.exponent;
          exponent_le = v.exponent_le;
          capacity = v.capacity;
          read_lt = (small_capacity v).0;
          size_le = omega arith;
        },
        sym (drop_all len (contents r) (omega (arith, length-contents r))),
      )
  | no p ↦
      let some_ : leb r.size len ≡ false = ground arith in
      let place : masked r.buf (r.read + len) ≡ (r.read + len) % length r.buf =
        masked-mod v (r.read + len) (omega (arith, small_capacity v)) in
      rw (some_, place)
        (
          record {
            exponent = v.exponent;
            exponent_le = v.exponent_le;
            capacity = v.capacity;
            read_lt = mod-lt (r.read + len) (small_capacity v).0;
            size_le = omega (arith, v.size_le);
          },
          tabulate_ext (r.size - len) (byte_at r.buf ((r.read + len) % length r.buf))
                (λ i. byte_at r.buf r.read (len + i))
                (λ i lt.
                  ap (λ k. get_or r.buf k 0)
                    (mod-add-mod (r.read + len) (length r.buf) i
                      ∙ ap (λ k. k % length r.buf) (omega arith)))
              ∙ sym (drop-tabulate len r.size (byte_at r.buf r.read) (omega arith)),
        )
]

-- Bytes that are there are peeked.
pub peek_stored :
    (r : RecvBuffer) (len offset : ℕ)
    → IsValid r
    → offset + len ≤ r.size
    → peek len offset r ≡ some (take len (drop offset (contents r)))
peek_stored r len offset v h =
    let there : leb (offset + len) r.size ≡ true = ground arith in
    rw (peek-contents r len offset v (omega (arith, small_capacity v, v.size_le)), there)

-- `peekString` returns the bytes of the contents, if they are there.
pub peek_string_lem :
    (r : RecvBuffer) (offset len : ℕ)
    → IsValid r
    → offset + len ≤ r.size
    → peek_string offset len r ≡ take len (drop offset (contents r))
unfolding peek_string
peek_string_lem r offset zero v h = refl
peek_string_lem r offset (suc len) v h =
    let nonzero : (suc len == 0) ≡ false = ground arith in
    rw (nonzero, peek_stored r (suc len) offset v h)
