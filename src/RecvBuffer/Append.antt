-- ===== src/RecvBuffer/Append.antt =====
-- The whole of `append`: growing keeps the contents, and the copy extends them.
use linux.Base.{
  ℕ, suc, ◌+◌, ◌-◌, ◌%◌, ◌^◌, ◌≤◌, min, ◌≡◌, refl, sym, ap, ◌∙◌, subst, inl, inr, Bool, false, [],
  ◌∷◌, ◌++◌, append-nil, append_assoc, arith, Bytes, u64_mod, ltb, leb, ◌==◌, if◌then◌else◌, leb→le,
  Bool-cases, length, get_or, take, drop, replicate, length-append, length-take, length-drop,
  length-replicate, take_prefix, get_or-append_left,
}
use linux.Base.Tabulate.{tabulate, tabulate_ext, tabulate-append, tabulate-get_or}
use linux.Base.Bits.{pow_two_pos}
use linux.RecvBuffer.{
  RecvBuffer, copy_in, copy_round, move_to, ensure_capacity_for_append, put_bytes, append,
}
use linux.RecvBuffer.PowerOfTwo.{next_power_of_two_least}
use linux.RecvBuffer.Inv.{IsValid, byte_at, contents, length-contents, masked-mod, small_capacity}
use linux.RecvBuffer.Refine.{read_round}
use linux.RecvBuffer.Write.{copy_round-Written}
use linux.RecvBuffer.Copy.{length-copy_in}
use native.Mathlib.Nat.{mod-eq_of_lt}

-- With room for it, the copy appends `src` to the contents.
put_bytes_lem :
    (r : RecvBuffer) (src : Bytes)
    → IsValid r
    → r.size + length src ≤ length r.buf
    → IsValid (put_bytes src r) × (contents (put_bytes src r) ≡ contents r ++ src)
unfolding put_bytes
put_bytes_lem r src v room =
    let cap = small_capacity v in
    let place = masked-mod v (r.read + r.size) (omega (arith, cap, v.read_lt, v.size_le)) in
    let w = copy_round-Written r.buf r.read r.size src v.read_lt room in
    let word : (r.size + length src) % u64_mod ≡ r.size + length src = omega (arith, cap) in
    rw (place, word)
      (
        record {
          exponent = v.exponent;
          exponent_le = v.exponent_le;
          capacity = w.same_size ∙ v.capacity;
          read_lt = rw w.same_size v.read_lt;
          size_le = rw w.same_size room;
        },
        sym (
            ap (λ s. contents r ++ s) (sym (tabulate-get_or src 0))
            ∙ tabulate-append r.size (length src) (byte_at r.buf r.read) (λ i. get_or src i 0)
                (byte_at (copy_round r.buf ((r.read + r.size) % length r.buf) src) r.read) w.kept
                w.added),
      )

-- What the copies into a new storage leave: as large as before, with the stored bytes at its start.
record Moved (stored new_buf out : Bytes) : Type 0 where
  same_size : length out ≡ length new_buf
  rest : Bytes
  starts : out ≡ stored ++ rest

one_copy : (p new_buf : Bytes) → length p ≤ length new_buf → Moved p new_buf (copy_in new_buf 0 p)
one_copy p new_buf h = record {
  same_size = length-copy_in new_buf 0 p (omega arith);
  rest = drop (0 + length p) new_buf;
  starts = unfold copy_in in refl;
}

two_copies :
    (p q new_buf : Bytes)
    → length p + length q ≤ length new_buf
    → Moved (p ++ q) new_buf (copy_in (copy_in new_buf 0 p) (length p) q)
two_copies p q new_buf h =
    let m = one_copy p new_buf (omega arith) in
    record {
      same_size =
          length-copy_in (copy_in new_buf 0 p) (length p) q (rw m.same_size h) ∙ m.same_size;
      rest = drop (length p + length q) (copy_in new_buf 0 p);
      starts =
          unfold copy_in in
          ap (λ s. s ++ (q ++ drop (length p + length q) (p ++ drop (0 + length p) new_buf)))
            (take_prefix p (drop (0 + length p) new_buf))
          ∙ sym (append_assoc p q (drop (length p + length q) (p ++ drop (0 + length p) new_buf)));
    }

-- The stored bytes move to the start of a storage that is large enough.
move_to-Moved :
    (r : RecvBuffer) (new_buf : Bytes)
    → IsValid r
    → r.size ≤ length new_buf
    → Moved (contents r) new_buf (move_to new_buf r)
unfolding move_to
move_to-Moved r new_buf v h = elim (Bool-cases (ltb first r.size)) [
  | inl e ↦
      let q = take (r.size - first) r.buf in
      let len_q : length q ≡ r.size - first =
        length-take (r.size - first) r.buf ∙ omega (arith, v.size_le) in
      let two = two_copies p q new_buf (omega (arith, len_p, len_q)) in
      rw (e, sym (read_as e))
        (subst (λ k. Moved (p ++ q) new_buf (copy_in (copy_in new_buf 0 p) k q)) len_p two)
  | inr e ↦ rw (e, sym (read_as e), append-nil p) (one_copy p new_buf (omega (arith, len_p)))
]
  where
    first : ℕ
    first = min r.size (length r.buf - r.read)

    p : Bytes
    p = take first (drop r.read r.buf)

    len_p : length p ≡ first
    len_p =
        length-take first (drop r.read r.buf) ∙ omega (arith, length-drop r.read r.buf, v.read_lt)

    read_as :
        {b : Bool}
        → ltb first r.size ≡ b
        → p ++ (if b then take (r.size - first) r.buf else []) ≡ contents r
    read_as e =
        rw (mod-eq_of_lt v.read_lt, e) at
          (read_round r.buf r.read r.size (small_capacity v).0 v.size_le)

-- A storage that starts with the stored bytes, read from its start.
read_start : (stored rest : Bytes) → tabulate (length stored) (byte_at (stored ++ rest) 0) ≡ stored
read_start stored rest =
    tabulate_ext (length stored) (byte_at (stored ++ rest) 0) (λ i. get_or stored i 0)
      (λ i lt.
        let z : 0 + i ≡ i = omega arith in
        let len = length-append stored rest in
        ap (λ k. get_or (stored ++ rest) k 0) (rw z (mod-eq_of_lt (omega (arith, len))))
        ∙ get_or-append_left stored rest i 0 lt)
    ∙ tabulate-get_or stored 0

-- Making room keeps the contents.
ensure_lem :
    (r : RecvBuffer) (n : ℕ)
    → IsValid r
    → r.size + n ≤ 2 ^ 63
    → let r' = ensure_capacity_for_append n r in
      IsValid r' × (contents r' ≡ contents r) × (r'.size ≡ r.size) × (r.size + n ≤ length r'.buf)
unfolding ensure_capacity_for_append
ensure_lem r n v small = elim (Bool-cases (leb n (length r.buf - r.size))) [
  | inl e ↦ rw e (v, refl, refl, omega (arith, leb→le n (length r.buf - r.size) e, v.size_le))
  | inr e ↦
      let word : (r.size + n) % u64_mod ≡ r.size + n = omega arith in
      let (k, k_le, eq, lo, hi) = next_power_of_two_least (r.size + n) small in
      let new_buf : Bytes = replicate (2 ^ k) 0 in
      let cap : length new_buf ≡ 2 ^ k = length-replicate (2 ^ k) 0 in
      let m = move_to-Moved r new_buf v (rw cap (omega (arith, lo))) in
      rw (e, word, eq)
        (
          record {
            exponent = k;
            exponent_le = k_le;
            capacity = m.same_size ∙ cap;
            read_lt = rw (m.same_size, cap) (pow_two_pos k);
            size_le = rw (m.same_size, cap) (omega (arith, lo));
          },
          ap (λ b. tabulate r.size (byte_at b 0)) m.starts
              ∙ ap (λ s. tabulate s (byte_at (contents r ++ m.rest) 0)) (sym (length-contents r))
              ∙ read_start (contents r) m.rest,
          refl,
          rw (m.same_size, cap) lo,
        )
]

-- `append` puts the bytes behind the contents and keeps the invariant, as long as a power of two below
-- `2 ^ 64` can hold them all.
pub contents-append :
    (r : RecvBuffer) (src : Bytes)
    → IsValid r
    → r.size + length src ≤ 2 ^ 63
    → IsValid (append src r) × (contents (append src r) ≡ contents r ++ src)
unfolding append
contents-append r [] v small = (v, sym (append-nil (contents r)))
contents-append r (x ∷ xs) v small =
    let (v', same, size, room) = ensure_lem r (length (x ∷ xs)) v small in
    let put =
      put_bytes_lem (ensure_capacity_for_append (length (x ∷ xs)) r) (x ∷ xs) v' (rw size room) in
    let nonempty : (suc (length xs) == 0) ≡ false = ground arith in
    rw nonempty (put.0, put.1 ∙ ap (λ c. c ++ x ∷ xs) same)
