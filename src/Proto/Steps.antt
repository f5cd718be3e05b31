-- ===== src/Proto/Steps.antt =====
-- One round of the decoder on a field that `writeString` or `writeUint64` wrote.
use linux.Base.{
  ℕ, ◌+◌, ◌*◌, ◌/◌, ◌%◌, ◌^◌, ◌<◌, bit_and, ◌≡◌, sym, ap, ◌∙◌, subst, true, some, ◌++◌,
  append_assoc, arith, Bytes, u64_mod, length, length-append, take_prefix, drop_prefix,
}
use linux.Base.Bits.{bit_and_mask}
use linux.Wire.{read_varint, write_varint, write_key, write_string, write_uint64}
use linux.Wire.Shape.{digits, write_varint-digits}
use linux.Wire.RoundTrip.{read_varint-digits, key_byte}
use linux.Proto.{decode_step, take_field, take_string, take_number}
use linux.Proto.Fields.{Decoded, set_string}

-- The bytes of a key, and of a length-delimited field.
abbrev pub key_digits : ℕ → ℕ → Bytes
key_digits field wt = digits 9 (field * 8 + wt)

write_key-digits :
    (field wt : ℕ) (pre : Bytes)
    → field < 2 ^ 29
    → wt < 8
    → write_key field wt pre ≡ pre ++ key_digits field wt
unfolding write_key
write_key-digits field wt pre h hw =
    rw (key_byte field wt h hw) (write_varint-digits (field * 8 + wt) pre (omega arith))

abbrev pub string_digits : ℕ → Bytes → Bytes
string_digits field v = key_digits field 2 ++ (digits 9 (length v) ++ v)

pub write_string-digits :
    (field : ℕ) (v pre : Bytes)
    → field < 2 ^ 29
    → length v < u64_mod
    → write_string field v pre ≡ pre ++ string_digits field v
unfolding write_string
write_string-digits field v pre h hv =
    let k = key_digits field 2 in
    rw (write_key-digits field 2 pre h (omega arith), write_varint-digits (length v) (pre ++ k) hv)
      (append_assoc (pre ++ k) (digits 9 (length v)) v
        ∙ append_assoc pre k (digits 9 (length v) ++ v))

pub write_uint64-digits :
    (field v : ℕ) (pre : Bytes)
    → field < 2 ^ 29
    → v < u64_mod
    → write_uint64 field v pre ≡ pre ++ (key_digits field 0 ++ digits 9 v)
unfolding write_uint64
write_uint64-digits field v pre h hv =
    let k = key_digits field 0 in
    rw (write_key-digits field 0 pre h (omega arith), write_varint-digits v (pre ++ k) hv)
      (append_assoc pre k (digits 9 v))

-- After the key the decoder dispatches on the wire type, with the field's number.
take_field-key :
    (t field : ℕ) (body : Bytes) (off : ℕ) (d : Decoded)
    → field < 2 ^ 29
    → (take_field t body (true, off, field * 8 + 2) d
        ≡ take_string t field body (read_varint body off) d)
      × (take_field t body (true, off, field * 8) d ≡ take_number t field (read_varint body off) d)
unfolding take_field
take_field-key t field body off d h =
    let two : bit_and (field * 8 + 2) 7 ≡ 2 = bit_and_mask 3 (field * 8 + 2) ∙ omega arith in
    let zero_ : bit_and (field * 8) 7 ≡ 0 = bit_and_mask 3 (field * 8) ∙ omega arith in
    let f2 : (field * 8 + 2) / 8 % 2 ^ 32 ≡ field = omega arith in
    let f0 : field * 8 / 8 % 2 ^ 32 ≡ field = omega arith in (rw (two, f2), rw (zero_, f0))

-- The string branch cuts exactly the string out of the body.
take_string-cut :
    (t field : ℕ) (head v rest : Bytes) (d : Decoded)
    → length (head ++ (v ++ rest)) < u64_mod
    → take_string t field (head ++ (v ++ rest)) (true, length head, length v) d
      ≡ some (length head + length v, set_string t field v d)
unfolding take_string
take_string-cut t field head v rest d small =
    let whole : length (head ++ (v ++ rest)) ≡ length head + (length v + length rest) =
      omega (arith, length-append head (v ++ rest), length-append v rest) in
    rw (drop_prefix head (v ++ rest), take_prefix v rest) (ground arith)

string_round :
    (t field : ℕ) (v pre rest : Bytes) (d : Decoded)
    → let k = key_digits field 2 in
      let l = digits 9 (length v) in
      field < 2 ^ 29
      → length (pre ++ (k ++ (l ++ (v ++ rest)))) < u64_mod
      → decode_step t (pre ++ (k ++ (l ++ (v ++ rest)))) (length pre) d
        ≡ some (length (pre ++ (k ++ (l ++ v))), set_string t field v d)
unfolding decode_step
string_round t field v pre rest d h small =
    let k = key_digits field 2 in
    let l = digits 9 (length v) in
    let at_length : pre ++ (k ++ (l ++ (v ++ rest))) ≡ (pre ++ k) ++ (l ++ (v ++ rest)) =
      sym (append_assoc pre k (l ++ (v ++ rest))) in
    let at_string : (pre ++ k) ++ (l ++ (v ++ rest)) ≡ ((pre ++ k) ++ l) ++ (v ++ rest) =
      sym (append_assoc (pre ++ k) l (v ++ rest)) in
    let ends : length (pre ++ (k ++ (l ++ v))) ≡ length ((pre ++ k) ++ l) + length v =
      ap length (sym (append_assoc pre k (l ++ v)) ∙ sym (append_assoc (pre ++ k) l v))
      ∙ length-append ((pre ++ k) ++ l) v in
    let fits : length v < u64_mod = omega (
      arith,
      length-append pre (k ++ (l ++ (v ++ rest))),
      length-append k (l ++ (v ++ rest)),
      length-append l (v ++ rest),
      length-append v rest,
    ) in
    rw
      (
        read_varint-digits (field * 8 + 2) pre (l ++ (v ++ rest)) (omega arith),
        (take_field-key t field (pre ++ (k ++ (l ++ (v ++ rest)))) (length pre + length k) d h).0,
        ends,
        ← length-append pre k,
        at_length,
        read_varint-digits (length v) (pre ++ k) (v ++ rest) fits,
        ← length-append (pre ++ k) l,
        at_string,
      )
      (take_string-cut t field ((pre ++ k) ++ l) v rest d
        (subst (λ b. length b < u64_mod) (at_length ∙ at_string) small))

-- The decoder reads the string that `writeString` wrote, stores it in the field's variable, and goes on
-- behind it, if the body is shorter than `2 ^ 64` bytes.
pub decode_step-write_string :
    (t field : ℕ) (v pre rest : Bytes) (d : Decoded)
    → field < 2 ^ 29
    → length (write_string field v pre ++ rest) < u64_mod
    → decode_step t (write_string field v pre ++ rest) (length pre) d
      ≡ some (length (write_string field v pre), set_string t field v d)
decode_step-write_string t field v pre rest d h small =
    let k = key_digits field 2 in
    let l = digits 9 (length v) in
    let fits : length v < u64_mod =
      unfold write_string in
      omega (
        arith,
        length-append (write_varint (length v) (write_key field 2 pre) ++ v) rest,
        length-append (write_varint (length v) (write_key field 2 pre)) v,
      ) in
    let regroup : (pre ++ (k ++ (l ++ v))) ++ rest ≡ pre ++ (k ++ (l ++ (v ++ rest))) =
      simp append_assoc in
    let bytes = write_string-digits field v pre h fits in
    rw (bytes, regroup)
      (string_round t field v pre rest d h
        (subst (λ b. length b < u64_mod) (ap (λ b. b ++ rest) bytes ∙ regroup) small))
