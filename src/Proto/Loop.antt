-- ===== src/Proto/Loop.antt =====
-- The loop of `decodeProtoToJson`: when it ends, and when it does not.
use linux.Base.{
  ℕ, zero, suc, ◌+◌, ◌-◌, ◌*◌, ◌/◌, ◌%◌, ◌^◌, ◌≤◌, ◌<◌, bit_and, ◌≡◌, refl, ◌∙◌, ◌≢◌, inl, inr,
  Bool, true, false, Option, none, some, [], ◌∷◌, ◌++◌, arith, Bytes, u64_mod, ◌==◌, lt→ltb,
  Bool-cases, Option-cases, length, take, drop,
}
use linux.Base.Bits.{bit_and_mask}
use linux.Wire.{read_varint, write_varint, skip_field}
use linux.Wire.Skip.{read_varint_bounds}
use linux.Wire.RoundTrip.{read_varint-digits, digits_small}
use linux.Wire.Shape.{digits, write_varint-digits}
use linux.Proto.{
  to_json, decode_step, decode_loop, decode_proto_to_json, take_field, take_string, take_number,
  skip_unknown, Outcome, malformed, complete, running, finish,
}
use linux.Proto.Fields.{Decoded, no_fields, set_string}

-- No varint of the body, read at any position, reaches past `2 ^ 64` as a length from there.
abbrev pub NoWrap : Bytes → Type 0
NoWrap body =
    (off : ℕ)
    → off ≤ length body
    → (read_varint body off).0 ≡ true
    → (read_varint body off).1 + (read_varint body off).2 < u64_mod

-- A step that succeeds moves forward and stays inside the body.
abbrev Forward : ℕ → Bytes → Option (ℕ × Decoded) → Type 0
Forward off body none = Unit {0}
Forward off body (some (off', d)) = (off < off') × (off' ≤ length body)

take_string-Forward :
    (t field off : ℕ) (body : Bytes) (d : Decoded) (r : Bool × ℕ × ℕ)
    → off ≤ r.1
    → (r.0 ≡ true → off < r.1)
    → (r.0 ≡ true → r.1 + r.2 < u64_mod)
    → Forward off body (take_string t field body r d)
unfolding take_string
take_string-Forward t field off body d (false, o, len) h m w = tt
take_string-Forward t field off body d (true, o, len) h m w =
    let fits = w refl in let moved = m refl in ground arith

take_number-Forward :
    (t field off : ℕ) (body : Bytes) (d : Decoded) (r : Bool × ℕ × ℕ)
    → off < r.1
    → r.1 ≤ length body
    → Forward off body (take_number t field r d)
unfolding take_number
take_number-Forward t field off body d (false, o, v) h le = tt
take_number-Forward t field off body d (true, o, v) h le = (h, le)

skip_field-fails :
    (wt off : ℕ) (body : Bytes)
    → (wt == 0) ≡ false
    → (wt == 2) ≡ false
    → skip_field wt body off ≡ (false, off)
unfolding skip_field
skip_field-fails wt off body h0 h2 = rw (h0, h2)

take_field-Forward :
    (t off : ℕ) (body : Bytes) (d : Decoded) (r : Bool × ℕ × ℕ)
    → NoWrap body
    → (r.0 ≡ true → off < r.1)
    → r.1 ≤ length body
    → Forward off body (take_field t body r d)
unfolding take_field
take_field-Forward t off body d (false, o, key) nw m le = tt
take_field-Forward t off body d (true, o, key) nw m le = elim (Bool-cases (bit_and key 7 == 2)) [
  | inl e ↦ rw e (
      take_string-Forward t (key / 2 ^ 3 % 2 ^ 32) off body d (read_varint body o)
        (omega (arith, m refl, b.0)) (λ g. omega (arith, m refl, b.0)) (nw o le))
  | inr e2 ↦ elim (Bool-cases (bit_and key 7 == 0)) [
    | inl e ↦
        rw (e2, e)
          (take_number-Forward t (key / 2 ^ 3 % 2 ^ 32) off body d (read_varint body o)
            (omega (arith, m refl, b.0)) b.1)
    | inr e0 ↦ rw (e2, e0, skip_field-fails (bit_and key 7) o body e0 e2, skip_unknown) tt
  ]
]
  where
    b :
        (o ≤ (read_varint body o).1)
        × ((read_varint body o).1 ≤ length body)
        × ((read_varint body o).1 ≤ o + 10)
        × ((read_varint body o).0 ≡ true → o < (read_varint body o).1)
        × ((read_varint body o).2 < u64_mod)
    b = read_varint_bounds body o le

decode_step-Forward :
    (t off : ℕ) (body : Bytes) (d : Decoded)
    → NoWrap body
    → off ≤ length body
    → Forward off body (decode_step t body off d)
unfolding decode_step
decode_step-Forward t off body d nw le =
    let b = read_varint_bounds body off le in
    take_field-Forward t off body d (read_varint body off) nw b.3 b.1

decode_loop-ends :
    (fuel t off : ℕ) (body : Bytes) (d : Decoded)
    → NoWrap body
    → off ≤ length body
    → length body < off + fuel
    → decode_loop fuel t body off d ≢ running
unfolding decode_loop
decode_loop-ends zero t off body d nw le lt = absurd (omega arith)
decode_loop-ends (suc fuel) t off body d nw le lt = elim (Option-cases (decode_step t body off d)) [
  | inl e ↦ rw (e, decode_loop) (ground arith)
  | inr ((off', d'), e) ↦
      let fwd : (off < off') × (off' ≤ length body) =
        rw e at (decode_step-Forward t off body d nw le) in
      let rest = decode_loop-ends fuel t off' body d' nw fwd.1 (omega arith) in
      rw (e, decode_loop) (ground arith)
]

-- The decoder returns on every body in which no varint reaches past `2 ^ 64` as a length: one round for
-- each byte, and one more, are enough.
pub decode_ends :
    (t : ℕ) (body : Bytes)
    → NoWrap body
    → (json : Bytes) × (decode_proto_to_json (length body + 1) t body ≡ some json)
unfolding decode_proto_to_json finish
decode_ends t [] nw = ([], refl)
decode_ends t (b ∷ bs) nw =
    outcome (decode_loop (length (b ∷ bs) + 1) t (b ∷ bs) 0 no_fields)
      (decode_loop-ends _ t 0 (b ∷ bs) no_fields nw (omega arith) (omega arith))
  where
    outcome : (o : Outcome) → o ≢ running → (json : Bytes) × (finish t o ≡ some json)
    outcome malformed ne = ([], refl)
    outcome (complete d) ne = (to_json t d, refl)
    outcome running ne = absurd (ne refl)

-- A key of wire type 2, and a length that leads back to the first byte of the body.
wrapping_step :
    (t key : ℕ) (body : Bytes) (d : Decoded)
    → read_varint body 0 ≡ (true, 1, key)
    → read_varint body 1 ≡ (true, 11, u64_mod - 11)
    → bit_and key 7 ≡ 2
    → decode_step t body 0 d
      ≡ some (0, set_string t (key / 2 ^ 3 % 2 ^ 32) (take (u64_mod - 11) (drop 11 body)) d)
unfolding decode_step take_field take_string
wrapping_step t key body d e1 e2 e3 = rw (e1, take_field, e3, e2, take_string) (ground arith)

wrapping_loop :
    (fuel t key : ℕ) (body : Bytes) (d : Decoded)
    → 0 < length body
    → read_varint body 0 ≡ (true, 1, key)
    → read_varint body 1 ≡ (true, 11, u64_mod - 11)
    → bit_and key 7 ≡ 2
    → decode_loop fuel t body 0 d ≡ running
unfolding decode_loop
wrapping_loop zero t key body d pos e1 e2 e3 = refl
wrapping_loop (suc fuel) t key body d pos e1 e2 e3 =
    rw (wrapping_step t key body d e1 e2 e3, decode_loop, lt→ltb 0 (length body) pos)
      (wrapping_loop fuel t key body _ pos e1 e2 e3)

-- On a body that starts with a key of wire type 2 and the length `2 ^ 64 - 11` the loop goes back to the
-- first byte in every round: no fuel is enough, whatever the message type and the bytes that follow.
pub decode_hangs :
    (fuel t field : ℕ) (rest : Bytes)
    → field ≤ 15
    → decode_proto_to_json fuel t
        (write_varint (u64_mod - 11) (write_varint (field * 8 + 2) []) ++ rest)
      ≡ none
unfolding decode_proto_to_json finish digits
decode_hangs fuel t field rest h =
    let key : ℕ = field * 8 + 2 in
    let small : write_varint key [] ≡ key ∷ [] =
      write_varint-digits key [] (omega arith) ∙ digits_small key (omega arith) in
    let first : read_varint (key ∷ (digits 9 (u64_mod - 11) ++ rest)) 0 ≡ (true, 1, key) =
      rw (digits_small key (omega arith)) at
        (read_varint-digits key [] (digits 9 (u64_mod - 11) ++ rest) (omega arith)) in
    rw (small, write_varint-digits (u64_mod - 11) (key ∷ []) (omega arith))
      (rw (
        wrapping_loop fuel t key (key ∷ (digits 9 (u64_mod - 11) ++ rest)) no_fields (omega arith)
          first (read_varint-digits (u64_mod - 11) (key ∷ []) rest (omega arith))
          (bit_and_mask 3 key ∙ omega arith)))
