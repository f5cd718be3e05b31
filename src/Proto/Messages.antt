-- ===== src/Proto/Messages.antt =====
-- Whole bodies: a message that was written field by field, and what the decoder makes of it.
use linux.Base.{
  ℕ, zero, suc, ◌+◌, ◌*◌, ◌^◌, ◌≤◌, ◌<◌, ◌≡◌, refl, sym, ap, ◌∙◌, subst, false, some, List, [], ◌∷◌,
  ◌++◌, append-nil, append_assoc, arith, Bytes, u64_mod, All, lt→ltb, length, length-append, codes,
  is_empty,
}
use linux.Wire.{write_string}
use linux.Proto.{
  decode_step, decode_loop, decode_proto_to_json, complete, finish, to_json, members, has_json,
  add_kv, add_kv_num,
}
use linux.Wire.Shape.{digits, length-digits}
use linux.Proto.Fields.{Decoded, no_fields, set_string}
use linux.Proto.Steps.{decode_step-write_string, write_string-digits, string_digits, key_digits}

abbrev pub StringField : Type 0
StringField = ℕ × Bytes

-- The string fields of a message, written one after the other.
unfoldable pub write_all : List StringField → Bytes → Bytes
write_all [] out = out
write_all ((field, v) ∷ fs) out = write_all fs (write_string field v out)

-- The same fields, stored one after the other.
unfoldable pub store_all : ℕ → List StringField → Decoded → Decoded
store_all t [] d = d
store_all t ((field, v) ∷ fs) d = store_all t fs (set_string t field v d)

abbrev pub IsField : StringField → Type 0
IsField (field, v) = (field < 2 ^ 29) × (length v < u64_mod)

write_all-extends :
    (fs : List StringField) (out : Bytes)
    → All IsField fs
    → (rest : Bytes) × (write_all fs out ≡ out ++ rest)
unfolding write_all
write_all-extends [] out h = ([], sym (append-nil out))
write_all-extends ((field, v) ∷ fs) out h =
    let (rest, e) = write_all-extends fs (write_string field v out) h.1 in
    (
      string_digits field v ++ rest,
      e
          ∙ ap (λ b. b ++ rest) (write_string-digits field v out h.0.0 h.0.1)
          ∙ append_assoc out (string_digits field v) rest,
    )

write_string-grows :
    (field : ℕ) (v out : Bytes)
    → IsField (field, v)
    → length out < length (write_string field v out)
write_string-grows field v out h = rw (write_string-digits field v out h.0 h.1) (
    omega (
      arith,
      length-append out (string_digits field v),
      length-append (key_digits field 2) (digits 9 (length v) ++ v),
      length-digits 9 (field * 8 + 2),
    ))

pub write_string-length :
    (field : ℕ) (v out : Bytes)
    → field < 2 ^ 29
    → length v < u64_mod
    → length (write_string field v out) ≤ length out + 20 + length v
write_string-length field v out hf hv = rw (write_string-digits field v out hf hv) (
    omega (
      arith,
      length-append out (string_digits field v),
      length-append (key_digits field 2) (digits 9 (length v) ++ v),
      length-append (digits 9 (length v)) v,
      length-digits 9 (field * 8 + 2),
      length-digits 9 (length v),
    ))

loop_round :
    (fuel t off off' : ℕ) (body : Bytes) (d d' : Decoded)
    → off < length body
    → decode_step t body off d ≡ some (off', d')
    → decode_loop (suc fuel) t body off d ≡ decode_loop fuel t body off' d'
unfolding decode_loop
loop_round fuel t off off' body d d' h e = rw (e, decode_loop, lt→ltb off (length body) h)

loop_done :
    (fuel t : ℕ) (body : Bytes) (d : Decoded)
    → decode_loop (suc fuel) t body (length body) d ≡ complete d
unfolding decode_loop
loop_done fuel t body d = ground arith

-- The loop stores every string field of a written message, in order, and stops at its end.
pub decode_loop-write_all :
    (fs : List StringField) (fuel t : ℕ) (d : Decoded) (pre : Bytes)
    → length fs < fuel
    → All IsField fs
    → length (write_all fs pre) < u64_mod
    → decode_loop fuel t (write_all fs pre) (length pre) d ≡ complete (store_all t fs d)
decode_loop-write_all fs zero t d pre lt h small = absurd (omega arith)
decode_loop-write_all [] (suc fuel) t d pre lt h small =
    unfold write_all store_all in loop_done fuel t pre d
decode_loop-write_all ((field, v) ∷ fs) (suc fuel) t d pre lt h small =
    first_field (write_all-extends fs (write_string field v pre) h.1) (
      decode_loop-write_all fs fuel t (set_string t field v d) (write_string field v pre)
        (omega arith) h.1 (unfold write_all in small))
  where
    body : Bytes
    body = write_all fs (write_string field v pre)

    first_field :
        (rest : Bytes) × (body ≡ write_string field v pre ++ rest)
        → decode_loop fuel t body (length (write_string field v pre)) (set_string t field v d)
          ≡ complete (store_all t fs (set_string t field v d))
        → decode_loop (suc fuel) t (write_all ((field, v) ∷ fs) pre) (length pre) d
          ≡ complete (store_all t ((field, v) ∷ fs) d)
    first_field (rest, e) ih =
        unfold write_all store_all in
        loop_round fuel t (length pre) (length (write_string field v pre)) body d
          (set_string t field v d)
          (rw e (
            omega (
              arith,
              length-append (write_string field v pre) rest,
              write_string-grows field v pre h.0,
            )))
          (rw e (
            decode_step-write_string t field v pre rest d h.0.0
              (subst (λ b. length b < u64_mod) e (unfold write_all in small))))
        ∙ ih

-- `decodeProtoToJson` of the string fields of a message, written one after the other, is the JSON text of
-- the fields that it knows, as the rounds of its loop store them: one round for each field, and one more, are enough.
pub decode-write_all :
    (fs : List StringField) (fuel t : ℕ)
    → 0 < length fs
    → length fs < fuel
    → All IsField fs
    → length (write_all fs []) < u64_mod
    → decode_proto_to_json fuel t (write_all fs []) ≡ some (to_json t (store_all t fs no_fields))
unfolding decode_proto_to_json finish
decode-write_all [] fuel t pos lt h small = absurd (omega arith)
decode-write_all ((field, v) ∷ fs) fuel t pos lt h small =
    rw (not_empty, decode_loop-write_all ((field, v) ∷ fs) fuel t no_fields [] lt h small)
  where
    nonempty : (b : Bytes) → 0 < length b → is_empty b ≡ false
    nonempty [] p = absurd (omega arith)
    nonempty (x ∷ xs) p = refl

    not_empty : is_empty (write_all ((field, v) ∷ fs) []) ≡ false
    not_empty =
        let (rest, e) = write_all-extends fs (write_string field v []) h.1 in
        nonempty (write_all ((field, v) ∷ fs) []) (
          unfold write_all in
          rw e (
            omega (
              arith,
              length-append (write_string field v []) rest,
              write_string-grows field v [] h.0,
            )))

-- A chat message with sender, target and text is decoded to a JSON text without the target: the decoder
-- stores field 2 in `peer`, and prints `target`, which nothing sets.
pub chat_target_lost :
    (s t m : Bytes) (fuel : ℕ)
    → 3 < fuel
    → is_empty s ≡ false
    → is_empty m ≡ false
    → length (write_string 3 m (write_string 2 t (write_string 1 s []))) < u64_mod
    → All (λ b. length b < u64_mod) (s ∷ t ∷ m ∷ [])
    → decode_proto_to_json fuel 1 (write_string 3 m (write_string 2 t (write_string 1 s [])))
      ≡ some (codes "{\"sender\":\"" ++ (s ++ (codes "\",\"message\":\"" ++ (m ++ codes "\"}"))))
unfolding write_all store_all to_json members add_kv add_kv_num has_json set_string
chat_target_lost s t m fuel lt hs hm small h =
    decode-write_all ((1, s) ∷ (2, t) ∷ (3, m) ∷ []) fuel 1 (omega arith) (omega arith)
      (omega arith) small
    ∙ rw (hs, hm) (ap some (simp append_assoc))
