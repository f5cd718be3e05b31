-- ===== src/Proto/Objects/Back.antt =====
-- `decodeProtoToJson` makes of a request's body the JSON text again.
use linux.Base.{
  ℕ, ◌^◌, ◌≤◌, ◌<◌, ◌≡◌, ap, ◌∙◌, some, [], ◌∷◌, append_assoc, arith, Bytes, u64_mod, All, length,
}
use linux.Wire.{write_string}
use linux.Json.{encode_json_to_proto}
use linux.Proto.{decode_proto_to_json, to_json, members, has_json, add_kv}
use linux.Proto.Fields.{no_fields, set_string}
use linux.Proto.Messages.{write_string-length, write_all, store_all, decode-write_all, IsField}
use linux.Proto.Objects.{
  Request, identify, login, history, add_friend, type_of, text, fields, IsRequest,
  encode_json_to_proto-text,
}

-- The bytes of a request fit a `size_t`.
one :
    (v : Bytes)
    → length v < 2 ^ 32
    → All IsField ((1, v) ∷ []) × (length (write_all ((1, v) ∷ []) []) < u64_mod)
unfolding write_all
one v h = ((omega arith, tt), omega (arith, write_string-length 1 v [] (omega arith) (omega arith)))

two :
    (v w : Bytes)
    → length v < 2 ^ 32
    → length w < 2 ^ 32
    → All IsField ((1, v) ∷ (2, w) ∷ []) × (length (write_all ((1, v) ∷ (2, w) ∷ []) []) < u64_mod)
unfolding write_all
two v w h k = (
  (omega arith, (omega arith, tt)),
  omega (
    arith,
    write_string-length 1 v [] (omega arith) (omega arith),
    write_string-length 2 w (write_string 1 v []) (omega arith) (omega arith),
  ),
)

fields-IsField :
    (r : Request)
    → IsRequest r
    → All IsField (fields r) × (length (write_all (fields r) []) < u64_mod)
fields-IsField (identify s) h = one s h.2
fields-IsField (login u p) (hu, hp, _) = two u p hu.2 hp.2
fields-IsField (history t p) (ht, hp, _) = two t p ht.2 hp.2
fields-IsField (add_friend f) h = one f h.2

to_json-fields :
    (r : Request)
    → IsRequest r
    → to_json (type_of r) (store_all (type_of r) (fields r) no_fields) ≡ text r
unfolding to_json members add_kv has_json set_string store_all
to_json-fields (identify s) h = rw h.0 (simp append_assoc)
to_json-fields (login u p) h = rw (h.0.0, h.1.0) (simp append_assoc)
to_json-fields (history t p) h = rw (h.0.0, h.1.0) (simp append_assoc)
to_json-fields (add_friend f) h = rw h.0 (simp append_assoc)

-- A request of type 3, 4, 7 or 9 as JSON text, made a body by `encodeJsonToProto` and read by `decodeProtoToJson`, is
-- the same text again, when its values are not empty, have neither quotes nor backslashes, are shorter than
-- `2 ^ 32` bytes, and the first is not the second's key.
pub decode-encode_json_to_proto :
    (r : Request) (fuel : ℕ)
    → IsRequest r
    → 2 < fuel
    → decode_proto_to_json fuel (type_of r) (encode_json_to_proto (type_of r) (text r))
      ≡ some (text r)
decode-encode_json_to_proto r fuel h lt =
    let (ok, small) = fields-IsField r h in
    ap (decode_proto_to_json fuel (type_of r)) (encode_json_to_proto-text r h)
    ∙ decode-write_all (fields r) fuel (type_of r) (some_fields r).0 (omega (arith, some_fields r))
        ok small
    ∙ ap some (to_json-fields r h)
  where
    some_fields : (r : Request) → (0 < length (fields r)) × (length (fields r) ≤ 2)
    some_fields (identify s) = omega arith
    some_fields (login u p) = omega arith
    some_fields (history t p) = omega arith
    some_fields (add_friend f) = omega arith
