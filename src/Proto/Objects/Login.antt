-- ===== src/Proto/Objects/Login.antt =====
-- What the handler of a login reads of the names.
use linux.Base.{
  ℕ, ◌<◌, ◌≡◌, refl, ◌≢◌, Bool, true, ◌&&◌, not, some, [], ◌∷◌, arith, Bytes, All, eqb, ◌==◌,
  get_or, codes,
}
use linux.Json.{extract_json_value, encode_json_to_proto}
use linux.Json.Values.{cut, extract_json_value-first, extract_json_value-second}
use linux.Proto.{decode_proto_to_json}
use linux.Proto.Objects.{login, text, IsRequest, before_second, is_plain, is_plain-IsPlain}
use linux.Proto.Objects.Back.{decode-encode_json_to_proto}

lacks : ℕ → Bytes → Bool
lacks c [] = true
lacks c (x ∷ v) = not (x == c) && lacks c v

lacks-All : (c : ℕ) (v : Bytes) → lacks c v ≡ true → All (λ x. x ≢ c) v
unfolding lacks
lacks-All c [] h = tt
lacks-All c (x ∷ v) h = (ground (arith, h), lacks-All c v (ground (arith, h)))

-- A login that `encodeJsonToProto` sent: `decodeProtoToJson` gives a text in which `extractJsonValue` finds the
-- account and the password, each only up to its first comma or closing brace. The names are as for the round trip and
-- do not begin with a space.
pub decode-login :
    (username password : Bytes) (fuel : ℕ)
    → IsRequest (login username password)
    → get_or username 0 b' ' ≢ b' '
    → get_or password 0 b' ' ≢ b' '
    → 2 < fuel
    → (decode_proto_to_json fuel 4 (encode_json_to_proto 4 (text (login username password)))
        ≡ some (text (login username password)))
      × (extract_json_value (text (login username password)) (codes "username") ≡ cut username)
      × (extract_json_value (text (login username password)) (codes "password") ≡ cut password)
unfolding is_plain eqb lacks
decode-login u p fuel (hu, hp, other) first_u first_p lt = (
  decode-encode_json_to_proto (login u p) fuel (hu, hp, other) lt,
  extract_json_value-first (codes "username") u _ (lacks-All b':' (codes "username") refl) hu.1
      first_u,
  extract_json_value-second (codes "username") u (codes "password") p _
      (is_plain-IsPlain (codes "password") refl)
      (before_second (codes "username") u (codes "password") hu.1 other refl)
      (lacks-All b':' (codes "password") refl) hp.1 first_p,
)
