-- ===== src/Proto/Objects.antt =====
-- Requests as JSON text, and the bodies that `encodeJsonToProto` makes of them.
pub mod Back
pub mod Login
use linux.Base.{
  ℕ, ◌^◌, ◌<◌, ◌≡◌, refl, sym, ap, ◌∙◌, ◌≢◌, Bool, true, false, ◌&&◌, ◌||◌, not, List, [], ◌∷◌,
  ◌++◌, arith, Bytes, All, eqb, eqb_refl, ◌==◌, length, codes, is_empty, true_ne_false,
}
use linux.Wire.{write_string}
use linux.Json.{peer_of, encode_json_to_proto, put_string, get, extract_json_string_fast}
use linux.Json.Extract.{IsPlain, after_name, member_text, extract_json_string_fast-member}
use linux.Json.Members.{member_before, extract_json_string_fast-second, get_fast}
use linux.Proto.{decode_proto_to_json, to_json, members, has_json, add_kv}
use linux.Proto.Fields.{no_fields, set_string}
use linux.Proto.Messages.{write_all, store_all, decode-write_all, IsField, StringField}

-- The requests that are made of names only: a packet of type 3, 4, 7 or 9.
pub data Request : Type 0 where
  identify : (sender : Bytes) → Request
  login : (username password : Bytes) → Request
  history : (last_timestamp peer : Bytes) → Request
  add_friend : (friend : Bytes) → Request

abbrev pub type_of : Request → ℕ
type_of (identify sender) = 3
type_of (login username password) = 4
type_of (history last_timestamp peer) = 7
type_of (add_friend friend) = 9

-- The members of its JSON text.
abbrev pub one_member : Bytes → Bytes → Bytes
one_member k v = b'{' ∷ b'"' ∷ (k ++ after_name v (b'}' ∷ []))

abbrev pub two_members : Bytes → Bytes → Bytes → Bytes → Bytes
two_members k v l w = b'{' ∷ member_before k v (l ++ after_name w (b'}' ∷ []))

abbrev pub text : Request → Bytes
text (identify sender) = one_member (codes "sender") sender
text (login username password) = two_members (codes "username") username (codes "password") password
text (history last_timestamp peer) =
    two_members (codes "last_timestamp") last_timestamp (codes "peer") peer
text (add_friend friend) = one_member (codes "friend") friend

-- A value that is not empty, has neither quotes nor backslashes, and is not too long.
abbrev pub IsValue : Bytes → Type 0
IsValue v = (is_empty v ≡ false) × IsPlain v × (length v < 2 ^ 32)

-- The first of two values is not the second's key, which the reader would stop at.
abbrev pub IsRequest : Request → Type 0
IsRequest (identify sender) = IsValue sender
IsRequest (login username password) =
    IsValue username × IsValue password × (username ≢ codes "password")
IsRequest (history last_timestamp peer) =
    IsValue last_timestamp × IsValue peer × (last_timestamp ≢ codes "peer")
IsRequest (add_friend friend) = IsValue friend

get_first :
    (k v rest : Bytes) → is_empty k ≡ false → IsValue v → get (b'{' ∷ member_text k v rest) k ≡ v
get_first k v rest full h =
    get_fast (b'{' ∷ member_text k v rest) k v h.0
      (extract_json_string_fast-member k v (b'{' ∷ []) rest full (omega arith, tt) h.1)

get_second :
    (k v key w rest : Bytes)
    → IsPlain key
    → All (λ name. IsPlain name × (name ≢ key)) (k ∷ v ∷ (b':' ∷ []) ∷ (b',' ∷ []) ∷ [])
    → is_empty key ≡ false
    → IsValue w
    → get (b'{' ∷ member_before k v (key ++ after_name w rest)) key ≡ w
get_second k v key w rest plain names full h =
    get_fast (b'{' ∷ member_before k v (key ++ after_name w rest)) key w h.0
      (extract_json_string_fast-second k v key w rest plain names full h.1)

put_full :
    (field : ℕ) (v out : Bytes)
    → is_empty v ≡ false
    → put_string field v out ≡ write_string field v out
unfolding put_string
put_full field v out e = rw e refl

-- The values of a request, with their field numbers.
abbrev pub fields : Request → List StringField
fields (identify sender) = (1, sender) ∷ []
fields (login username password) = (1, username) ∷ (2, password) ∷ []
fields (history last_timestamp peer) = (1, last_timestamp) ∷ (2, peer) ∷ []
fields (add_friend friend) = (1, friend) ∷ []

unfoldable pub is_plain : Bytes → Bool
is_plain [] = true
is_plain (c ∷ v) = not (c == b'"' || c == b'\\') && is_plain v

pub is_plain-IsPlain : (v : Bytes) → is_plain v ≡ true → IsPlain v
unfolding is_plain
is_plain-IsPlain [] h = tt
is_plain-IsPlain (c ∷ v) h = (ground (arith, h), is_plain-IsPlain v (ground (arith, h)))

differ : (a b : Bytes) → eqb a b ≡ false → a ≢ b
differ a b h e = absurd (true_ne_false (sym (ap (λ x. eqb x b) e ∙ eqb_refl b) ∙ h))

-- What stands before the second key of a request is never taken for it.
pub before_second :
    (k v key : Bytes)
    → IsPlain v
    → v ≢ key
    → (is_plain k && not (eqb k key) && not (eqb (b':' ∷ []) key) && not (eqb (b',' ∷ []) key))
      ≡ true
    → All (λ name. IsPlain name × (name ≢ key)) (k ∷ v ∷ (b':' ∷ []) ∷ (b',' ∷ []) ∷ [])
before_second k v key hv other h = (
  (is_plain-IsPlain k (ground (arith, h)), differ k key (ground (arith, h))),
  (
    (hv, other),
    (
      ((omega arith, tt), differ (b':' ∷ []) key (ground (arith, h))),
      (((omega arith, tt), differ (b',' ∷ []) key (ground (arith, h))), tt),
    ),
  ),
)

pub encode_json_to_proto-text :
    (r : Request)
    → IsRequest r
    → encode_json_to_proto (type_of r) (text r) ≡ write_all (fields r) []
unfolding encode_json_to_proto write_all peer_of is_plain eqb
encode_json_to_proto-text (identify s) h =
    let first = get_first (codes "sender") s (b'}' ∷ []) refl h in rw first (put_full 1 s [] h.0)
encode_json_to_proto-text (login u p) (hu, hp, other) =
    let first =
      get_first (codes "username") u (b',' ∷ b'"' ∷ (codes "password" ++ after_name p (b'}' ∷ [])))
        refl hu in
    let second =
      get_second (codes "username") u (codes "password") p (b'}' ∷ [])
        (is_plain-IsPlain (codes "password") refl)
        (before_second (codes "username") u (codes "password") hu.1 other refl) refl hp in
    rw (first, second)
      (put_full 2 p (put_string 1 u []) hp.0 ∙ ap (write_string 2 p) (put_full 1 u [] hu.0))
encode_json_to_proto-text (history t p) (ht, hp, other) =
    let first =
      get_first (codes "last_timestamp") t
        (b',' ∷ b'"' ∷ (codes "peer" ++ after_name p (b'}' ∷ []))) refl ht in
    let second =
      get_second (codes "last_timestamp") t (codes "peer") p (b'}' ∷ [])
        (is_plain-IsPlain (codes "peer") refl)
        (before_second (codes "last_timestamp") t (codes "peer") ht.1 other refl) refl hp in
    rw (first, second, hp.0)
      (put_full 2 p (put_string 1 t []) hp.0 ∙ ap (write_string 2 p) (put_full 1 t [] ht.0))
encode_json_to_proto-text (add_friend f) h =
    let first = get_first (codes "friend") f (b'}' ∷ []) refl h in rw first (put_full 1 f [] h.0)
