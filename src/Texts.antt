-- ===== src/Texts.antt =====
-- Texts that the server builds: chat bodies, friend lists, and the session id of two users.
pub mod SessionId
pub mod Chat
use linux.Base.{
  ℕ, ◌/◌, ◌^◌, bit_and, Bool, true, false, ◌||◌, List, [], ◌∷◌, ◌++◌, Bytes, ltb, ◌==◌,
  if◌then◌else◌, get_or, codes, is_empty,
}
use linux.Decimal.{to_string}

-- `buildEnrichedChatBodyWithMsgId`.
unfoldable pub build_enriched_chat_body_with_msg_id : ℕ → Bytes → Bytes → Bytes → Bytes → Bytes
build_enriched_chat_body_with_msg_id msg_id sender target message ts =
    codes "{\"msg_id\":\""
    ++ (to_string msg_id
        ++ (codes "\",\"sender\":\""
            ++ (sender
                ++ (codes "\",\"target\":\""
                    ++ (target
                        ++ (codes "\",\"message\":\""
                            ++ (message
                                ++ (codes "\",\"timestamp\":\"" ++ (ts ++ codes "\"}")))))))))

-- The names of `buildFriendListJson`, with commas between them.
friend_names : List Bytes → Bytes
friend_names [] = []
friend_names (f ∷ []) = codes "\"" ++ (f ++ codes "\"")
friend_names (f ∷ g ∷ fs) =
    codes "\"" ++ (f ++ (codes "\"" ++ (codes "," ++ friend_names (g ∷ fs))))

pub build_friend_list_json : List Bytes → Bytes
unfolding friend_names
build_friend_list_json friends = codes "{\"friends\":[" ++ (friend_names friends ++ codes "]}")

-- `operator>` of two `std::string`.
pub text_greater : Bytes → Bytes → Bool
text_greater [] b = false
text_greater (x ∷ a) [] = true
text_greater (x ∷ a) (y ∷ b) =
    let rest = text_greater a b in if ltb y x then true else if x == y then rest else false

hex_digit : ℕ → ℕ
hex_digit d = get_or (codes "0123456789abcdef") d 0

pub hex_text : Bytes → Bytes
unfolding hex_digit
hex_text [] = []
hex_text (d ∷ digest) =
    hex_digit (bit_and (d / 2 ^ 4) 0xf) ∷ hex_digit (bit_and d 0xf) ∷ hex_text digest

-- `md5` is OpenSSL's: sixteen bytes.
pub build_session_id : (Bytes → Bytes) → Bytes → Bytes → Bytes
build_session_id md5 sender target =
    let seed =
      if text_greater sender target
      then target ++ (codes "#" ++ sender)
      else sender ++ (codes "#" ++ target) in
    if is_empty sender || is_empty target then [] else hex_text (md5 seed)
