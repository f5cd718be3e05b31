-- ===== src/Texts/SessionId.antt =====
-- Both users of a chat have the same session id.
use linux.Base.{
  ◌*◌, ◌≡◌, refl, sym, ap, ap₂, inl, inr, true, false, ◌||◌, [], ◌∷◌, ◌++◌, arith, Bytes,
  if◌then◌else◌, Bool-cases, length, codes, is_empty,
}
use linux.Texts.{text_greater, hex_text, build_session_id}

text_greater-antisym : (a b : Bytes) → text_greater a b ≡ true → text_greater b a ≡ false
unfolding text_greater
text_greater-antisym [] b h = cc
text_greater-antisym (x ∷ a) [] h = refl
text_greater-antisym (x ∷ a) (y ∷ b) h = ground (arith, text_greater-antisym a b)

text_greater-total : (a b : Bytes) → text_greater a b ≡ false → text_greater b a ≡ false → a ≡ b
unfolding text_greater
text_greater-total [] [] h k = refl
text_greater-total [] (y ∷ b) h k = cc
text_greater-total (x ∷ a) [] h k = cc
text_greater-total (x ∷ a) (y ∷ b) h k = ground (arith, text_greater-total a b)

length-hex_text : (digest : Bytes) → length (hex_text digest) ≡ 2 * length digest
unfolding hex_text
length-hex_text [] = refl
length-hex_text (d ∷ digest) = omega (arith, length-hex_text digest)

either_empty : (a b : Bytes) → (is_empty a || is_empty b) ≡ (is_empty b || is_empty a)
either_empty [] [] = refl
either_empty [] (y ∷ b) = refl
either_empty (x ∷ a) [] = refl
either_empty (x ∷ a) (y ∷ b) = refl

-- The session id does not depend on who sends and who receives, and has two digits for each byte of the
-- digest, or none when a name is empty.
pub build_session_id_comm :
    (md5 : Bytes → Bytes) (a b : Bytes)
    → (build_session_id md5 a b ≡ build_session_id md5 b a)
      × ((is_empty a || is_empty b) ≡ true → build_session_id md5 a b ≡ [])
      × ((is_empty a || is_empty b) ≡ false
          → (d : Bytes) × (length (build_session_id md5 a b) ≡ 2 * length (md5 d)))
unfolding build_session_id
build_session_id_comm md5 a b = (
  rw (either_empty a b) (ap (λ s. if is_empty b || is_empty a then [] else hex_text (md5 s)) seeds),
  λ h. rw h refl,
  λ h. rw h (_, length-hex_text (md5 _)),
)
  where
    seeds :
        (if text_greater a b then b ++ (codes "#" ++ a) else a ++ (codes "#" ++ b))
        ≡ (if text_greater b a then a ++ (codes "#" ++ b) else b ++ (codes "#" ++ a))
    seeds = elim (Bool-cases (text_greater a b)) [
      | inl e ↦ rw (e, text_greater-antisym a b e) refl
      | inr e ↦ elim (Bool-cases (text_greater b a)) [
        | inl f ↦ rw (e, f) refl
        | inr f ↦
            let same = text_greater-total a b e f in
            rw (e, f) (ap₂ (λ x y. x ++ (codes "#" ++ y)) same (sym same))
      ]
    ]
