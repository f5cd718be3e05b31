-- ===== src/Pending/Store.antt =====
-- What is pending after a message was stored, and after its ACK.
use linux.Base.{
  ℕ, ◌+◌, ◌<◌, ◌≡◌, refl, sym, ◌∙◌, inl, inr, Bool, true, false, ◌&&◌, ◌||◌, Option, none, some,
  List, [], ◌∷◌, arith, Bytes, eqb, ◌==◌, if◌then◌else◌, Bool-cases, is_empty,
}
use linux.Decimal.{to_string}
use linux.Pending.Commands.{Redis, Laws}
use linux.Pending.Keys.{
  payload_key-eqb, schedule_key-eqb, attempts_key-eqb, payload_attempts, attempts_payload,
}
use linux.Pending.{
  payload_key, schedule_key, attempts_key, retry_delay_ms, message_id, store_script, store_with,
  stored_reply, store_pending_message, ack_script, ack_pending_message, id_texts,
}

-- The entries of one message of one user: its payload, when it is due, and its attempts.
abbrev pub Entry : Type 0
Entry = Option Bytes × Option ℕ × Option Bytes

if_entry :
    (c : Bool) (p : Option Bytes) (d : Option ℕ) (a : Option Bytes) (e : Entry)
    → ◌≡◌ {A = Entry}
        (if c then p else e.0, if c then d else e.1, if c then a else e.2)
        (if c then (p, d, a) else e)
if_entry true p d a e = refl
if_entry false p d a e = refl

-- Whether a text is one of a list.
pub listed : Bytes → List Bytes → Bool
listed i [] = false
listed i (id ∷ ids) = eqb id i || listed i ids

if_or :
    (u x y : Bool) (a b : Entry)
    → (if u && y then a else if u && x then a else b) ≡ (if u && (x || y) then a else b)
if_or true true true a b = refl
if_or true true false a b = refl
if_or true false true a b = refl
if_or true false false a b = refl
if_or false x y a b = refl

if_never : (u : Bool) (a b : Entry) → (if u && false then a else b) ≡ b
if_never true a b = refl
if_never false a b = refl

module _ {ℓ} {S : Type ℓ} (redis : Redis S) (laws : Laws redis) where
  open redis use {hset, hdel, zadd, zrem, sadd, expire}
  open laws use {field, score, connected_is, eval_runs}

  abbrev pub entry : Bytes → Bytes → S → Entry
  entry user id s = (
    field (payload_key user) id s,
    score (schedule_key user) id s,
    field (attempts_key user) id s,
  )

  store_script-entry :
      (user id json : Bytes) (due : ℕ) (u i : Bytes) (s : S)
      → entry u i (store_script redis user id json due s).1 ≡ (
          if eqb user u && eqb id i then (some json, some due, some (to_string 0)) else entry u i s)
  unfolding store_script
  store_script-entry user id json due u i s =
      simp
        (
          laws.field-expire, laws.field-sadd, laws.field-hset, laws.field-zadd, laws.score-expire,
          laws.score-sadd, laws.score-hset, laws.score-zadd, payload_key-eqb, schedule_key-eqb,
          attempts_key-eqb, payload_attempts, attempts_payload,
        )
        (if_entry (eqb user u && eqb id i) (some json) (some due) (some (to_string 0))
          (entry u i s))

  drop_id : Bytes → Bytes → S → S
  drop_id user id s =
      hdel (attempts_key user) id (zrem (schedule_key user) id (hdel (payload_key user) id s))

  drop_id-entry :
      (user id u i : Bytes) (s : S)
      → entry u i (drop_id user id s)
        ≡ (if eqb user u && eqb id i then (none, none, none) else entry u i s)
  unfolding drop_id
  drop_id-entry user id u i s =
      simp
        (
          laws.field-hdel, laws.field-zrem, laws.score-hdel, laws.score-zrem, payload_key-eqb,
          schedule_key-eqb, attempts_key-eqb, payload_attempts, attempts_payload,
        )
        (if_entry (eqb user u && eqb id i) none none none (entry u i s))

  ack_script-entry :
      (user : Bytes) (ids : List Bytes) (u i : Bytes) (s : S)
      → entry u i (ack_script redis user ids s).1
        ≡ (if eqb user u && listed i ids then (none, none, none) else entry u i s)
  unfolding ack_script listed drop_id
  ack_script-entry user [] u i s = elim (Bool-cases (eqb user u)) [
    | inl e ↦ rw e refl
    | inr e ↦ rw e refl
  ]
  ack_script-entry user (id ∷ ids) u i s =
      ack_script-entry user ids u i (drop_id user id s)
      ∙ rw (drop_id-entry user id u i s)
          (if_or (eqb user u) (eqb id i) (listed i ids) (none, none, none) (entry u i s))

  -- Storing a message with an id, when Redis answers: it returns `true`, the message is pending with its
  -- payload, due in three seconds, with no attempt, and every other message of every user is as before.
  pub store_pending_message-entry :
      (user json : Bytes) (id now : ℕ) (s : S)
      → is_empty user ≡ false
      → is_empty json ≡ false
      → 0 < id
      → ((store_pending_message redis user id json now s).0 ≡ true)
        × ((u i : Bytes)
            → entry u i (store_pending_message redis user id json now s).1 ≡ (
                if eqb user u && eqb (to_string id) i
                then (some json, some (now + retry_delay_ms), some (to_string 0))
                else entry u i s))
  unfolding store_pending_message message_id store_with stored_reply
  store_pending_message-entry user json id now s hu hj hi =
      let positive : (id == 0) ≡ false = ground arith in
      rw (hu, hj, positive, positive, connected_is, eval_runs)
        (
          unfold store_script in refl,
          λ u i.
              unfold store_script in
              store_script-entry user (to_string id) json (now + retry_delay_ms) u i s,
        )

  -- An ACK removes the payload, the schedule and the attempts of the messages it names, ids of 0 left out, and
  -- nothing of any other message.
  pub ack_pending_message-entry :
      (user : Bytes) (ids : List ℕ) (s : S) (u i : Bytes)
      → is_empty user ≡ false
      → entry u i (ack_pending_message redis user ids s)
        ≡ (if eqb user u && listed i (id_texts ids) then (none, none, none) else entry u i s)
  unfolding ack_pending_message id_texts listed ack_script
  ack_pending_message-entry user ids s u i hu = elim (Bool-cases (is_empty (id_texts ids))) [
    | inl e ↦ skipped (id_texts ids) e (elim (Bool-cases (is_empty ids)) [
      | inl f ↦ rw (hu, f) refl
      | inr f ↦ rw (hu, f, connected_is, e) refl
    ])
    | inr e ↦
        rw (hu, no_ids ids e, connected_is, e, eval_runs)
          (ack_script-entry user (id_texts ids) u i s)
  ]
    where
      no_ids : (ids : List ℕ) → is_empty (id_texts ids) ≡ false → is_empty ids ≡ false
      no_ids [] e = cc
      no_ids (x ∷ xs) e = refl

      skipped :
          (texts : List Bytes)
          → is_empty texts ≡ true
          → entry u i (ack_pending_message redis user ids s) ≡ entry u i s
          → entry u i (ack_pending_message redis user ids s)
            ≡ (if eqb user u && listed i texts then (none, none, none) else entry u i s)
      skipped [] e same = same ∙ sym (if_never (eqb user u) (none, none, none) (entry u i s))
      skipped (x ∷ xs) e same = cc
