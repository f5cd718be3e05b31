-- ===== src/Pending/Retry.antt =====
-- Dispatches leave the payloads where they are.
use linux.Base.{
  ℕ, ◌+◌, ◌-◌, ◌<◌, ◌≡◌, refl, ◌∙◌, inl, inr, Bool, true, false, ◌&&◌, ◌||◌, not, Option, none,
  some, List, [], ◌∷◌, ◌++◌, Bytes, u64_mod, eqb, leb, ◌==◌, if◌then◌else◌, Bool-cases, codes,
  is_empty,
}
use linux.Decimal.{to_string}
use linux.Json.{take_while, extract_json_value}
use linux.Json.Numbers.{to_string-no_nul, stoull-to_string}
use linux.Pending.Commands.{
  Redis, Laws, Reply, null_reply, nil_reply, string_reply, integer_reply, array_reply, text_reply,
  c_str,
}
use linux.Pending.{
  payload_key, schedule_key, attempts_key, retry_delay_ms, retry_max_attempts, retry_batch_per_user,
  atoi, get_pending_attempt, attempt_of, set_pending_attempt, dispatch_message, dispatch_messages,
  collect, payload_of, collect_reply, fetch_pending_messages, dispatch_due_messages_for_user,
}

pub atoi-to_string : (n : ℕ) → n < u64_mod → atoi (c_str (to_string n)) ≡ n
unfolding atoi c_str
atoi-to_string n h = rw (atoi, to_string-no_nul n h, stoull-to_string n h) refl

-- The attempts that a field says: 0 when there is none.
abbrev pub count : Option Bytes → ℕ
count none = 0
count (some v) = atoi (c_str v)

abbrev pub msg_id_of : Bytes → Bytes
msg_id_of msg = extract_json_value msg (codes "msg_id")

module _ {ℓ} {S : Type ℓ} (redis : Redis S) (laws : Laws redis) where
  open redis use {connected}
  open laws use {field, score, connected_is, hget_reads}

  -- The attempts of a message, under the key that the server uses.
  abbrev pub attempts : Bytes → Bytes → S → ℕ
  attempts user msg s = count (field (c_str (attempts_key user)) (c_str (msg_id_of msg)) s)

  get_pending_attempt-reads :
      (user msg : Bytes) (s : S)
      → get_pending_attempt redis user (msg_id_of msg) s ≡ (attempts user msg s, s)
  unfolding get_pending_attempt
  get_pending_attempt-reads user msg s =
      rw (connected_is, hget_reads)
        (reads (field (c_str (attempts_key user)) (c_str (msg_id_of msg)) s))
    where
      reads : (o : Option Bytes) → attempt_of redis (text_reply o, s) ≡ (count o, s)
      reads none = unfold attempt_of in refl
      reads (some v) = unfold attempt_of in refl

  pub attempts_payload : (user u : Bytes) → eqb (c_str (attempts_key user)) (payload_key u) ≡ false
  unfolding c_str take_while attempts_key payload_key eqb
  attempts_payload user u = refl

  -- The state after a message was sent.
  unfoldable pub resent : Bytes → Bool → ℕ → Bytes → S → S
  resent user include_all now msg s =
      redis.zadd (c_str (schedule_key user)) (now + retry_delay_ms) (c_str (msg_id_of msg)) (
        redis.hset (c_str (attempts_key user)) (c_str (msg_id_of msg))
          (to_string (if include_all then attempts user msg s else attempts user msg s + 1)) s)

  abbrev pub outcome : Bool → S → S → Bool × S
  outcome skipped s t = if skipped then (false, s) else (true, t)

  pub dispatch_message-cases :
      (user : Bytes) (include_all : Bool) (now : ℕ) (msg : Bytes) (s : S)
      → dispatch_message redis user include_all now msg s
        ≡ outcome
            (is_empty (msg_id_of msg)
              || (leb retry_max_attempts (attempts user msg s) && not include_all))
            s
            (resent user include_all now msg s)
  unfolding dispatch_message set_pending_attempt resent
  dispatch_message-cases user include_all now msg s =
      simp (get_pending_attempt-reads, connected_is)
        (nested (is_empty (msg_id_of msg))
          (leb retry_max_attempts (attempts user msg s) && not include_all) (false, s)
          (true, resent user include_all now msg s))
    where
      nested :
          (x y : Bool) (a b : Bool × S)
          → (if x then a else if y then a else b) ≡ (if x || y then a else b)
      nested true y a b = refl
      nested false y a b = refl

  -- A dispatch of one message takes no payload away.
  dispatch_message-payload :
      (user : Bytes) (include_all : Bool) (now : ℕ) (msg u i : Bytes) (s : S)
      → field (payload_key u) i (dispatch_message redis user include_all now msg s).1
        ≡ field (payload_key u) i s
  dispatch_message-payload user include_all now msg u i s =
      rw (dispatch_message-cases user include_all now msg s) (
        either (
          is_empty (msg_id_of msg)
          || (leb retry_max_attempts (attempts user msg s) && not include_all)))
    where
      either :
          (c : Bool)
          → field (payload_key u) i (outcome c s (resent user include_all now msg s)).1
            ≡ field (payload_key u) i s
      either true = refl
      either false = unfold resent in simp (laws.field-zadd, laws.field-hset, attempts_payload) refl

  dispatch_messages-payload :
      (user : Bytes) (include_all : Bool) (now : Bytes → ℕ) (msgs : List Bytes) (u i : Bytes)
      (s : S)
      → field (payload_key u) i (dispatch_messages redis user include_all now msgs s).1
        ≡ field (payload_key u) i s
  unfolding dispatch_messages
  dispatch_messages-payload user include_all now [] u i s = refl
  dispatch_messages-payload user include_all now (msg ∷ msgs) u i s =
      dispatch_messages-payload user include_all now msgs u i
        (dispatch_message redis user include_all (now msg) msg s).1
      ∙ dispatch_message-payload user include_all (now msg) msg u i s

  collect-payload :
      (user : Bytes) (ids : List (Option Bytes)) (msgs : List Bytes) (u i : Bytes) (s : S)
      → field (payload_key u) i (collect redis user ids (msgs, s)).1 ≡ field (payload_key u) i s
  unfolding collect
  collect-payload user [] msgs u i s = refl
  collect-payload user (none ∷ ids) msgs u i s = collect-payload user ids msgs u i s
  collect-payload user (some id ∷ ids) msgs u i s =
      rw (collect, hget_reads (c_str (payload_key user)) (c_str id) s)
        (read (field (c_str (payload_key user)) (c_str id) s)
          (λ m t. collect-payload user ids m u i t))
    where
      read :
          (o : Option Bytes)
          → ((m : List Bytes) (t : S)
              → field (payload_key u) i (collect redis user ids (m, t)).1
                ≡ field (payload_key u) i t)
          → field
              (payload_key u)
              i
              (collect redis user ids
                (payload_of redis user (c_str id) (msgs, s) (text_reply o, s))).1
            ≡ field (payload_key u) i s
      read none rest =
          unfold payload_of in
          rest msgs (redis.zrem (schedule_key user) (c_str id) s)
          ∙ laws.field-zrem (schedule_key user) (c_str id) (payload_key u) i s
      read (some v) rest = unfold payload_of in rest (msgs ++ c_str v ∷ []) s

  collect_reply-payload :
      (user : Bytes) (r : Reply) (u i : Bytes) (s : S)
      → field (payload_key u) i (collect_reply redis user (r, s)).1 ≡ field (payload_key u) i s
  unfolding collect_reply
  collect_reply-payload user null_reply u i s = refl
  collect_reply-payload user nil_reply u i s = refl
  collect_reply-payload user (string_reply v) u i s = refl
  collect_reply-payload user (integer_reply v) u i s = refl
  collect_reply-payload user (array_reply ids) u i s = collect-payload user ids [] u i s

  fetch_pending_messages-payload :
      (user : Bytes) (limit : ℕ) (due_only : Bool) (start : ℕ) (u i : Bytes) (s : S)
      → field (payload_key u) i (fetch_pending_messages redis user limit due_only start s).1
        ≡ field (payload_key u) i s
  unfolding fetch_pending_messages
  fetch_pending_messages-payload user limit due_only start u i s =
      elim (Bool-cases (is_empty user || limit == 0 || not connected)) [
        | inl e ↦ rw e refl
        | inr e ↦ rw e (answered due_only)
      ]
    where
      answered :
          (d : Bool)
          → field
              (payload_key u)
              i
              (collect_reply redis user (
                if d
                then redis.zrange_by_score (c_str (schedule_key user)) start limit s
                else redis.zrange (c_str (schedule_key user)) 0 (limit - 1) s)).1
            ≡ field (payload_key u) i s
      answered true =
          let r = redis.zrange_by_score (c_str (schedule_key user)) start limit s in
          collect_reply-payload user r.0 u i r.1
          ∙ laws.field-zrange_by_score (c_str (schedule_key user)) start limit (payload_key u) i s
      answered false =
          let r = redis.zrange (c_str (schedule_key user)) 0 (limit - 1) s in
          collect_reply-payload user r.0 u i r.1
          ∙ laws.field-zrange (c_str (schedule_key user)) 0 (limit - 1) (payload_key u) i s

  -- A dispatch of the messages that are due, or of all, leaves the payload of every message of every user where
  -- it was.
  pub dispatch_due_messages_for_user-payload :
      (user : Bytes) (include_all : Bool) (start : ℕ) (now : Bytes → ℕ) (u i : Bytes) (s : S)
      → field
          (payload_key u)
          i
          (dispatch_due_messages_for_user redis user include_all start now s).1
        ≡ field (payload_key u) i s
  unfolding dispatch_due_messages_for_user
  dispatch_due_messages_for_user-payload user include_all start now u i s =
      elim (Bool-cases (is_empty user)) [
        | inl e ↦ rw e refl
        | inr e ↦
            let fetched =
              fetch_pending_messages redis user retry_batch_per_user (not include_all) start s in
            rw e (
              dispatch_messages-payload user include_all now fetched.0 u i fetched.1
              ∙ fetch_pending_messages-payload user retry_batch_per_user (not include_all) start u i
                  s)
      ]
