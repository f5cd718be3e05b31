-- ===== src/Tests/Waiting.antt =====
-- The waiting messages, the friend list, and the queries of a login at concrete inputs.
use linux.Base.{
  ℕ, suc, ◌+◌, ◌-◌, ◌≤◌, ◌≡◌, refl, true, ◌&&◌, Option, none, some, List, [], ◌∷◌, arith, Bytes,
  eqb, if◌then◌else◌, codes,
}
use linux.Decimal.{to_string}
use linux.Database.Mysql.{Client}
use linux.Database.{fits, column, check_login_from_database, password_matches}
use linux.Database.Fetch.{login_sql, check_login_sound}
use linux.Pending.Commands.{c_str}
use linux.Pending.Toy.{Memory, toy, toy-Laws, toy-TextLaws, empty_memory}
use linux.Pending.{
  payload_key, retry_delay_ms, retry_max_attempts, id_texts, store_pending_message,
  ack_pending_message,
}
use linux.Pending.Store.{entry, listed, store_pending_message-entry, ack_pending_message-entry}
use linux.Pending.Retry.{attempts}
use linux.Pending.Attempts.{resends, resends_bounded}
use linux.Friends.{from_db, get_friend_list_json, invalidate_friend_list_cache}
use linux.Friends.Cache.{get_friend_list_json-invalidate}

abbrev alice : Bytes
alice = b'a' ∷ []

abbrev hello : Bytes
hello = codes "{\"msg_id\":\"7\"}"

store_pending_message-entry_example :
    ((store_pending_message (toy []) alice 7 hello 1000 empty_memory).0 ≡ true)
    × ((u i : Bytes)
        → entry
            (toy [])
            (toy-Laws [])
            u
            i
            (store_pending_message (toy []) alice 7 hello 1000 empty_memory).1
          ≡ (if eqb alice u && eqb (to_string 7) i
              then (some hello, some (1000 + retry_delay_ms), some (to_string 0))
              else entry (toy []) (toy-Laws []) u i empty_memory))
store_pending_message-entry_example =
    store_pending_message-entry (toy []) (toy-Laws []) alice hello 7 1000 empty_memory refl refl
      (omega arith)

ack_pending_message-entry_example :
    entry
      (toy [])
      (toy-Laws [])
      alice
      (to_string 7)
      (ack_pending_message (toy []) alice (7 ∷ 0 ∷ []) empty_memory)
    ≡ (if eqb alice alice && listed (to_string 7) (id_texts (7 ∷ 0 ∷ []))
        then (none, none, none)
        else entry (toy []) (toy-Laws []) alice (to_string 7) empty_memory)
ack_pending_message-entry_example =
    ack_pending_message-entry (toy []) (toy-Laws []) alice (7 ∷ 0 ∷ []) empty_memory alice
      (to_string 7) refl

-- Redis finds one id, of a message that is stored.
abbrev one_id : List (Option Bytes)
one_id = some (b'7' ∷ []) ∷ []

abbrev stored : Memory
stored = record {
  fields = λ k f. if eqb k (payload_key alice) && eqb f (b'7' ∷ []) then some hello else none;
  scores = λ k f. some 500;
  texts = λ k. none;
}

resends_bounded_example :
    resends (toy []) (toy-Laws []) 9 alice (λ n. 1000) hello empty_memory
    ≤ retry_max_attempts - attempts (toy []) (toy-Laws []) alice hello empty_memory
resends_bounded_example =
    resends_bounded (toy []) (toy-Laws []) 9 alice (λ n. 1000) hello empty_memory

-- The message was sent five times.
abbrev given_up : Memory
given_up = record { fields = λ k f. some (to_string 5); scores = λ k f. none; texts = λ k. none }

-- A database that finds the password "p" for every account.
abbrev open_door : Client ℕ
open_door = record {
  connected = true;
  statement = true;
  prepares = λ sql. true;
  binds = true;
  executes =
      λ sql params d. (record { ok = true; affected = 0; rows = ((b'p' ∷ []) ∷ []) ∷ [] }, suc d);
}

open_door-lets_in : (check_login_from_database open_door alice (b'p' ∷ []) 0).0 ≡ true
unfolding check_login_from_database password_matches fits eqb
open_door-lets_in = refl

check_login_sound_example :
    (open_door.connected ≡ true)
    × (open_door.prepares login_sql ≡ true)
    × ((open_door.executes login_sql (alice ∷ []) 0).0.ok ≡ true)
    × ((row : List Bytes) × (rest : List (List Bytes)) × ((open_door.executes login_sql
            (alice ∷ [])
            0).0.rows
          ≡ row ∷ rest)
        × (fits (64 ∷ []) row ≡ true)
        × (column 0 row ≡ b'p' ∷ []))
check_login_sound_example = check_login_sound open_door alice (b'p' ∷ []) 0 open_door-lets_in

get_friend_list_json-invalidate_example :
    let (json, (s', d')) =
      get_friend_list_json
        (toy [])
        open_door
        alice
        (invalidate_friend_list_cache (toy []) alice empty_memory)
        0 in
    (◌≡◌ {A = Bytes × ℕ} (json, d') (from_db open_door alice 0))
    × (◌≡◌ {A = Bytes × (Memory × ℕ)}
        (get_friend_list_json (toy []) open_door alice s' 5)
        (c_str json, (s', 5)))
get_friend_list_json-invalidate_example =
    get_friend_list_json-invalidate (toy []) (toy-TextLaws []) open_door alice empty_memory 0 5 refl
