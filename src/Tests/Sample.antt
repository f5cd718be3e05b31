-- ===== src/Tests/Sample.antt =====
-- A server with one client, and what the tests ask of it.
use linux.Base.{
  ℕ, suc, ◌+◌, ◌*◌, ◌^◌, ◌≡◌, refl, ap, true, false, some, [], ◌∷◌, ◌++◌, Bytes, eqb, length, codes,
}
use linux.Json.{
  skip_while, extract_json_string_fast, scan_key, colon, open_quote, scan_value, is_blank,
}
use linux.Registry.{ClientContext, add_client_ctx}
use linux.Registry.Placed.{empty_registry}
use linux.Snowflake.{Generator, next_id, next_at, issue}
use linux.Tasks.{init, start}
use linux.Database.Mysql.{Client}
use linux.Pending.Toy.{Memory, toy, empty_memory}
use linux.Dispatch.State.{Server, World}
use linux.Dispatch.{parse_chat_fields_fast, chat_fields}

abbrev pub alice : Bytes
alice = b'a' ∷ []

abbrev pub visitor : ClientContext
visitor = record { serial = 1; fd = 9; account_id = [] }

-- A database that finds the password "p" for every account.
abbrev pub open_door : Client ℕ
open_door = record {
  connected = true;
  statement = true;
  prepares = λ sql. true;
  binds = true;
  executes =
      λ sql params d. (record { ok = true; affected = 0; rows = ((b'p' ∷ []) ∷ []) ∷ [] }, suc d);
}

abbrev pub world : World Memory ℕ
world = record { hash = length; md5 = λ s. s; redis = toy []; client = open_door }

abbrev pub server : Server Memory ℕ
server = record {
  registry = add_client_ctx visitor empty_registry;
  generator = record { worker_id = 5; last_ts = 0; sequence = 0 };
  db_tasks = start (init 0);
  redis_tasks = start (init 0);
  chat_log = record {
    active_queue = [];
    flush_queue = [];
    queue_depth = 0;
    dropped = 0;
    written = [];
    lost = [];
  };
  store = empty_memory;
  database = 0;
  sent = [];
}

abbrev pub issued : Generator
issued = record { worker_id = 5; last_ts = 1704067200001; sequence = 0 }

abbrev pub first_id : ℕ
first_id = 2 ^ 22 + 5 * 2 ^ 12

pub first :
    next_id 1704067200001 [] (record { worker_id = 5; last_ts = 0; sequence = 0 })
    ≡ some (first_id, issued)
unfolding next_id next_at issue
first = ap some refl

abbrev pub chat_body : Bytes → Bytes
chat_body target =
    codes "{\"sender\":\"a\",\"target\":\"" ++ (target ++ codes "\",\"message\":\"hi\"}")

pub to_bob : chat_fields (chat_body (b'b' ∷ [])) ≡ (alice, b'b' ∷ [], codes "hi")
unfolding chat_fields parse_chat_fields_fast extract_json_string_fast scan_key colon open_quote
    scan_value is_blank skip_while eqb
to_bob = refl

pub not_broadcast : eqb (b'b' ∷ []) (codes "broadcast") ≡ false
unfolding eqb
not_broadcast = refl
