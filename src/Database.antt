-- ===== src/Database.antt =====
-- The functions that ask MySQL: logins, friends, the history of a chat, and the batches of the chat log.
-- MySQL and its client library are a parameter.
pub mod Mysql
pub mod Fetch
pub mod Batch
use linux.Base.{
  ℕ, Bool, true, false, ◌&&◌, ◌||◌, not, Option, none, some, List, [], ◌∷◌, ◌++◌, Bytes, eqb, ltb,
  leb, if◌then◌else◌, length, get_or, codes, is_empty,
}
use linux.Decimal.{to_string}
use linux.Database.Mysql.{Client, Executed}
use linux.Texts.{build_session_id}

abbrev pub history_max_rows : ℕ
history_max_rows = 500

-- Whether every column of a row fits its buffer: `mysql_stmt_fetch` returns 0 then, and
-- `MYSQL_DATA_TRUNCATED` otherwise.
unfoldable pub fits : List ℕ → List Bytes → Bool
fits [] row = true
fits (n ∷ widths) [] = true
fits (n ∷ widths) (v ∷ row) = leb (length v) n && fits widths row

-- `while (mysql_stmt_fetch(stmt) == 0)`: the rows up to the first that is not fetched whole.
pub fetched : List ℕ → List (List Bytes) → List (List Bytes)
fetched widths [] = []
fetched widths (row ∷ rows) =
    let rest = fetched widths rows in if fits widths row then row ∷ rest else []

abbrev pub column : ℕ → List Bytes → Bytes
column i row = get_or row i []

-- A chat log entry: sender, target and content.
abbrev pub Entry : Type 0
Entry = Bytes × Bytes × Bytes

-- The JSON of a row of the history.
pub row_json : List Bytes → Bytes
row_json row =
    codes "{\"sender\":\""
    ++ (column 0 row
        ++ (codes "\",\"target\":\""
            ++ (column 1 row
                ++ (codes "\",\"content\":\""
                    ++ (column 2 row
                        ++ (codes "\",\"timestamp\":\"" ++ (column 3 row ++ codes "\"}")))))))

pub rows_json : List (List Bytes) → Bytes
unfolding row_json
rows_json [] = []
rows_json (row ∷ []) = row_json row
rows_json (row ∷ next ∷ rows) = row_json row ++ (codes "," ++ rows_json (next ∷ rows))

abbrev history_widths : List ℕ
history_widths = 64 ∷ 64 ∷ 1024 ∷ 64 ∷ []

-- The groups of placeholders of a batch.
pub placeholders : List Entry → Bytes
placeholders [] = []
placeholders (e ∷ []) = codes "(?,?,?,?)"
placeholders (e ∷ f ∷ es) = codes "(?,?,?,?)" ++ (codes "," ++ placeholders (f ∷ es))

pub batch_binds : (Bytes → Bytes) → List Entry → List Bytes
batch_binds md5 [] = []
batch_binds md5 ((sender, target, content) ∷ es) =
    build_session_id md5 sender target ∷ sender ∷ target ∷ content ∷ batch_binds md5 es

pub batch_sql : List Entry → Bytes
unfolding placeholders
batch_sql es =
    codes "INSERT INTO all_messages_log (session_id, sender, target, content) VALUES "
    ++ placeholders es

module _ {ℓ} {D : Type ℓ} (client : Client D) where
  open client use {connected, statement, prepares, binds, executes}

  unfoldable pub password_matches : Bytes → List (List Bytes) → Bool
  password_matches pass [] = false
  password_matches pass (row ∷ rows) = fits (64 ∷ []) row && eqb (column 0 row) pass

  unfoldable pub check_login_from_database : Bytes → Bytes → D → Bool × D
  unfolding password_matches
  check_login_from_database user pass d =
      let sql = codes "SELECT password FROM accounts WHERE username = ?" in
      let (r, d') = executes sql (user ∷ []) d in
      if connected
      then if prepares sql then (r.ok && password_matches pass r.rows, d') else (false, d)
      else (false, d)

  marker_found : List (List Bytes) → Bool
  marker_found [] = false
  marker_found (row ∷ rows) = true

  pub user_exists_in_db : Bytes → D → Bool × D
  unfolding marker_found
  user_exists_in_db user d =
      let sql = codes "SELECT 1 FROM accounts WHERE username = ? LIMIT 1" in
      let (r, d') = executes sql (user ∷ []) d in
      if prepares sql then (r.ok && marker_found r.rows, d') else (false, d)

  pub add_friend_to_db : Bytes → Bytes → D → Bool × D
  add_friend_to_db user friend_name d =
      let sql = codes "INSERT IGNORE INTO friends (user_name, friend_name) VALUES (?, ?)" in
      let (r, d') = executes sql (user ∷ friend_name ∷ []) d in
      let (q, d'') = executes sql (friend_name ∷ user ∷ []) d' in
      if prepares sql
      then (r.ok && (q.ok && (ltb 0 r.affected || ltb 0 q.affected)), d'')
      else (false, d)

  abbrev first_columns : List (List Bytes) → List Bytes
  first_columns [] = []
  first_columns (row ∷ rows) = column 0 row ∷ first_columns rows

  pub get_friend_list_from_db : Bytes → D → List Bytes × D
  get_friend_list_from_db user d =
      let sql = codes "SELECT friend_name FROM friends WHERE user_name = ?" in
      let (r, d') = executes sql (user ∷ []) d in
      if prepares sql
      then (if r.ok then first_columns (fetched (128 ∷ []) r.rows) else [], d')
      else ([], d)

  -- The task that `processPacket` queues for a history request: `none` when the statement is not prepared.
  -- What `mysql_stmt_execute` returns is not looked at.
  pub history : Bytes → Bytes → D → Option Bytes × D
  history session_id last_time d =
      let sql =
        codes
          "SELECT sender, target, content, created_at FROM all_messages_log WHERE session_id = ? AND created_at > ? ORDER BY created_at ASC LIMIT ?" in
      let (r, d') = executes sql (session_id ∷ last_time ∷ to_string history_max_rows ∷ []) d in
      if prepares sql
      then (some (codes "[" ++ (rows_json (fetched history_widths r.rows) ++ codes "]")), d')
      else (none, d)

  pub save_message_to_db : (Bytes → Bytes) → Entry → D → D
  save_message_to_db md5 (sender, target, content) d =
      let sql =
        codes
          "INSERT INTO all_messages_log (session_id, sender, target, content) VALUES (?, ?, ?, ?)" in
      if prepares sql
      then (executes sql (build_session_id md5 sender target ∷ sender ∷ target ∷ content ∷ []) d).1
      else d

  pub flush_chat_logs_batch : (Bytes → Bytes) → List Entry → D → D
  flush_chat_logs_batch md5 batch d =
      let sql = batch_sql batch in
      if is_empty batch || not connected || not statement || not (prepares sql) || not binds
      then d
      else (executes sql (batch_binds md5 batch) d).1
