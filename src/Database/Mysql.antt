-- ===== src/Database/Mysql.antt =====
-- What the server uses of MySQL: prepared statements.
use linux.Base.{ℕ, Bool, List, Bytes}

-- What one execution of a statement leaves: whether it went well, the rows it changed, and the rows it found.
pub record Executed : Type 0 where
  pub ok : Bool
  pub affected : ℕ
  pub rows : List (List Bytes)

pub record Client {ℓ} (D : Type ℓ) : Type ℓ where
  -- Whether the pool has a connection, and `mysql_stmt_init` a statement.
  pub connected : Bool
  pub statement : Bool
  pub prepares : Bytes → Bool
  -- `mysql_stmt_bind_param`.
  pub binds : Bool
  -- `mysql_stmt_execute` of an SQL text with its parameters.
  pub executes : Bytes → List Bytes → D → Executed × D
