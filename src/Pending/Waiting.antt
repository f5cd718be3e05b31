-- ===== src/Pending/Waiting.antt =====
-- A dispatch leaves every message that waits where the next fetch looks for it.
use linux.Base.{ℕ, ◌≡◌, some, Bytes}
use linux.Pending.Commands.{Redis, Laws}
use linux.Pending.{payload_key, schedule_key}

module _ {ℓ} {S : Type ℓ} (redis : Redis S) (laws : Laws redis) where
  open redis use {connected}
  open laws use {field, score, hget_reads}

  -- A message whose payload is `v` and which has a place in the schedule.
  pub record IsWaiting (u i v : Bytes) (s : S) : Type 0 where
    pub due : ℕ
    pub scheduled : score (schedule_key u) i s ≡ some due
    pub payload : field (payload_key u) i s ≡ some v
