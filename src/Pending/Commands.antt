-- ===== src/Pending/Commands.antt =====
-- What the server uses of Redis: hiredis and the server behind it, as a record of operations, and the
-- documented effect of each command as laws.
use linux.Base.{
  ℕ, ◌≡◌, Bool, true, ◌&&◌, not, Option, none, some, List, Bytes, eqb, ◌==◌, if◌then◌else◌,
}
use linux.Json.{take_while}

-- `redisReply`: what `redisCommand` returns. An element of an array is `none` when it is not a text.
pub data Reply : Type 0 where
  null_reply nil_reply : Reply
  string_reply : Bytes → Reply
  integer_reply : ℕ → Reply
  array_reply : List (Option Bytes) → Reply

-- What a C string holds of a text.
unfoldable pub c_str : Bytes → Bytes
c_str s = take_while (λ c. not (c == 0)) s

pub record Redis {ℓ} (S : Type ℓ) : Type ℓ where
  -- Whether the connection pool has a context.
  pub connected : Bool
  -- `EVAL` of a script, given what its commands do.
  pub eval : (S → Reply × S) → S → Reply × S
  pub hset : Bytes → Bytes → Bytes → S → S
  pub hget : Bytes → Bytes → S → Reply × S
  pub hdel : Bytes → Bytes → S → S
  pub zadd : Bytes → ℕ → Bytes → S → S
  pub zrem : Bytes → Bytes → S → S
  pub sadd : Bytes → Bytes → S → S
  pub expire : Bytes → ℕ → S → S
  pub zrange : Bytes → ℕ → ℕ → S → Reply × S
  pub zrange_by_score : Bytes → ℕ → ℕ → S → Reply × S
  pub smembers : Bytes → S → Reply × S
  pub get : Bytes → S → Reply × S
  pub setex : Bytes → ℕ → Bytes → S → S
  pub del : Bytes → S → S

abbrev pub text_reply : Option Bytes → Reply
text_reply none = nil_reply
text_reply (some v) = string_reply v

-- The documentation of the commands, in terms of the field of a hash and the score of a member. A key does
-- not expire while it is used.
pub record Laws {ℓ} {S : Type ℓ} (r : Redis S) : Type ℓ where
  pub field : Bytes → Bytes → S → Option Bytes
  pub score : Bytes → Bytes → S → Option ℕ
  pub connected_is : r.connected ≡ true
  pub eval_runs : (script : S → Reply × S) (s : S) → r.eval script s ≡ script s
  pub hget_reads : (k f : Bytes) (s : S) → r.hget k f s ≡ (text_reply (field k f s), s)
  pub field-hset :
      (k f v j g : Bytes) (s : S)
      → field j g (r.hset k f v s) ≡ (if eqb k j && eqb f g then some v else field j g s)
  pub field-hdel :
      (k f j g : Bytes) (s : S)
      → field j g (r.hdel k f s) ≡ (if eqb k j && eqb f g then none else field j g s)
  pub field-zadd :
      (k : Bytes) (n : ℕ) (m j g : Bytes) (s : S) → field j g (r.zadd k n m s) ≡ field j g s
  pub field-zrem : (k m j g : Bytes) (s : S) → field j g (r.zrem k m s) ≡ field j g s
  pub field-sadd : (k m j g : Bytes) (s : S) → field j g (r.sadd k m s) ≡ field j g s
  pub field-expire :
      (k : Bytes) (n : ℕ) (j g : Bytes) (s : S) → field j g (r.expire k n s) ≡ field j g s
  pub score-zadd :
      (k : Bytes) (n : ℕ) (m j g : Bytes) (s : S)
      → score j g (r.zadd k n m s) ≡ (if eqb k j && eqb m g then some n else score j g s)
  pub score-zrem :
      (k m j g : Bytes) (s : S)
      → score j g (r.zrem k m s) ≡ (if eqb k j && eqb m g then none else score j g s)
  pub score-hset : (k f v j g : Bytes) (s : S) → score j g (r.hset k f v s) ≡ score j g s
  pub score-hdel : (k f j g : Bytes) (s : S) → score j g (r.hdel k f s) ≡ score j g s
  pub score-sadd : (k m j g : Bytes) (s : S) → score j g (r.sadd k m s) ≡ score j g s
  pub score-expire :
      (k : Bytes) (n : ℕ) (j g : Bytes) (s : S) → score j g (r.expire k n s) ≡ score j g s
  pub field-zrange :
      (k : Bytes) (a b : ℕ) (j g : Bytes) (s : S) → field j g (r.zrange k a b s).1 ≡ field j g s
  pub field-zrange_by_score :
      (k : Bytes) (a b : ℕ) (j g : Bytes) (s : S)
      → field j g (r.zrange_by_score k a b s).1 ≡ field j g s
  pub score-zrange :
      (k : Bytes) (a b : ℕ) (j g : Bytes) (s : S) → score j g (r.zrange k a b s).1 ≡ score j g s
  pub score-zrange_by_score :
      (k : Bytes) (a b : ℕ) (j g : Bytes) (s : S)
      → score j g (r.zrange_by_score k a b s).1 ≡ score j g s
  pub field-smembers : (k j g : Bytes) (s : S) → field j g (r.smembers k s).1 ≡ field j g s

-- The commands on texts, while no key expires.
pub record TextLaws {ℓ} {S : Type ℓ} (r : Redis S) : Type ℓ where
  pub text : Bytes → S → Option Bytes
  pub is_connected : r.connected ≡ true
  pub get_reads : (k : Bytes) (s : S) → r.get k s ≡ (text_reply (text k s), s)
  pub text-setex :
      (k : Bytes) (n : ℕ) (v j : Bytes) (s : S)
      → text j (r.setex k n v s) ≡ (if eqb k j then some v else text j s)
  pub text-del : (k j : Bytes) (s : S) → text j (r.del k s) ≡ (if eqb k j then none else text j s)
