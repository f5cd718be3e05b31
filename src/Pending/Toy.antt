-- ===== src/Pending/Toy.antt =====
-- A store in memory that answers as the documentation of Redis says: the laws can hold. The ids that a range
-- finds are given.
use linux.Base.{ℕ, refl, true, ◌&&◌, Option, none, some, List, [], Bytes, eqb, if◌then◌else◌}
use linux.Pending.Commands.{Redis, Laws, TextLaws, array_reply, text_reply}

abbrev pub Table : Type 0 → Type 0
Table A = Bytes → Bytes → Option A

pub record Memory : Type 0 where
  pub fields : Table Bytes
  pub scores : Table ℕ
  pub texts : Bytes → Option Bytes

abbrev write : {A : Type 0} → Bytes → Bytes → Option A → Table A → Table A
write k f v t j g = if eqb k j && eqb f g then v else t j g

abbrev pub toy : List (Option Bytes) → Redis Memory
toy ids = record {
  connected = true;
  eval = λ script s. script s;
  hset = λ k f v s. record s { fields = write k f (some v) s.fields };
  hget = λ k f s. (text_reply (s.fields k f), s);
  hdel = λ k f s. record s { fields = write k f none s.fields };
  zadd = λ k n m s. record s { scores = write k m (some n) s.scores };
  zrem = λ k m s. record s { scores = write k m none s.scores };
  sadd = λ k m s. s;
  expire = λ k n s. s;
  zrange = λ k a b s. (array_reply ids, s);
  zrange_by_score = λ k a b s. (array_reply ids, s);
  smembers = λ k s. (array_reply [], s);
  get = λ k s. (text_reply (s.texts k), s);
  setex = λ k n v s. record s { texts = λ j. if eqb k j then some v else s.texts j };
  del = λ k s. record s { texts = λ j. if eqb k j then none else s.texts j };
}

abbrev pub toy-Laws : (ids : List (Option Bytes)) → Laws (toy ids)
toy-Laws ids = record {
  field = λ j g s. s.fields j g;
  score = λ j g s. s.scores j g;
  connected_is = refl;
  eval_runs = λ script s. refl;
  hget_reads = λ k f s. refl;
  field-hset = λ k f v j g s. refl;
  field-hdel = λ k f j g s. refl;
  field-zadd = λ k n m j g s. refl;
  field-zrem = λ k m j g s. refl;
  field-sadd = λ k m j g s. refl;
  field-expire = λ k n j g s. refl;
  score-zadd = λ k n m j g s. refl;
  score-zrem = λ k m j g s. refl;
  score-hset = λ k f v j g s. refl;
  score-hdel = λ k f j g s. refl;
  score-sadd = λ k m j g s. refl;
  score-expire = λ k n j g s. refl;
  field-zrange = λ k a b j g s. refl;
  field-zrange_by_score = λ k a b j g s. refl;
  score-zrange = λ k a b j g s. refl;
  score-zrange_by_score = λ k a b j g s. refl;
  field-smembers = λ k j g s. refl;
}

abbrev pub toy-TextLaws : (ids : List (Option Bytes)) → TextLaws (toy ids)
toy-TextLaws ids = record {
  text = λ k s. s.texts k;
  is_connected = refl;
  get_reads = λ k s. refl;
  text-setex = λ k n v j s. refl;
  text-del = λ k j s. refl;
}

abbrev pub empty_memory : Memory
empty_memory = record { fields = λ k f. none; scores = λ k f. none; texts = λ k. none }
