-- ===== src/Snowflake.antt =====
-- `SnowflakeIdGenerator`: 64-bit message ids from the clock, a worker number and a sequence number.
-- Numbers are `uint64_t`, and each reading of the clock, in milliseconds, is an argument.
use linux.Base.{
  ℕ, ◌+◌, ◌-◌, ◌*◌, ◌%◌, ◌^◌, ◌≤◌, ◌<◌, bit_and, bit_or, ◌≡◌, refl, ◌∙◌, subst, ◌⊎◌, inl, inr, true,
  Option, none, some, List, [], ◌∷◌, ◌++◌, arith, u64_mod, ltb, leb, ◌==◌, if◌then◌else◌,
  Bool-cases,
}
use linux.Base.Bits.{bit_and_mask, bit_or_disjoint_left}

abbrev pub epoch_ms : ℕ
epoch_ms = 1704067200000

abbrev pub worker_bits : ℕ
worker_bits = 10

abbrev pub sequence_bits : ℕ
sequence_bits = 12

pub record Generator : Type 0 where
  pub worker_id : ℕ
  pub last_ts : ℕ
  pub sequence : ℕ

-- The constructor, on the hash of the thread's id.
unfoldable pub init : ℕ → Generator
init hash = record { worker_id = bit_and hash (2 ^ worker_bits - 1); last_ts = 0; sequence = 0 }

-- `waitNextMs`: the first later reading of the clock; `none` while there is none.
unfoldable pub wait_next_ms : List ℕ → ℕ → Option ℕ
wait_next_ms [] last_ts = none
wait_next_ms (ts ∷ clock) last_ts =
    let rest = wait_next_ms clock last_ts in if leb ts last_ts then rest else some ts

unfoldable pub issue : ℕ → ℕ → Generator → ℕ × Generator
issue ts sequence g =
    let delta = if ltb epoch_ms ts then ts - epoch_ms else 0 in
    (
      bit_or
          (bit_or (delta * 2 ^ (sequence_bits + worker_bits) % u64_mod)
            (g.worker_id * 2 ^ sequence_bits % u64_mod))
          sequence,
      record g { last_ts = ts; sequence = sequence },
    )

-- `nextId` once its `ts` is not before `m_lastTs`.
unfoldable pub next_at : ℕ → List ℕ → Generator → Option (ℕ × Generator)
unfolding issue
next_at ts clock g =
    let sequence = bit_and ((g.sequence + 1) % u64_mod) (2 ^ sequence_bits - 1) in
    let waited : Option (ℕ × Generator) = elim (wait_next_ms clock g.last_ts) [
      | none ↦ none
      | some later ↦ some (issue later 0 g)
    ] in
    if ts == g.last_ts
    then if sequence == 0 then waited else some (issue ts sequence g)
    else some (issue ts 0 g)

-- `nextId`, where the clock reads `now` and then, when the milliseconds run out of numbers, `clock`.
unfoldable pub next_id : ℕ → List ℕ → Generator → Option (ℕ × Generator)
unfolding next_at
next_id now clock g = next_at (if ltb now g.last_ts then g.last_ts else now) clock g

-- The sequence and worker numbers fit their bits.
pub record IsValid (g : Generator) : Type 0 where
  pub worker_fits : g.worker_id < 2 ^ worker_bits
  pub sequence_fits : g.sequence < 2 ^ sequence_bits

pub init-IsValid : (hash : ℕ) → IsValid (init hash)
unfolding init
init-IsValid hash = record {
  worker_fits = omega (arith, bit_and_mask 10 hash);
  sequence_fits = omega arith;
}

wait_next_ms-later : (clock : List ℕ) (last ts : ℕ) → wait_next_ms clock last ≡ some ts → last < ts
unfolding wait_next_ms
wait_next_ms-later [] last ts h = cc
wait_next_ms-later (t ∷ clock) last ts h = ground (arith, wait_next_ms-later clock last ts)

-- The id that the parts make, with no bit of one in another.
abbrev pub id_of : Generator → ℕ
id_of g = (g.last_ts - epoch_ms) * 2 ^ 22 + g.worker_id * 2 ^ 12 + g.sequence

issue_id :
    (ts sequence : ℕ) (g : Generator)
    → IsValid g
    → epoch_ms < ts
    → ts < epoch_ms + 2 ^ 42
    → sequence < 2 ^ sequence_bits
    → (issue ts sequence g).0 ≡ id_of (issue ts sequence g).1
unfolding issue
issue_id ts sequence g v lo hi hs =
    let later : ltb epoch_ms ts ≡ true = ground arith in
    let time : (ts - epoch_ms) * 2 ^ 22 % u64_mod ≡ (ts - epoch_ms) * 2 ^ 22 = omega arith in
    let worker : g.worker_id * 2 ^ 12 % u64_mod ≡ g.worker_id * 2 ^ 12 =
      omega (arith, v.worker_fits) in
    let high : (ts - epoch_ms) * 2 ^ 22 + g.worker_id * 2 ^ 12
        ≡ ((ts - epoch_ms) * 2 ^ 10 + g.worker_id) * 2 ^ 12 =
      omega arith in
    rw
      (
        later,
        time,
        worker,
        bit_or_disjoint_left 22 (g.worker_id * 2 ^ 12) (ts - epoch_ms)
            (omega (arith, v.worker_fits)),
        high,
        bit_or_disjoint_left 12 sequence ((ts - epoch_ms) * 2 ^ 10 + g.worker_id) hs,
      )
      (omega arith)

-- Ids grow with the time, and within a millisecond with the sequence number.
id_order :
    (g g' : Generator)
    → IsValid g
    → g'.worker_id ≡ g.worker_id
    → epoch_ms < g'.last_ts
    → (g.last_ts < g'.last_ts) ⊎ ((g.last_ts ≡ g'.last_ts) × (g.sequence < g'.sequence))
    → id_of g < id_of g'
id_order g g' v w e (inl lt) = omega (arith, v.worker_fits, v.sequence_fits)
id_order g g' v w e (inr (same, lt)) = omega (arith, v.worker_fits, v.sequence_fits)

Next : Generator → ℕ × Generator → Type 0
Next g (id, g') = IsValid g' × (g'.worker_id ≡ g.worker_id) × (id ≡ id_of g') × (id_of g < id)

issue-Next :
    (ts sequence : ℕ) (g : Generator)
    → IsValid g
    → epoch_ms < ts
    → ts < epoch_ms + 2 ^ 42
    → sequence < 2 ^ sequence_bits
    → (g.last_ts < ts) ⊎ ((g.last_ts ≡ ts) × (g.sequence < sequence))
    → Next g (issue ts sequence g)
unfolding Next issue
issue-Next ts sequence g v lo hi hs order =
    let id = issue_id ts sequence g v lo hi hs in
    (
      record { worker_fits = v.worker_fits; sequence_fits = hs },
      refl,
      id,
      rw id (id_order g (record g { last_ts = ts; sequence = sequence }) v refl lo order),
    )

-- A result of `nextId` whose time fits its bits.
Good : Generator → Option (ℕ × Generator) → Type 0
Good g o = (r : ℕ × Generator) → o ≡ some r → r.1.last_ts < epoch_ms + 2 ^ 42 → Next g r

Good-some :
    (g : Generator) (r : ℕ × Generator)
    → (r.1.last_ts < epoch_ms + 2 ^ 42 → Next g r)
    → Good g (some r)
unfolding Good
Good-some g r n q e hi =
    let same : r ≡ q = cc in subst (λ p. p.1.last_ts < epoch_ms + 2 ^ 42 → Next g p) same n hi

waited-Good :
    (clock : List ℕ) (g : Generator) (o : Option ℕ)
    → IsValid g
    → epoch_ms < g.last_ts
    → wait_next_ms clock g.last_ts ≡ o
    → Good g (elim o [ none ↦ none | some later ↦ some (issue later 0 g) ])
waited-Good clock g none v lo e = unfold Good in λ r f hi. cc
waited-Good clock g (some later) v lo e =
    let after : g.last_ts < later = wait_next_ms-later clock g.last_ts later e in
    Good-some g (issue later 0 g) (
      unfold issue in
      λ hi. unfold issue in issue-Next later 0 g v (omega arith) hi (omega arith) (inl after))

next_at-Good :
    (ts : ℕ) (clock : List ℕ) (g : Generator)
    → IsValid g
    → epoch_ms < ts
    → g.last_ts ≤ ts
    → Good g (next_at ts clock g)
unfolding next_at issue
next_at-Good ts clock g v lo le =
    let mask : bit_and ((g.sequence + 1) % u64_mod) (2 ^ 12 - 1) ≡ (g.sequence + 1) % 2 ^ 12 =
      bit_and_mask 12 ((g.sequence + 1) % u64_mod) ∙ omega (arith, v.sequence_fits) in
    elim (Bool-cases (ts == g.last_ts)) [
      | inl e ↦ elim (Bool-cases ((g.sequence + 1) % 2 ^ 12 == 0)) [
        | inl f ↦
            rw (e, mask, f)
              (waited-Good clock g (wait_next_ms clock g.last_ts) v (ground arith) refl)
        | inr f ↦
            rw (e, mask, f)
              (Good-some g (issue ts ((g.sequence + 1) % 2 ^ 12) g) (λ hi.
                issue-Next ts ((g.sequence + 1) % 2 ^ 12) g v lo hi (omega arith)
                  (inr (ground arith, ground (arith, v.sequence_fits)))))
      ]
      | inr e ↦ rw e (
          Good-some g (issue ts 0 g)
            (λ hi. issue-Next ts 0 g v lo hi (omega arith) (inl (ground arith))))
    ]

-- Ids never repeat: while the clock is past the epoch and the new time fits forty-two bits, each id that
-- `nextId` returns is above the one made from the generator's state before, is the one made from the state
-- after, and the state stays valid; also when the clock goes back.
pub next_id_increases :
    (now : ℕ) (clock : List ℕ) (g g' : Generator) (id : ℕ)
    → IsValid g
    → epoch_ms < now
    → g'.last_ts < epoch_ms + 2 ^ 42
    → next_id now clock g ≡ some (id, g')
    → IsValid g' × (g'.worker_id ≡ g.worker_id) × (id ≡ id_of g') × (id_of g < id)
unfolding next_id Good Next
next_id_increases now clock g g' id v lo hi h =
    next_at-Good (if ltb now g.last_ts then g.last_ts else now) clock g v (ground arith)
      (ground arith) (id, g') h hi

wait_next_ms_returns :
    (pre post : List ℕ) (later last : ℕ)
    → last < later
    → (ts : ℕ) × (wait_next_ms (pre ++ later ∷ post) last ≡ some ts)
unfolding wait_next_ms
wait_next_ms_returns [] post later last h = (later, ground arith)
wait_next_ms_returns (t ∷ pre) post later last h = elim (Bool-cases (leb t last)) [
  | inl e ↦ rw e (wait_next_ms_returns pre post later last h)
  | inr e ↦ rw e (t, refl)
]

-- `nextId` returns an id as soon as the clock shows, among its readings, one time after the last id's.
pub next_id_returns :
    (now : ℕ) (pre post : List ℕ) (later : ℕ) (g : Generator)
    → g.last_ts < later
    → (r : ℕ × Generator) × (next_id now (pre ++ later ∷ post) g ≡ some r)
unfolding next_id next_at
next_id_returns now pre post later g h =
    at (if ltb now g.last_ts then g.last_ts else now)
      (wait_next_ms_returns pre post later g.last_ts h)
  where
    at :
        (ts : ℕ)
        → (t : ℕ) × (wait_next_ms (pre ++ later ∷ post) g.last_ts ≡ some t)
        → (r : ℕ × Generator) × (next_at ts (pre ++ later ∷ post) g ≡ some r)
    at ts (t, e) = elim (Bool-cases (ts == g.last_ts)) [
      | inl same ↦
          elim (Bool-cases (bit_and ((g.sequence + 1) % u64_mod) (2 ^ sequence_bits - 1) == 0)) [
            | inl f ↦ rw (same, f, e) (issue t 0 g, refl)
            | inr f ↦
                rw (same, f)
                  (issue ts (bit_and ((g.sequence + 1) % u64_mod) (2 ^ sequence_bits - 1)) g, refl)
          ]
      | inr other ↦ rw other (issue ts 0 g, refl)
    ]
