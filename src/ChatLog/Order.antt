-- ===== src/ChatLog/Order.antt =====
-- Every accepted entry is written once and in order.
use linux.Base.{
  ℕ, zero, suc, ◌+◌, ◌≤◌, ◌<◌, min, ◌≡◌, refl, sym, ap, ap₂, ◌∙◌, ◌⊎◌, inl, inr, Bool, true, false,
  ◌&&◌, not, List, [], ◌∷◌, ◌++◌, append-nil, append_assoc, arith, leb, if◌then◌else◌, Bool-cases,
  length, take, drop, length-append, take-append-drop, length-drop, is_empty,
}
use linux.ChatLog.{
  ChatLog, enqueue_chat_log, swap_queues, flush_batch, drain, final_round, chat_log_batch_size,
  chat_log_queue_limit,
}

module _ {ℓ} {A : Type ℓ} where
  -- What is written, then what is being flushed, then what waits.
  abbrev pub entries : ChatLog A → List A
  entries s = s.written ++ (s.flush_queue ++ s.active_queue)

  -- The depth is the number of entries in the queues.
  abbrev pub IsCounted : ChatLog A → Type 0
  IsCounted s = s.queue_depth ≡ length s.flush_queue + length s.active_queue

  -- How many entries pass a test.
  pub count : (A → Bool) → List A → ℕ
  count p [] = 0
  count p (x ∷ xs) = (if p x then 1 else 0) + count p xs

  count-append : (p : A → Bool) (xs ys : List A) → count p (xs ++ ys) ≡ count p xs + count p ys
  unfolding count
  count-append p [] ys = omega arith
  count-append p (x ∷ xs) ys = omega (arith, count-append p xs ys)

  abbrev tally : (A → Bool) → ChatLog A → ℕ
  tally p s =
      (count p s.written + count p s.lost) + (count p s.flush_queue + count p s.active_queue)

  move_over :
      (n : ℕ) (xs ys zs : List A) → (xs ++ take n ys) ++ (drop n ys ++ zs) ≡ xs ++ (ys ++ zs)
  move_over n xs ys zs =
      append_assoc xs (take n ys) (drop n ys ++ zs)
      ∙ ap (λ d. xs ++ d)
          (sym (append_assoc (take n ys) (drop n ys) zs)
            ∙ ap (λ d. d ++ zs) (take-append-drop n ys))

  nothing : (xs : List A) → is_empty xs ≡ true → xs ≡ []
  nothing [] e = refl
  nothing (x ∷ xs) e = cc

  swap_queues-tally :
      (p : A → Bool) (s : ChatLog A)
      → (tally p (swap_queues s) ≡ tally p s) × ((swap_queues s).lost ≡ s.lost)
  unfolding swap_queues
  swap_queues-tally p s =
      elim (Bool-cases (is_empty s.flush_queue && not (is_empty s.active_queue))) [
        | inl e ↦ rw e (omega arith, refl)
        | inr e ↦ rw e (refl, refl)
      ]

  exchange : (xs ys : List A) → xs ≡ [] → ys ++ xs ≡ xs ++ ys
  exchange xs ys e = rw e (append-nil ys)

  swap_queues-entries :
      (s : ChatLog A)
      → IsCounted s
      → IsCounted (swap_queues s) × (entries (swap_queues s) ≡ entries s)
  unfolding swap_queues
  swap_queues-entries s c =
      elim (Bool-cases (is_empty s.flush_queue && not (is_empty s.active_queue))) [
        | inl e ↦
            let idle : s.flush_queue ≡ [] = nothing s.flush_queue (ground arith) in
            rw e (
              omega (arith, c),
              ap (λ d. s.written ++ d) (exchange s.flush_queue s.active_queue idle),
            )
        | inr e ↦ rw e (c, refl)
      ]

  count-take-drop :
      (p : A → Bool) (n : ℕ) (xs : List A) → count p (take n xs) + count p (drop n xs) ≡ count p xs
  count-take-drop p n xs =
      sym (count-append p (take n xs) (drop n xs)) ∙ ap (count p) (take-append-drop n xs)

  flush_batch-tally :
      (inserted : Bool) (p : A → Bool) (s : ChatLog A)
      → IsCounted s
      → IsCounted (flush_batch inserted s) × (tally p (flush_batch inserted s) ≡ tally p s)
  unfolding flush_batch
  flush_batch-tally true p s c =
      let n = min chat_log_batch_size (length s.flush_queue) in
      (
        omega (arith, c, length-drop n s.flush_queue),
        omega (
          arith,
          count-append p s.written (take n s.flush_queue),
          count-take-drop p n s.flush_queue,
        ),
      )
  flush_batch-tally false p s c =
      let n = min chat_log_batch_size (length s.flush_queue) in
      (
        omega (arith, c, length-drop n s.flush_queue),
        omega (
          arith,
          count-append p s.lost (take n s.flush_queue),
          count-take-drop p n s.flush_queue,
        ),
      )

  flush_batch-entries :
      (s : ChatLog A)
      → (entries (flush_batch true s) ≡ entries s) × ((flush_batch true s).lost ≡ s.lost)
  unfolding flush_batch
  flush_batch-entries s =
      let n = min chat_log_batch_size (length s.flush_queue) in
      (move_over n s.written s.flush_queue s.active_queue, refl)

  drain-tally :
      (inserted : ℕ → Bool) (fuel : ℕ) (p : A → Bool) (s : ChatLog A)
      → IsCounted s
      → IsCounted (drain inserted fuel s) × (tally p (drain inserted fuel s) ≡ tally p s)
  unfolding drain
  drain-tally inserted zero p s c = (c, refl)
  drain-tally inserted (suc fuel) p s c = elim (Bool-cases (is_empty s.flush_queue)) [
    | inl e ↦ rw e (c, refl)
    | inr e ↦
        let (c', same) = flush_batch-tally (inserted fuel) p s c in
        let (c'', same') = drain-tally inserted fuel p (flush_batch (inserted fuel) s) c' in
        rw e (c'', same' ∙ same)
  ]

  drain-entries :
      (inserted : ℕ → Bool)
      → ((n : ℕ) → inserted n ≡ true)
      → (fuel : ℕ) (s : ChatLog A)
      → (entries (drain inserted fuel s) ≡ entries s) × ((drain inserted fuel s).lost ≡ s.lost)
  unfolding drain
  drain-entries inserted all zero s = (refl, refl)
  drain-entries inserted all (suc fuel) s = elim (Bool-cases (is_empty s.flush_queue)) [
    | inl e ↦ rw e (refl, refl)
    | inr e ↦
        let (same, kept) = flush_batch-entries s in
        let (same', kept') = drain-entries inserted all fuel (flush_batch true s) in
        rw (e, all fuel) (same' ∙ same, kept' ∙ kept)
  ]

  drain-empties :
      (inserted : ℕ → Bool) (fuel : ℕ) (s : ChatLog A)
      → length s.flush_queue ≤ fuel
      → (drain inserted fuel s).flush_queue ≡ []
  unfolding drain flush_batch
  drain-empties inserted zero s h = none_left s.flush_queue (omega arith)
    where
      none_left : (xs : List A) → length xs ≡ 0 → xs ≡ []
      none_left [] e = refl
      none_left (x ∷ xs) e = absurd (omega arith)
  drain-empties inserted (suc fuel) s h = elim (Bool-cases (is_empty s.flush_queue)) [
    | inl e ↦ rw e (nothing s.flush_queue e)
    | inr e ↦ rw e (
        drain-empties inserted fuel (flush_batch (inserted fuel) s) (
          omega
            (arith, h, length-drop (min chat_log_batch_size (length s.flush_queue)) s.flush_queue)))
  ]

  drain-active :
      (inserted : ℕ → Bool) (fuel : ℕ) (s : ChatLog A)
      → (drain inserted fuel s).active_queue ≡ s.active_queue
  unfolding drain flush_batch
  drain-active inserted zero s = refl
  drain-active inserted (suc fuel) s = elim (Bool-cases (is_empty s.flush_queue)) [
    | inl e ↦ rw e refl
    | inr e ↦ rw e (drain-active inserted fuel (flush_batch (inserted fuel) s))
  ]

  swap_queues-active : (s : ChatLog A) → s.flush_queue ≡ [] → (swap_queues s).active_queue ≡ []
  unfolding swap_queues
  swap_queues-active s idle = elim (Bool-cases (is_empty s.active_queue)) [
    | inl e ↦ rw (idle, e) (nothing s.active_queue e)
    | inr e ↦ rw (idle, e) refl
  ]

  -- When the flush queue is empty, a final round leaves both queues empty, with a depth of 0 if the depth was
  -- right, whichever INSERTs the database refuses; every entry is then written once or lost once, and when all
  -- are executed, what waits is written in order behind what was written before, and nothing is lost.
  pub final_round-writes :
      (inserted : ℕ → Bool) (s : ChatLog A)
      → IsCounted s
      → s.flush_queue ≡ []
      → let s' = final_round inserted s in
        (s'.flush_queue ≡ [])
        × (s'.active_queue ≡ [])
        × (s'.queue_depth ≡ 0)
        × ((p : A → Bool)
            → count p s'.written + count p s'.lost
              ≡ (count p s.written + count p s.lost) + count p s.active_queue)
        × (((n : ℕ) → inserted n ≡ true)
            → (s'.written ≡ s.written ++ s.active_queue) × (s'.lost ≡ s.lost))
  unfolding final_round count
  final_round-writes inserted s c idle =
      let t = swap_queues s in
      let fuel = length t.flush_queue in
      let (c', same) = swap_queues-entries s c in
      let flushed : (drain inserted fuel t).flush_queue ≡ [] =
        drain-empties inserted fuel t (omega arith) in
      let swapped : (drain inserted fuel t).active_queue ≡ [] =
        drain-active inserted fuel t ∙ swap_queues-active s idle in
      let none_left = (drain-tally inserted fuel (λ x. true) t c').0 in
      (
        flushed,
        swapped,
        omega (arith, none_left, ap length flushed, ap length swapped),
        λ p. omega (
          arith,
          (drain-tally inserted fuel p t c').1,
          (swap_queues-tally p s).0,
          ap (count p) flushed,
          ap (count p) swapped,
          ap (count p) idle,
        ),
        λ all.
            let (same', kept) = drain-entries inserted all fuel t in
            (
              sym (append-nil (drain inserted fuel t).written)
                  ∙ ap (λ d. (drain inserted fuel t).written ++ d)
                      (sym (ap₂ (λ a b. a ++ b) flushed swapped))
                  ∙ (same' ∙ same)
                  ∙ ap (λ d. s.written ++ (d ++ s.active_queue)) idle,
              kept ∙ (swap_queues-tally (λ x. true) s).1,
            ),
      )

  -- Accepting an entry puts it last; one that finds the queues full changes nothing but the count of the
  -- dropped ones.
  pub enqueue_chat_log-entries :
      (entry : A) (s : ChatLog A)
      → IsCounted s
      → IsCounted (enqueue_chat_log entry s)
        × (((s.queue_depth < chat_log_queue_limit)
              × (entries (enqueue_chat_log entry s) ≡ entries s ++ entry ∷ [])
              × ((enqueue_chat_log entry s).dropped ≡ s.dropped))
            ⊎ ((chat_log_queue_limit ≤ s.queue_depth)
                × (entries (enqueue_chat_log entry s) ≡ entries s)
                × ((enqueue_chat_log entry s).dropped ≡ s.dropped + 1)))
  unfolding enqueue_chat_log
  enqueue_chat_log-entries entry s c =
      elim (Bool-cases (leb chat_log_queue_limit (length s.active_queue + length s.flush_queue))) [
        | inl e ↦ rw e (c, inr (ground (arith, c), refl, refl))
        | inr e ↦ rw e (
          omega (arith, c, length-append s.active_queue (entry ∷ [])),
          inl (
            ground (arith, c),
            ap (λ d. s.written ++ d) (sym (append_assoc s.flush_queue s.active_queue (entry ∷ [])))
                ∙ sym (append_assoc s.written (s.flush_queue ++ s.active_queue) (entry ∷ [])),
            refl,
          ),
        )
      ]
