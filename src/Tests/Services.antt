-- ===== src/Tests/Services.antt =====
-- The ids, the registry and the page cache at concrete inputs.
use linux.Base.{
  ℕ, ◌+◌, ◌*◌, ◌^◌, ◌<◌, ◌≡◌, refl, ap, false, none, some, [], ◌∷◌, ◌++◌, arith, ◌==◌,
  if◌then◌else◌, length,
}
use linux.Snowflake.{
  Generator, IsValid, id_of, next_id, next_at, wait_next_ms, issue, next_id_increases,
  next_id_returns,
}
use linux.Registry.{
  ClientContext, Registry, add_client_ctx, get_client_ctx_by_fd, get_online_ctx, handle_disconnect,
}
use linux.Registry.Lookup.{get_client_ctx_by_fd-add_client_ctx, handle_disconnect-offline}
use linux.Pool.PageCache.{PageCache, mem, free_list, allocate_span, deallocate_span}
use linux.Pool.PageCache.Null.{allocate_span-null}

-- The last id of a millisecond.
abbrev full : Generator
full = record { worker_id = 5; last_ts = 1704067200001; sequence = 4095 }

full-IsValid : IsValid full
full-IsValid = record { worker_fits = omega arith; sequence_fits = omega arith }

abbrev after_full : Generator
after_full = record { worker_id = 5; last_ts = 1704067200002; sequence = 0 }

full-next :
    next_id 1704067200001 (1704067200001 ∷ 1704067200002 ∷ []) full
    ≡ some (2 * 2 ^ 22 + 5 * 2 ^ 12, after_full)
unfolding next_id next_at wait_next_ms issue
full-next = ap some refl

next_id_increases_example :
    IsValid after_full
    × (after_full.worker_id ≡ full.worker_id)
    × (2 * 2 ^ 22 + 5 * 2 ^ 12 ≡ id_of after_full)
    × (id_of full < 2 * 2 ^ 22 + 5 * 2 ^ 12)
next_id_increases_example =
    next_id_increases 1704067200001 (1704067200001 ∷ 1704067200002 ∷ []) full after_full
      (2 * 2 ^ 22 + 5 * 2 ^ 12) full-IsValid (omega arith) (omega arith) full-next

next_id_returns_example :
    (r : ℕ × Generator) × (next_id 1704067200001 ((1704067200001 ∷ []) ++ 1704067200002 ∷ []) full
      ≡ some r)
next_id_returns_example =
    next_id_returns 1704067200001 (1704067200001 ∷ []) [] 1704067200002 full (omega arith)

abbrev alice : ClientContext
alice = record { serial = 1; fd = 9; account_id = b'a' ∷ [] }

abbrev empty_registry : Registry
empty_registry = record {
  client_shards = λ i. [];
  online_user_shards = λ i. [];
  destroyed = λ s. false;
}

handle_disconnect-offline_example :
    (get_client_ctx_by_fd 9 (handle_disconnect length 9 (add_client_ctx alice empty_registry))
      ≡ none)
    × (get_online_ctx length
          (b'a' ∷ [])
          (handle_disconnect length 9 (add_client_ctx alice empty_registry))
        ≡ none)
handle_disconnect-offline_example =
    handle_disconnect-offline length alice (add_client_ctx alice empty_registry)
      (get_client_ctx_by_fd-add_client_ctx alice 9 empty_registry).0

-- A span of one page in use, in front of one of two pages in use.
abbrev neighbours : PageCache
neighbours = record {
  free_spans = [];
  span_map = 4096 ∷ 8192 ∷ [];
  pages = λ a. if a == 4096 then 1 else 2;
}

allocate_span-null_example : allocate_span 2 none (deallocate_span 4096 1 neighbours) ≡ none
allocate_span-null_example =
    allocate_span-null 4096 1 none neighbours (unfold mem in refl) (unfold mem in refl)
      (unfold free_list in refl) (λ e. omega arith)

abbrev one_free : PageCache
one_free = record { free_spans = (4, 4096 ∷ []) ∷ []; span_map = 4096 ∷ []; pages = λ a. 4 }
