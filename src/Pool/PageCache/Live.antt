-- ===== src/Pool/PageCache/Live.antt =====
-- The spans that are in use and those that are free never overlap.
pub mod Kept
pub mod Safe
use linux.Base.{ℕ, ◌+◌, ◌≤◌, ◌<◌, ◌≡◌, true, Option, none, some, List, [], ◌∷◌, ◌++◌, All}
use linux.Pool.PageCache.{PageCache, mem, allocate_span, deallocate_span}
use linux.Pool.PageCache.Cover.{over, cover}
use linux.Pool.PageCache.Conserved.{IsOrdered}
use linux.Pool.PageCache.Sizes.{IsSized}

-- The cache, and the spans that were given out, with their pages.
pub record Heap : Type 0 where
  pub cache : PageCache
  pub used : List (ℕ × ℕ)

-- How many spans in use an address is in.
unfoldable pub cover_used : List (ℕ × ℕ) → ℕ → ℕ
cover_used [] x = 0
cover_used ((a, n) ∷ us) x = over a n x + cover_used us x

unfoldable pub cover_all : Heap → ℕ → ℕ
unfolding cover_used
cover_all h x = cover h.cache.free_spans x + cover_used h.used x

-- `mmap` answers with addresses that are in no span.
abbrev pub IsFresh : Option ℕ → ℕ → Heap → Type 0
IsFresh none n h = Unit
IsFresh (some m) n h = (x : ℕ) → 0 < over m n x → cover_all h x ≡ 0

-- What callers do: a span comes back once, with the pages that it was asked for.
pub data Step : Heap → Heap → Type 0 where
  allocates :
      {h : Heap} (n : ℕ) (memory : Option ℕ) (a : ℕ) (cache : PageCache)
      → 0 < n
      → IsFresh memory n h
      → allocate_span n memory h.cache ≡ some (some a, cache)
      → Step h (record { cache = cache; used = (a, n) ∷ h.used })
  frees :
      {h : Heap} (before after : List (ℕ × ℕ)) (a n : ℕ)
      → h.used ≡ before ++ (a, n) ∷ after
      → Step h (record { cache = deallocate_span a n h.cache; used = before ++ after })

pub data Steps (first : Heap) : Heap → Type 0 where
  none_yet : Steps first first
  then_one : {h h' : Heap} → Steps first h → Step h h' → Steps first h'

-- A span in use has its size and is in `spanMap_`.
abbrev pub IsLive : PageCache → ℕ × ℕ → Type 0
IsLive pc (a, n) = (0 < n) × (pc.pages a ≡ n) × (mem a pc.span_map ≡ true)

pub record IsApart (h : Heap) : Type 0 where
  pub ordered : IsOrdered h.cache
  pub sized : IsSized h.cache.pages h.cache.free_spans
  pub live : All (IsLive h.cache) h.used
  -- No address is in two spans.
  pub apart : (x : ℕ) → cover_all h x ≤ 1
