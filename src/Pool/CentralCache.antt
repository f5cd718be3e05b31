-- ===== src/Pool/CentralCache.antt =====
-- `CentralCache` of the memory pool. A free list is the list of its blocks, first to last; the pointers that
-- link them are in the blocks. Each function runs under the lock of its index, from start to end.
pub mod Blocks
pub mod Early
use linux.Base.{
  ℕ, zero, suc, ◌+◌, ◌-◌, ◌*◌, ◌/◌, ◌%◌, max, Bool, ◌&&◌, ◌||◌, not, Option, none, some, List, [],
  ◌∷◌, ◌++◌, u64_mod, ltb, leb, ◌==◌, if◌then◌else◌, length, get_elem?, take, is_empty,
}
use linux.Base.Tabulate.{tabulate}
use linux.Pool.SizeClass.{alignment}
use linux.Pool.PageCache.{PageCache, page_size, allocate_span, deallocate_span}

abbrev pub span_pages : ℕ
span_pages = 8

-- `FREE_LIST_SIZE`, `MAX_DELAY_COUNT`, `DELAY_INTERVAL` and the length of `spanTrackers_`.
abbrev pub free_list_size : ℕ
free_list_size = 256 * 1024 / 8

abbrev pub max_delay_count : ℕ
max_delay_count = 48

abbrev pub delay_interval : ℕ
delay_interval = 1000

abbrev pub tracker_limit : ℕ
tracker_limit = 1024

pub record SpanTracker : Type 0 where
  pub span_addr : ℕ
  pub num_pages : ℕ
  pub block_count : ℕ
  pub free_count : ℕ

pub record CentralCache : Type 0 where
  pub central_free_list : ℕ → List ℕ
  -- The entries of `spanTrackers_` that are published, at most `tracker_limit`.
  pub span_trackers : List SpanTracker
  pub delay_counts : ℕ → ℕ
  pub last_return_times : ℕ → ℕ
  -- `PageCache::getInstance()`.
  pub page_cache : PageCache

unfoldable pub at_index {ℓ} : {A : Type ℓ} → ℕ → A → (ℕ → A) → ℕ → A
at_index i a f j = if j == i then a else f j

-- The constructor; `now` is the clock when it runs.
pub init : ℕ → PageCache → CentralCache
init now pages = record {
  central_free_list = λ i. [];
  span_trackers = [];
  delay_counts = λ i. 0;
  last_return_times = λ i. now;
  page_cache = pages;
}

-- The pages of a span for blocks of a size.
unfoldable pub pages_for : ℕ → ℕ
pages_for size =
    if leb size (span_pages * page_size) then span_pages else (size + page_size - 1) / page_size

-- `none` is an access through a null pointer in the page cache.
pub fetch_from_page_cache : ℕ → Option ℕ → PageCache → Option (Option ℕ × PageCache)
unfolding pages_for
fetch_from_page_cache size memory pages = allocate_span (pages_for size) memory pages

pub contains : SpanTracker → ℕ → Bool
contains t block =
    not (t.span_addr == 0)
    && not (t.num_pages == 0)
    && leb t.span_addr block
    && ltb block (t.span_addr + t.num_pages * page_size)

-- `getSpanTracker`: the position of the first tracker that covers the block.
pub get_span_tracker : ℕ → List SpanTracker → Option ℕ
unfolding contains
get_span_tracker block [] = none
get_span_tracker block (t ∷ ts) =
    let later : Option ℕ = elim (get_span_tracker block ts) [
      | none ↦ none
      | some i ↦ some (suc i)
    ] in
    if contains t block then some 0 else later

pub update_tracker : ℕ → (SpanTracker → SpanTracker) → List SpanTracker → List SpanTracker
update_tracker i f [] = []
update_tracker zero f (t ∷ ts) = f t ∷ ts
update_tracker (suc i) f (t ∷ ts) = t ∷ update_tracker i f ts

-- `fetch_sub(1)` on the free count of the block's tracker.
count_taken : ℕ → List SpanTracker → List SpanTracker
unfolding get_span_tracker update_tracker
count_taken block ts = elim (get_span_tracker block ts) [
  | none ↦ ts
  | some i ↦
      update_tracker i (λ t. record t { free_count = (t.free_count + (u64_mod - 1)) % u64_mod }) ts
]

-- The blocks of a span but the first.
unfoldable pub other_blocks : ℕ → ℕ → ℕ → List ℕ
other_blocks start size block_num = tabulate (block_num - 1) (λ i. start + (i + 1) * size)

unfoldable pub track : ℕ → ℕ → ℕ → List SpanTracker → List SpanTracker
track start num_pages block_num ts =
    if ltb (length ts) tracker_limit
    then ts
      ++ record {
        span_addr = start;
        num_pages = num_pages;
        block_count = block_num;
        free_count = block_num - 1;
      }
        ∷ []
    else ts

-- A new span is cut into blocks: the first is the result, the others are free.
unfoldable pub cut : ℕ → ℕ → PageCache → CentralCache → CentralCache
unfolding pages_for
cut index start pages c =
    let size = (index + 1) * alignment in
    let num_pages = pages_for size in
    let block_num = num_pages * page_size / size in
    if ltb 1 block_num
    then record c {
      central_free_list = at_index index (other_blocks start size block_num) c.central_free_list;
      span_trackers = track start num_pages block_num c.span_trackers;
      page_cache = pages;
    }
    else record c { page_cache = pages }

unfoldable pub fetch_new :
    ℕ → Option (Option ℕ × PageCache) → CentralCache → Option (Option ℕ × CentralCache)
fetch_new index none c = none
fetch_new index (some (none, pages)) c = some (none, record c { page_cache = pages })
fetch_new index (some (some start, pages)) c = some (some start, cut index start pages c)

unfoldable pub fetch_from : ℕ → List ℕ → Option ℕ → CentralCache → Option (Option ℕ × CentralCache)
unfolding count_taken
fetch_from index [] memory c =
    fetch_new index (fetch_from_page_cache ((index + 1) * alignment) memory c.page_cache) c
fetch_from index (block ∷ next) memory c = some (
  some block,
  record c {
    central_free_list = at_index index next c.central_free_list;
    span_trackers = count_taken block c.span_trackers;
  },
)

unfoldable pub fetch_range : ℕ → Option ℕ → CentralCache → Option (Option ℕ × CentralCache)
fetch_range index memory c =
    if leb free_list_size index
    then some (none, c)
    else fetch_from index (c.central_free_list index) memory c

-- `shouldPerformDelayedReturn`.
pub should_perform_delayed_return : ℕ → ℕ → ℕ → CentralCache → Bool
should_perform_delayed_return index current_count now c =
    leb max_delay_count current_count || leb delay_interval (now - c.last_return_times index)

-- How many blocks of a list the tracker at `i` is found for.
count_blocks : ℕ → List SpanTracker → List ℕ → ℕ
count_blocks i ts [] = 0
count_blocks i ts (b ∷ bs) =
    let rest = count_blocks i ts bs in
    let here : ℕ = elim (get_span_tracker b ts) [ none ↦ 0 | some j ↦ if j == i then 1 else 0 ] in
    here + rest

-- The blocks outside a range of addresses.
outside : ℕ → ℕ → List ℕ → List ℕ
outside lo hi [] = []
outside lo hi (b ∷ bs) =
    let rest = outside lo hi bs in if leb lo b && ltb b hi then rest else b ∷ rest

-- The span goes back to the page cache, and its blocks leave the list.
release : ℕ → SpanTracker → CentralCache → CentralCache
unfolding outside
release index t c = record c {
  central_free_list =
      at_index index
        (outside t.span_addr (t.span_addr + t.num_pages * page_size) (c.central_free_list index))
        c.central_free_list;
  page_cache = deallocate_span t.span_addr t.num_pages c.page_cache;
}

pub update_span_free_count : ℕ → ℕ → ℕ → CentralCache → CentralCache
unfolding release
update_span_free_count i new_free_blocks index c = elim (get_elem? c.span_trackers i) [
  | none ↦ c
  | some t ↦
      let new_free_count = (t.free_count + new_free_blocks) % u64_mod in
      let counted = record c {
        span_trackers =
            update_tracker i (λ u. record u { free_count = new_free_count }) c.span_trackers;
      } in
      if new_free_count == t.block_count then release index t counted else counted
]

-- The loop over the counts: of the trackers from `i` on, those that have blocks in `list`. The source goes
-- through them in the order of a hash table.
update_all : ℕ → ℕ → List ℕ → List SpanTracker → ℕ → CentralCache → CentralCache
unfolding count_blocks
update_all i zero list ts index c = c
update_all i (suc left) list ts index c =
    let n = count_blocks i ts list in
    update_all (suc i) left list ts index (if n == 0 then c else update_span_free_count i n index c)

pub perform_delayed_return : ℕ → ℕ → CentralCache → CentralCache
unfolding update_all
perform_delayed_return index now c =
    let reset = record c {
      delay_counts = at_index index 0 c.delay_counts;
      last_return_times = at_index index now c.last_return_times;
    } in
    update_all 0 (length c.span_trackers) (c.central_free_list index) c.span_trackers index reset

-- `returnRange` of the list that begins at `start`; an empty list is a null pointer. The list is cut behind
-- the number of blocks that `size` says.
unfoldable pub return_range : List ℕ → ℕ → ℕ → ℕ → CentralCache → CentralCache
return_range start size index now c =
    let block_count = size / ((index + 1) * alignment) in
    let current_count = (c.delay_counts index + 1) % u64_mod in
    let returned = record c {
      central_free_list =
          at_index index (take (max 1 block_count) start ++ c.central_free_list index)
            c.central_free_list;
      delay_counts = at_index index current_count c.delay_counts;
    } in
    if is_empty start || leb free_list_size index
    then c
    else if should_perform_delayed_return index current_count now returned
    then perform_delayed_return index now returned
    else returned
