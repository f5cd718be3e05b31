-- ===== src/Pool/PageCache.antt =====
-- `PageCache` of the memory pool. A `Span` object is known by its address, which no two share; `pages` is the
-- `numPages` of each. An access through a null pointer is `none`.
pub mod Null
pub mod Allocate
pub mod Cover
pub mod Conserved
pub mod Live
pub mod Split
pub mod Merge
pub mod Sizes
use linux.Base.{
  ℕ, ◌+◌, ◌-◌, ◌*◌, Bool, true, false, Option, none, some, List, [], ◌∷◌, ltb, leb, ◌==◌,
  if◌then◌else◌, is_empty,
}

abbrev pub page_size : ℕ
page_size = 4096

-- `std::map<size_t, Span*>`, in the order of its keys.
abbrev pub FreeSpans : Type 0
FreeSpans = List (ℕ × List ℕ)

pub record PageCache : Type 0 where
  pub free_spans : FreeSpans
  -- The keys of `spanMap_`; each is the address of its span.
  pub span_map : List ℕ
  pub pages : ℕ → ℕ

unfoldable pub mem : ℕ → List ℕ → Bool
mem a [] = false
mem a (x ∷ xs) = if x == a then true else mem a xs

pub remove : ℕ → List ℕ → List ℕ
remove a [] = []
remove a (x ∷ xs) = let rest = remove a xs in if x == a then xs else x ∷ rest

pub update : ℕ → ℕ → (ℕ → ℕ) → ℕ → ℕ
update a n f x = if x == a then n else f x

pub lower_bound : ℕ → FreeSpans → Option (ℕ × List ℕ)
lower_bound n [] = none
lower_bound n ((k, l) ∷ fs) = let later = lower_bound n fs in if leb n k then some (k, l) else later

-- `freeSpans_[n]`, read.
unfoldable pub free_list : ℕ → FreeSpans → List ℕ
free_list n [] = []
free_list n ((k, l) ∷ fs) = let later = free_list n fs in if k == n then l else later

-- `freeSpans_[n] = …`.
pub put_list : ℕ → List ℕ → FreeSpans → FreeSpans
put_list n l [] = (n, l) ∷ []
put_list n l ((k, m) ∷ fs) =
    let later = put_list n l fs in
    if ltb n k then (n, l) ∷ (k, m) ∷ fs else if k == n then (n, l) ∷ fs else (k, m) ∷ later

pub erase_list : ℕ → FreeSpans → FreeSpans
erase_list n [] = []
erase_list n ((k, m) ∷ fs) = let later = erase_list n fs in if k == n then fs else (k, m) ∷ later

pub record_span : ℕ → PageCache → PageCache
record_span a pc = if mem a pc.span_map then pc else record pc { span_map = a ∷ pc.span_map }

-- The pages behind the first `num_pages` become a free span of their own.
pub split : ℕ → ℕ → PageCache → PageCache
unfolding update
split num_pages span pc =
    let left = pc.pages span - num_pages in
    let new_span = span + num_pages * page_size in
    if ltb num_pages (pc.pages span)
    then record pc {
      free_spans = put_list left (new_span ∷ free_list left pc.free_spans) pc.free_spans;
      pages = update span num_pages (update new_span left pc.pages);
    }
    else pc

-- `memory` is what `systemAlloc` answers: `none` when `mmap` fails.
from_system : ℕ → Option ℕ → PageCache → Option ℕ × PageCache
unfolding record_span update
from_system num_pages none pc = (none, pc)
from_system num_pages (some memory) pc =
    (some memory, record_span memory (record pc { pages = update memory num_pages pc.pages }))

take_span : ℕ → ℕ × List ℕ → PageCache → Option (Option ℕ × PageCache)
unfolding record_span split erase_list
take_span num_pages (k, []) pc = none
take_span num_pages (k, span ∷ next) pc =
    let free =
      if is_empty next then erase_list k pc.free_spans else put_list k next pc.free_spans in
    some (some span, record_span span (split num_pages span (record pc { free_spans = free })))

pub allocate_span : ℕ → Option ℕ → PageCache → Option (Option ℕ × PageCache)
unfolding from_system take_span
allocate_span num_pages memory pc = elim (lower_bound num_pages pc.free_spans) [
  | none ↦ some (from_system num_pages memory pc)
  | some found ↦ take_span num_pages found pc
]

-- The span behind `ptr` leaves its list and becomes a part of `ptr`'s. `freeSpans_[…]` makes an entry where
-- there is none, and leaves it.
pub merge : ℕ → ℕ → PageCache → PageCache
unfolding update
merge ptr next_addr pc =
    let m = pc.pages next_addr in
    let list = free_list m pc.free_spans in
    if mem next_addr pc.span_map
    then if mem next_addr list
      then record pc {
        free_spans = put_list m (remove next_addr list) pc.free_spans;
        span_map = remove next_addr pc.span_map;
        pages = update ptr (pc.pages ptr + m) pc.pages;
      }
      else record pc { free_spans = put_list m list pc.free_spans }
    else pc

pub push_free : ℕ → PageCache → PageCache
push_free ptr pc =
    let n = pc.pages ptr in
    record pc { free_spans = put_list n (ptr ∷ free_list n pc.free_spans) pc.free_spans }

pub deallocate_span : ℕ → ℕ → PageCache → PageCache
unfolding merge push_free
deallocate_span ptr num_pages pc =
    if mem ptr pc.span_map then push_free ptr (merge ptr (ptr + num_pages * page_size) pc) else pc
