-- ===== src/Pool/ThreadCache.antt =====
-- `ThreadCache` of the memory pool: the free lists of one thread in front of the central cache, which it
-- shares with the others. A free list is the list of its blocks.
pub mod Lists
use linux.Base.{
  ℕ, ◌+◌, ◌-◌, ◌*◌, ◌/◌, ◌%◌, max, Bool, ◌&&◌, not, Option, none, some, List, [], ◌∷◌, u64_mod, ltb,
  leb, ◌==◌, if◌then◌else◌, length, take, drop, is_empty,
}
use linux.Pool.SizeClass.{alignment, get_index, round_up}
use linux.Pool.CentralCache.{CentralCache, at_index, fetch_range, return_range}

abbrev pub max_bytes : ℕ
max_bytes = 256 * 1024

pub record ThreadCache : Type 0 where
  pub free_list : ℕ → List ℕ
  pub free_list_size : ℕ → ℕ

unfoldable pub init : ThreadCache
init = record { free_list = λ i. []; free_list_size = λ i. 0 }

-- What a call of `allocate` asks the system: `malloc` for a large block, `mmap` in the page cache.
pub record System : Type 0 where
  pub malloc : ℕ → Option ℕ
  pub mmap : Option ℕ

-- The answer and the two caches; `none` is an access through a null pointer.
abbrev pub Allocated : Type 0
Allocated = Option (Option ℕ × ThreadCache × CentralCache)

-- `fetchRange` gives one block, whose link is null: the rest of the list, which becomes the free list, is
-- empty, and the size grows by its length.
fetched : ℕ → ThreadCache → Option (Option ℕ × CentralCache) → Allocated
fetched index t none = none
fetched index t (some (none, c)) = some (none, t, c)
fetched index t (some (some start, c)) =
    let rest : List ℕ = [] in
    some (
      some start,
      record t {
        free_list = at_index index rest t.free_list;
        free_list_size =
            at_index index ((t.free_list_size index + length rest) % u64_mod) t.free_list_size;
      },
      c,
    )

pub fetch_from_central_cache : ℕ → System → ThreadCache → CentralCache → Allocated
unfolding fetched
fetch_from_central_cache index system t c = fetched index t (fetch_range index system.mmap c)

take_block : ℕ → List ℕ → System → ThreadCache → CentralCache → Allocated
take_block index [] system t c = fetch_from_central_cache index system t c
take_block index (ptr ∷ next) system t c =
    let size = t.free_list_size index in
    some (
      some ptr,
      record t {
        free_list = at_index index next t.free_list;
        free_list_size = at_index index (if ltb 0 size then size - 1 else size) t.free_list_size;
      },
      c,
    )

pub allocate : ℕ → System → ThreadCache → CentralCache → Allocated
unfolding take_block
allocate size system t c =
    let size' = if size == 0 then alignment else size in
    let index = get_index size' in
    if ltb max_bytes size'
    then some (system.malloc size', t, c)
    else take_block index (t.free_list index) system t c

-- A large block goes to `free`, which this cache does not see.
pub deallocate : ℕ → ℕ → ThreadCache → ThreadCache
deallocate ptr size t =
    let index = get_index size in
    if ltb max_bytes size then t else record t {
      free_list = at_index index (ptr ∷ t.free_list index) t.free_list;
      free_list_size = at_index index ((t.free_list_size index + 1) % u64_mod) t.free_list_size;
    }

pub should_return_to_central_cache : ℕ → ThreadCache → Bool
should_return_to_central_cache index t = ltb 256 (t.free_list_size index)

-- A quarter of the list, and at least one block, is kept; the rest is returned.
pub return_to_central_cache :
    List ℕ → ℕ → ℕ → ThreadCache → CentralCache → ThreadCache × CentralCache
return_to_central_cache start size now t c =
    let index = get_index size in
    let batch_num = length start in
    let keep_num = max (batch_num / 4) 1 in
    let return_num = batch_num - keep_num in
    let rest = drop keep_num start in
    if leb batch_num 1 then (t, c) else (
      record t {
        free_list = at_index index (take keep_num start) t.free_list;
        free_list_size = at_index index keep_num t.free_list_size;
      },
      if ltb 0 return_num && not (is_empty rest)
          then return_range rest (return_num * round_up size % u64_mod) index now c
          else c,
    )
