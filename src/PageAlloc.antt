-- ===== src/PageAlloc.antt =====
-- The page-id allocator: kernel/kds/page_alloc.c. Frames that are ready for use are staged in a
-- ring of 128 places, one of which stays empty. A frame is named by its number in the pool.
-- Memory for the allocator itself, registering its process with the scheduler and the locks,
-- which each call holds while it touches the ring, are not modelled.
pub mod Places
pub mod Queue
pub mod Refill
pub mod Handout
pub mod Reclaim
pub mod Tests
use kdbs.Common.{
  ℕ, zero, suc, ◌+◌, ◌-◌, ◌%◌, ◌^◌, min, Bool, true, false, not, ◌&&◌, ◌||◌, List, [], ◌∷◌, Option,
  none, some, ltb, leb, ◌==◌, if◌then◌else◌, Result, ok, err,
}
use kdbs.Meta.{Superblock, alloc_page_id_batch, get_max_page_id, set_alloc_range, superblock_fsync}
use Places.{Ring, ring_size, ring_is_full, ring_count, ring_free_slots, ring_push, ring_take}

-- What the allocator asks of the buffer pool, over the pool's state: a new page under an id, a
-- page that may have to be read, giving a pin back, and the flags ALLOC and INIT and the type of
-- a frame's page.
pub record Pool (S : Type 0) : Type 0 where
  pub alloc_new : S → ℕ → S × Result ℕ
  pub lookup_or_load : S → ℕ → S × Result ℕ
  pub unpin : S → ℕ → S
  pub is_alloc : S → ℕ → Bool
  pub is_init : S → ℕ → Bool
  pub set_type : S → ℕ → ℕ → S

-- `kds_page_allocator_t` with the superblock and the pool that its functions work on.
pub record Allocator (S : Type 0) : Type 0 where
  pub ring : Ring
  pub sb : Option Superblock
  pub pool : S

-- An id of 0 is moved up to KDS_SYS_RESERVED_PAGES.
unfoldable pub batch_base : ℕ → ℕ
batch_base base = if base == 0 then 128 else base

module _ {S : Type 0} (ops : Pool S) where
  -- `kds_page_alloc`: NULL where the ring is empty. The frame's header gets the type.
  unfoldable pub page_alloc : Allocator S → ℕ → Allocator S × Option ℕ
  page_alloc a type =
      let (ring', frame) = ring_take a.ring in
      if ring_count a.ring == 0 then (a, none) else elim frame [
        | none ↦ (record a { ring = ring' }, none)
        | some f ↦ (record a { ring = ring'; pool = ops.set_type a.pool f type }, some f)
      ]

  unfoldable pub get_reserved_kpage : Allocator S → ℕ → Allocator S × Option ℕ
  get_reserved_kpage a type = page_alloc a type

  -- The loop of `kds_batch_alloc`: at most `left` pages, the next under `id`. It stops at the
  -- first page that the pool refuses, or when the ring is full. It returns how many it staged.
  unfoldable pub stage_batch : ℕ → ℕ → Allocator S → Allocator S × ℕ
  stage_batch zero id a = (a, 0)
  stage_batch (suc left) id a =
      let (pool', r) = ops.alloc_new a.pool id in
      elim r [
        | err e ↦ (record a { pool = pool' }, 0)
        | ok frame ↦ elim (ring_is_full a.ring) [
          | true ↦ (record a { pool = ops.unpin pool' frame }, 0)
          | false ↦
              let (a', got) =
                stage_batch left ((id + 1) % 2 ^ 64)
                  (record a { pool = pool'; ring = ring_push a.ring frame }) in
              (a', got + 1)
        ]
      ]

  -- `kds_batch_alloc`; the last argument says whether the superblock's write succeeds.
  unfoldable pub batch_alloc : Allocator S → ℕ → Bool → Allocator S × ℕ
  batch_alloc a count write_ok =
      let want = min count (ring_free_slots a.ring) in
      if count == 0
      then (a, 0)
      else if want == 0
      then (a, 0)
      else let (sb', issued) = alloc_page_id_batch a.sb want in
        let base = batch_base issued in
        let (a', got) = stage_batch want base (record a { sb = sb' }) in
        (record a' { sb = superblock_fsync (set_alloc_range a'.sb base 0) write_ok }, got)

  -- The scan of `kds_reclaim_uninitialized_pages` over `left` ids from `id` on.
  unfoldable pub reclaim_scan : ℕ → ℕ → Allocator S → Allocator S × ℕ
  reclaim_scan zero id a = (a, 0)
  reclaim_scan (suc left) id a = elim (ring_is_full a.ring) [
    | true ↦ (a, 0)
    | false ↦
        let (pool', r) = ops.lookup_or_load a.pool id in
        elim r [
          | err e ↦ reclaim_scan left (id + 1) (record a { pool = pool' })
          | ok frame ↦ elim (not (ops.is_alloc pool' frame) || ops.is_init pool' frame) [
            | true ↦ reclaim_scan left (id + 1) (record a { pool = ops.unpin pool' frame })
            | false ↦
                let (a', got) =
                  reclaim_scan left (id + 1)
                    (record a { pool = pool'; ring = ring_push a.ring frame }) in
                (a', got + 1)
          ]
        ]
  ]

  -- PRE_ALLOC_NUM is 256; the sum is a u64.
  unfoldable pub reclaim : Allocator S → ℕ → Allocator S × ℕ
  reclaim a alloc_point =
      let scan_end = min ((alloc_point + 256) % 2 ^ 64) (get_max_page_id a.sb) in
      if leb scan_end alloc_point
      then (a, 0)
      else reclaim_scan (scan_end - alloc_point) alloc_point a

  -- `kds_proc_prealloc`: the background refill below PRE_ALLOC_PAGE_THRES staged frames.
  unfoldable pub proc_prealloc : Allocator S → Bool → Allocator S
  proc_prealloc a write_ok =
      let count = ring_count a.ring in
      if ltb count 32 then (batch_alloc a (ring_size - count) write_ok).0 else a

  -- `kds_init_page_alloc_system` over a fresh ring, up to the registration of the process.
  unfoldable pub init_page_alloc : Allocator S → ℕ → Bool → Allocator S × ℕ
  init_page_alloc a alloc_point write_ok =
      if alloc_point == 0
      then batch_alloc a ring_size write_ok
      else let (a', filled) = reclaim a alloc_point in
        if ltb filled 32
        then (let (a'', more) = batch_alloc a' (ring_size - filled) write_ok in
            (a'', filled + more))
        else (a', filled)

  -- The loop of `kds_shutdown_page_alloc_system`, on as many rounds as the ring has places.
  unfoldable pub drain : ℕ → Allocator S → Allocator S
  drain zero a = a
  drain (suc rounds) a =
      let (ring', frame) = ring_take a.ring in
      elim (ring_count a.ring == 0) [
        | true ↦ a
        | false ↦ elim frame [
          | none ↦ drain rounds (record a { ring = ring' })
          | some f ↦ drain rounds (record a { ring = ring'; pool = ops.unpin a.pool f })
        ]
      ]
