-- ===== src/BufPool/Tests.antt =====
-- The buffer pool from its start over an empty disk, on calls with and without failures.
use kdbs.Common.{
  ℕ, ◌-◌, ◌^◌, ◌≤◌, ◌<◌, ◌≡◌, refl, inl, inr, true, Bool-cases, length, ◌∷◌, ◌++◌, map, replicate,
  length-replicate, take, Option, none, some, arith, ◌==◌, ok, err, eio,
}
use kdbs.Page.{page_sector, store_page_hdr}
use kdbs.Meta.{init_superblock}
use kdbs.PageAlloc.Places.{Ring, ring_count}
use kdbs.PageAlloc.Queue.{IsRing, staged}
use kdbs.PageAlloc.{Allocator, batch_base, proc_prealloc}
use kdbs.BufPool.{
  valid, Content, BufPool, Env, pool_init, numbers_from, buf_lookup_or_load, buf_alloc_new,
  frame_put_write_ptr, flush_dirty_frames, take_free_frame, load_frame, frame_read_from_disk,
  new_frame, new_registered, register_frame, buf_pin,
}
use kdbs.BufPool.Inv.{IsPool, put_same-IsPool}
use kdbs.BufPool.Held.{IsFair}
use kdbs.BufPool.Loading.{calls-IsPool, lookup_finds}
use kdbs.BufPool.Service.{IsWell, loaded, pool_init-IsPool, load_uncached, length-numbers_from}
use kdbs.BufPool.Refusal.{Kept, refused_load-Kept}
use kdbs.BufPool.Flush.{NeedsWrite, write_back, written_back}
use kdbs.BufPool.WriteBack.{flush_dirty_writes}
use kdbs.BufPool.Supply.{pool_ops, refill_fills}

abbrev calm : Env
calm = record {
  bdev = true;
  pages_ok = true;
  kp_ok = true;
  entry_ok = true;
  read_error = none;
  write_error = none;
  insert_error = none;
  stale = 0;
  others = λ p. p;
}

abbrev broken : Env
broken = record calm { read_error = some eio }

calm-IsWell : IsWell calm
calm-IsWell = record {
  bdev_there = refl;
  pages_there = refl;
  kp_there = refl;
  entry_there = refl;
  reads = refl;
  writes = refl;
  inserts = refl;
}

calm-IsFair : IsFair calm.others
calm-IsFair = record { keeps = λ p v. v; leaves = λ p i h. refl }

abbrev start : BufPool
start = pool_init (λ _ _. 7)

start-IsPool : IsPool start
start-IsPool = pool_init-IsPool (λ _ _. 7)

nothing_mapped : (id : ℕ) → start.map id ≡ none
unfolding pool_init
nothing_mapped id = refl

first_free : start.free_frames ≡ 0 ∷ numbers_from 1 4095
unfolding pool_init numbers_from
first_free = refl

calls-IsPool_example :
    IsPool (buf_lookup_or_load calm start 5).0 × IsPool (buf_alloc_new calm start 5).0
calls-IsPool_example = calls-IsPool calm calm-IsFair start 5 start-IsPool

load_uncached_example :
    let (p', r) = buf_lookup_or_load calm start 5 in
    (r ≡ ok 0) × (p'.frames 0 ≡ loaded 5 (start.disk (page_sector 5))) × (p'.map 5 ≡ some 0)
load_uncached_example =
    load_uncached calm calm-IsWell start 5 0 (numbers_from 1 4095) calm-IsFair (λ q. refl)
      (nothing_mapped 5) first_free

gives_frame : (buf_lookup_or_load calm start 5).1 ≡ ok 0
gives_frame =
    (load_uncached calm calm-IsWell start 5 0 (numbers_from 1 4095) calm-IsFair (λ q. refl)
      (nothing_mapped 5) first_free).0

lookup_finds_example :
    let q = (buf_lookup_or_load calm start 5).0 in
    (q.map 5 ≡ some 0) × ((q.frames 0).state ≡ valid) × ((q.frames 0).page_id ≡ 5)
lookup_finds_example = lookup_finds calm calm-IsFair start 5 0 start-IsPool gives_frame

refused : (buf_lookup_or_load broken start 5).1 ≡ err eio
unfolding buf_lookup_or_load pool_init take_free_frame numbers_from load_frame frame_read_from_disk
refused = refl

refused_load-Kept_example : Kept start 0 (buf_lookup_or_load broken start 5).0
refused_load-Kept_example = refused_load-Kept broken (λ q. refl) start 5 eio refused

-- The pool with the new page 5 in frame 0, written to.
abbrev dirty : BufPool
dirty = frame_put_write_ptr (buf_alloc_new calm start 5).0 0

dirty-IsPool : IsPool dirty
unfolding frame_put_write_ptr
dirty-IsPool =
    put_same-IsPool (buf_alloc_new calm start 5).0 0 _
      (calls-IsPool calm calm-IsFair start 5 start-IsPool).1 refl refl

abbrev content : Content
content = record {
  id = 5;
  hdr = record { page_type = 0; crc = 0; flags = 9; reserved1 = 0 };
  refcnt = 1;
}

needs_write : NeedsWrite (dirty.frames 0) content
unfolding frame_put_write_ptr buf_alloc_new pool_init take_free_frame numbers_from new_frame
    new_registered register_frame buf_pin
needs_write = record { is_valid = refl; holds = refl; dirty = refl }

small_ids : (k : ℕ) → (dirty.frames k).state ≡ valid → (dirty.frames k).page_id < 2 ^ 60
unfolding frame_put_write_ptr buf_alloc_new pool_init take_free_frame numbers_from new_frame
    new_registered register_frame buf_pin
small_ids k h = elim (Bool-cases (k == 0)) [
  | inl e ↦ rw (e) (omega arith)
  | inr e ↦ rw (e) (omega arith)
]

flush_dirty_writes_example :
    let q = flush_dirty_frames calm dirty in
    (q.frames 0 ≡ written_back (dirty.frames 0) content)
    × (q.disk (page_sector (dirty.frames 0).page_id)
        ≡ store_page_hdr (dirty.frames 0).bytes content.hdr)
    × (q.frames 1 ≡ write_back (dirty.frames 1))
    × (q.map ≡ dirty.map)
    × (q.free_frames ≡ dirty.free_frames)
flush_dirty_writes_example =
    flush_dirty_writes calm refl dirty dirty-IsPool 0 1 content small_ids needs_write (omega arith)

abbrev empty_ring : Ring
empty_ring = record { places = replicate 128 none; cursor = 0; reserved = 0 }

abbrev idle : Allocator BufPool
idle = record { ring = empty_ring; sb = some init_superblock; pool = start }

empty-IsRing : IsRing empty_ring
empty-IsRing = record {
  size = length-replicate {A = Option ℕ} 128 none;
  cursor_in = omega arith;
  reserved_in = omega arith;
}

empty_count : ring_count empty_ring ≡ 0
unfolding ring_count
empty_count = refl

enough_free : 127 - ring_count empty_ring ≤ length start.free_frames
unfolding pool_init
enough_free = omega (arith, length-numbers_from 0 4096, empty_count)

refill_fills_example :
    let a' = proc_prealloc (pool_ops calm) idle true in
    (staged a'.ring
      ≡ staged empty_ring ++ map some (take (127 - ring_count empty_ring) start.free_frames))
    × (ring_count a'.ring ≡ 127)
unfolding batch_base init_superblock
refill_fills_example =
    refill_fills calm calm-IsWell (λ q. refl) idle init_superblock true empty-IsRing refl
      (omega (arith, empty_count)) enough_free (omega (arith, empty_count))
      (λ k a b. nothing_mapped k)
