-- ===== src/PageAlloc/Tests.antt =====
-- The ring and its refill over a small pool, in which the frame of a page has the page's id, the
-- ids from 200 on are refused, and the state counts the pins.
use kdbs.Common.{
  ℕ, suc, ◌-◌, ◌≡◌, refl, true, false, [], ◌∷◌, ◌++◌, map, Option, none, some, arith, length,
  length-replicate, replicate, ltb, ◌==◌, if◌then◌else◌, ok, err, enomem,
}
use kdbs.Meta.{init_superblock, alloc_page_id_batch, set_alloc_range, superblock_fsync}
use kdbs.PageAlloc.Places.{Ring, ring_is_full, ring_count, ring_push}
use kdbs.PageAlloc.Queue.{IsRing, staged, push_stages}
use kdbs.PageAlloc.Refill.{Staged, alloc_run, prealloc_refills}
use kdbs.PageAlloc.Handout.{page_alloc_hands_out, drain_empties, unpin_all}
use kdbs.PageAlloc.Reclaim.{unused_run, reclaim_stages}
use kdbs.PageAlloc.{Pool, Allocator, page_alloc, batch_base, proc_prealloc, reclaim_scan, drain}

abbrev small_pool : Pool ℕ
small_pool = record {
  alloc_new = λ s id. if ltb id 200 then (suc s, ok id) else (s, err enomem);
  lookup_or_load = λ s id. if ltb id 200 then (suc s, ok id) else (s, err enomem);
  unpin = λ s f. s - 1;
  is_alloc = λ s f. true;
  is_init = λ s f. f == 130;
  set_type = λ s f type. s;
}

abbrev empty_ring : Ring
empty_ring = record { places = replicate 128 none; cursor = 0; reserved = 0 }

abbrev start : Allocator ℕ
start = record { ring = empty_ring; sb = some init_superblock; pool = 0 }

abbrev one_staged : Allocator ℕ
one_staged = record start { ring = ring_push empty_ring 7 }

empty_count : ring_count empty_ring ≡ 0
unfolding ring_count
empty_count = refl

empty_open : ring_is_full empty_ring ≡ false
unfolding ring_is_full
empty_open = refl

empty-IsRing : IsRing empty_ring
empty-IsRing = record {
  size = length-replicate {A = Option ℕ} 128 none;
  cursor_in = omega arith;
  reserved_in = omega arith;
}

one-IsRing : IsRing one_staged.ring
one-IsRing = (push_stages empty_ring empty-IsRing 7 empty_open).0

one_count : ring_count one_staged.ring ≡ 1
unfolding ring_count ring_push
one_count = refl

one_in_front : staged one_staged.ring ≡ some 7 ∷ []
unfolding ring_count ring_push
one_in_front = refl

prealloc_refills_example :
    let want = 127 - ring_count empty_ring in
    let base = batch_base 128 in
    let (pool, frames) = alloc_run small_pool want base 0 in
    let issued = (alloc_page_id_batch (some init_superblock) want).0 in
    let a' = proc_prealloc small_pool start true in
    IsRing a'.ring
    × (staged a'.ring ≡ staged empty_ring ++ map some frames)
    × (a'.pool ≡ pool)
    × (a'.sb ≡ superblock_fsync (set_alloc_range issued base 0) true)
unfolding init_superblock
prealloc_refills_example =
    prealloc_refills small_pool start init_superblock true empty-IsRing refl
      (omega (arith, empty_count))

page_alloc_hands_out_example :
    let (a', got) = page_alloc small_pool one_staged 3 in
    (got ≡ some 7)
    × IsRing a'.ring
    × (staged a'.ring ≡ [])
    × (a'.pool ≡ 0)
    × (a'.sb ≡ some init_superblock)
page_alloc_hands_out_example =
    page_alloc_hands_out small_pool one_staged 3 7 [] one-IsRing one_in_front

drain_empties_example :
    (ring_count (drain small_pool 128 one_staged).ring ≡ 0)
    × ((drain small_pool 128 one_staged).pool ≡ unpin_all small_pool (staged one_staged.ring) 0)
drain_empties_example =
    drain_empties small_pool 128 one_staged one-IsRing (omega (arith, one_count))

reclaim_stages_example :
    let (a', got) = reclaim_scan small_pool 4 128 start in
    let (pool, frames) = unused_run small_pool 4 128 127 0 in
    Staged start a' pool frames × (got ≡ length frames)
reclaim_stages_example =
    reclaim_stages small_pool 4 128 127 start empty-IsRing (omega (arith, empty_count))
