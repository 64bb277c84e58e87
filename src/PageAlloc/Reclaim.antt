-- ===== src/PageAlloc/Reclaim.antt =====
-- What the scan for unused pages does, against a description of the pages it may recycle.
use kdbs.Common.{
  ℕ, zero, suc, ◌+◌, ◌≡◌, refl, inl, inr, true, false, not, ◌||◌, List, [], ◌∷◌, arith, length, ok,
  err, Result-cases, Bool-cases,
}
use kdbs.PageAlloc.Places.{ring_is_full, ring_count, ring_push}
use kdbs.PageAlloc.Queue.{IsRing, ring_counts, push-count, push_stages}
use kdbs.PageAlloc.Refill.{Staged, room_left, stage_none, stage_one}
use kdbs.PageAlloc.{Pool, Allocator, reclaim_scan}

-- The unused pages among `left` ids from `id` on, at most `room` of them: a page that cannot be
-- loaded is passed over, and one that is not allocated or is initialised gives its pin back.
abbrev pub unused_run : {S : Type 0} → Pool S → ℕ → ℕ → ℕ → S → S × List ℕ
unused_run ops zero id room pool = (pool, [])
unused_run ops (suc left) id zero pool = (pool, [])
unused_run ops (suc left) id (suc room) pool =
    let (pool', r) = ops.lookup_or_load pool id in
    elim r [
      | err e ↦ unused_run ops left (id + 1) (suc room) pool'
      | ok frame ↦ elim (not (ops.is_alloc pool' frame) || ops.is_init pool' frame) [
        | true ↦ unused_run ops left (id + 1) (suc room) (ops.unpin pool' frame)
        | false ↦
            let (last, frames) = unused_run ops left (id + 1) room pool' in (last, frame ∷ frames)
      ]
    ]

pool_moved :
    {S : Type 0} (a : Allocator S) (pool : S) (after : Allocator S) (last : S) (frames : List ℕ)
    → Staged (record a { pool = pool }) after last frames
    → Staged a after last frames
pool_moved a pool after last frames st = record {
  ring_ok = st.ring_ok;
  queue = st.queue;
  pool_is = st.pool_is;
  sb_kept = st.sb_kept;
}

module _ {S : Type 0} (ops : Pool S) where
  -- The scan stages, behind what is there, the frames of the unused pages in its range, in the
  -- order of their ids and at most as many as the ring has free places. It returns their number.
  pub reclaim_stages :
      (left id room : ℕ) (a : Allocator S)
      → IsRing a.ring
      → ring_count a.ring + room ≡ 127
      → let (a', got) = reclaim_scan ops left id a in
        let (pool, frames) = unused_run ops left id room a.pool in
        Staged a a' pool frames × (got ≡ length frames)
  unfolding reclaim_scan
  reclaim_stages zero id room a v h = (stage_none a v a.pool, refl)
  reclaim_stages (suc left) id zero a v h =
      let c : ring_is_full a.ring ≡ true = ((ring_counts a.ring v).1).1 (omega (arith, h)) in
      rw (reclaim_scan, c) (stage_none a v a.pool, refl)
  reclaim_stages (suc left) id (suc room) a v h =
      let free = room_left a v room (omega (arith, h)) in
      let pool = (ops.lookup_or_load a.pool id).0 in
      elim (Result-cases (ops.lookup_or_load a.pool id).1) [
        | inr (e, q) ↦
            let (st, n) = reclaim_stages left (id + 1) (suc room) (record a { pool = pool }) v h in
            rw (reclaim_scan, unused_run, free, q) (pool_moved a pool _ _ _ st, n)
        | inl (f, q) ↦ elim (Bool-cases (not (ops.is_alloc pool f) || ops.is_init pool f)) [
          | inl u ↦
              let p = ops.unpin pool f in
              let (st, n) = reclaim_stages left (id + 1) (suc room) (record a { pool = p }) v h in
              rw (reclaim_scan, unused_run, free, q, u) (pool_moved a p _ _ _ st, n)
          | inr u ↦
              let c = (push-count a.ring v f free).0 in
              let (st, n) =
                reclaim_stages left (id + 1) room
                  (record a { pool = pool; ring = ring_push a.ring f })
                  (push_stages a.ring v f free).0 (omega (arith, c, h)) in
              rw (reclaim_scan, unused_run, free, q, u)
                (stage_one a v f pool _ _ _ free st, omega (arith, n))
        ]
      ]
