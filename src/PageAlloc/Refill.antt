-- ===== src/PageAlloc/Refill.antt =====
-- What a refill of the ring does, against a description of the pages the pool gives.
use kdbs.Common.{
  ℕ, zero, suc, ◌+◌, ◌-◌, ◌%◌, ◌^◌, min, ◌≤◌, ◌<◌, ◌≡◌, refl, sym, ap, ◌∙◌, inl, inr, Bool, false,
  List, [], ◌∷◌, ◌++◌, map, some, arith, length, ◌==◌, ok, err, Result-cases, Bool-cases, lt→ltb,
}
use kdbs.Meta.{Superblock, alloc_page_id_batch, set_alloc_range, superblock_fsync}
use kdbs.PageAlloc.Places.{ring_size, ring_is_full, ring_count, ring_free_slots, ring_push}
use kdbs.PageAlloc.Queue.{IsRing, staged, ring_counts, push-count, push_stages}
use kdbs.PageAlloc.{Pool, Allocator, stage_batch, batch_base, batch_alloc, proc_prealloc}

-- The pool's answers for `left` ids from `id` on: the state it ends in and the frames it gives,
-- up to the first refusal.
abbrev pub alloc_run : {S : Type 0} → Pool S → ℕ → ℕ → S → S × List ℕ
alloc_run ops zero id pool = (pool, [])
alloc_run ops (suc left) id pool =
    let (pool', r) = ops.alloc_new pool id in
    elim r [
      | err e ↦ (pool', [])
      | ok frame ↦
          let (last, frames) = alloc_run ops left ((id + 1) % 2 ^ 64) pool' in
          (last, frame ∷ frames)
    ]

-- A batch starts at the counter.
first_id : (sb : Superblock) (n : ℕ) → 0 < n → (alloc_page_id_batch (some sb) n).1 ≡ sb.max_page_id
unfolding alloc_page_id_batch
first_id sb n h = ground arith

append_one :
    {A : Type 0} (xs : List A) (x : A) (ys : List A) → (xs ++ (x ∷ [])) ++ ys ≡ xs ++ (x ∷ ys)
append_one [] x ys = refl
append_one (w ∷ xs) x ys = ap (◌∷◌ w) (append_one xs x ys)

append_nil : {A : Type 0} (xs : List A) → xs ++ [] ≡ xs
append_nil [] = refl
append_nil (x ∷ xs) = ap (◌∷◌ x) (append_nil xs)

-- What `after` has to do with `before` when `frames` have been staged and the pool is `pool`.
pub record Staged {S : Type 0} (before after : Allocator S) (pool : S) (frames : List ℕ)
    : Type 0 where
  pub ring_ok : IsRing after.ring
  pub queue : staged after.ring ≡ staged before.ring ++ map some frames
  pub pool_is : after.pool ≡ pool
  pub sb_kept : after.sb ≡ before.sb

module _ {S : Type 0} (a : Allocator S) (v : IsRing a.ring) where
  pub room_left : (left : ℕ) → ring_count a.ring + suc left ≤ 127 → ring_is_full a.ring ≡ false
  room_left left h = elim (Bool-cases (ring_is_full a.ring)) [
    | inl e ↦ (let c = ((ring_counts a.ring v).1).0 e in ground (arith, c, h))
    | inr e ↦ e
  ]

  -- Nothing is staged, whatever the pool did.
  pub stage_none : (pool : S) → Staged a (record a { pool = pool }) pool []
  stage_none pool = record {
    ring_ok = v;
    queue = sym (append_nil (staged a.ring));
    pool_is = refl;
    sb_kept = refl;
  }

  -- A push before the rest is staged.
  pub stage_one :
      (f : ℕ) (pool : S) (after : Allocator S) (last : S) (frames : List ℕ)
      → ring_is_full a.ring ≡ false
      → Staged (record a { pool = pool; ring = ring_push a.ring f }) after last frames
      → Staged a after last (f ∷ frames)
  stage_one f pool after last frames room rest = record {
    ring_ok = rest.ring_ok;
    queue =
        rest.queue
        ∙ ap (λ x. x ++ map some frames) (push_stages a.ring v f room).1
        ∙ append_one (staged a.ring) (some f) (map some frames);
    pool_is = rest.pool_is;
    sb_kept = rest.sb_kept;
  }

module _ {S : Type 0} (ops : Pool S) where
  stage_batch_stages :
      (left id : ℕ) (a : Allocator S)
      → IsRing a.ring
      → ring_count a.ring + left ≤ 127
      → let (a', got) = stage_batch ops left id a in
        let (pool, frames) = alloc_run ops left id a.pool in
        Staged a a' pool frames × (got ≡ length frames)
  unfolding stage_batch
  stage_batch_stages zero id a v h = (stage_none a v a.pool, refl)
  stage_batch_stages (suc left) id a v h = elim (Result-cases (ops.alloc_new a.pool id).1) [
    | inr (e, q) ↦ rw (stage_batch, alloc_run, q) (stage_none a v (ops.alloc_new a.pool id).0, refl)
    | inl (f, q) ↦
        let room = room_left a v left h in
        let c = (push-count a.ring v f room).0 in
        let pool = (ops.alloc_new a.pool id).0 in
        let (rest, n) =
          stage_batch_stages left ((id + 1) % 2 ^ 64)
            (record a { pool = pool; ring = ring_push a.ring f }) (push_stages a.ring v f room).0
            (omega (arith, c, h)) in
        rw (stage_batch, alloc_run, q, room)
          (stage_one a v f pool _ _ _ room rest, omega (arith, n))
  ]

  -- The background refill of a ring with fewer than 32 staged frames, over a superblock that is
  -- loaded: it stages, behind what is there, the frames that the pool gives for the ids from the
  -- batch's base on, as many as the ring has free places, up to the first refusal. The id counter
  -- moves up by all those ids, refused or not, the base is recorded as the point to scan from,
  -- and the committed counter follows where the superblock's write succeeds.
  pub prealloc_refills :
      (a : Allocator S) (sb : Superblock) (write_ok : Bool)
      → IsRing a.ring
      → a.sb ≡ some sb
      → ring_count a.ring < 32
      → let want = 127 - ring_count a.ring in
        let base = batch_base sb.max_page_id in
        let (pool, frames) = alloc_run ops want base a.pool in
        let issued = (alloc_page_id_batch (some sb) want).0 in
        let a' = proc_prealloc ops a write_ok in
        IsRing a'.ring
        × (staged a'.ring ≡ staged a.ring ++ map some frames)
        × (a'.pool ≡ pool)
        × (a'.sb ≡ superblock_fsync (set_alloc_range issued base 0) write_ok)
  unfolding proc_prealloc batch_alloc
  prealloc_refills a sb write_ok v s h =
      let c = ring_count a.ring in
      let free : ring_free_slots a.ring ≡ 127 - c = omega (arith, (ring_counts a.ring v).0) in
      let want : min (ring_size - c) (ring_free_slots a.ring) ≡ 127 - c = omega (arith, free) in
      let some_wanted : (ring_size - c == 0) ≡ false = ground arith in
      let some_free : (127 - c == 0) ≡ false = ground arith in
      let issued = alloc_page_id_batch (some sb) (127 - c) in
      let base_is : issued.1 ≡ sb.max_page_id = first_id sb (127 - c) (omega (arith, h)) in
      let (st, n) =
        stage_batch_stages (127 - c) (batch_base sb.max_page_id) (record a { sb = issued.0 }) v
          (omega (arith, h)) in
      rw (proc_prealloc, batch_alloc, lt→ltb c 32 h, some_wanted, want, some_free, s, base_is)
        (
          st.ring_ok,
          st.queue,
          st.pool_is,
          ap (λ x. superblock_fsync (set_alloc_range x (batch_base sb.max_page_id) 0) write_ok)
              st.sb_kept,
        )
