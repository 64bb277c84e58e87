-- ===== src/BufPool/Supply.antt =====
-- The buffer pool of kernel/kds/page_mgr.c as what the page allocator of kernel/kds/page_alloc.c
-- draws its frames from.
use kdbs.Common.{
  ℕ, zero, suc, ◌+◌, ◌-◌, ◌^◌, ◌%◌, ◌≤◌, ◌<◌, ◌≡◌, refl, sym, ap, ◌∙◌, inl, inr, Bool, false, List,
  [], ◌∷◌, ◌++◌, map, Option, none, some, arith, length, min, length-append, length-take, take,
  List-cases, ◌==◌, test_bit, ==_iff, Result, ok,
}
use kdbs.Page.{flag_alloc, flag_init, store_page_hdr}
use kdbs.PageAlloc.{Pool, Allocator, batch_base, proc_prealloc}
use kdbs.PageAlloc.Places.{Ring, ring_count}
use kdbs.PageAlloc.Queue.{IsRing, staged, length-staged_from}
use kdbs.PageAlloc.Refill.{alloc_run, prealloc_refills}
use kdbs.Meta.{Superblock}
use kdbs.BufPool.{
  Content, BufFrame, BufPool, Env, put_frame, buf_unpin, new_registered, new_frame, new_taken,
  buf_alloc_new, buf_lookup_or_load, buf_pin, put_disk, clean, new_hdr, loading, take_free_frame,
}
use kdbs.BufPool.Frames.{taken}
use kdbs.BufPool.Held.{take_first, entered}
use kdbs.BufPool.Service.{IsWell, register_is}

abbrev flag_of : ℕ → Option Content → Bool
flag_of k none = false
flag_of k (some c) = test_bit c.hdr.flags k

abbrev typed : ℕ → Option Content → Option Content
typed type none = none
typed type (some c) = some (record c { hdr = record c.hdr { page_type = type } })

-- The interface of the allocator, filled by the pool.
unfoldable pub pool_ops : Env → Pool BufPool
pool_ops env = record {
  alloc_new = buf_alloc_new env;
  lookup_or_load = buf_lookup_or_load env;
  unpin = buf_unpin;
  is_alloc = λ p i. flag_of flag_alloc (p.frames i).kp;
  is_init = λ p i. flag_of flag_init (p.frames i).kp;
  set_type = λ p i type. put_frame p i (record (p.frames i) { kp = typed type (p.frames i).kp });
}

-- What a new page leaves of the pool.
record Made (p : BufPool) (id i : ℕ) (rest : List ℕ) (r : BufPool × Result ℕ) : Type 0 where
  gives : r.1 ≡ ok i
  frees : r.0.free_frames ≡ rest
  maps : (k : ℕ) → (k == id) ≡ false → r.0.map k ≡ p.map k

-- The pool with the new page `id` in frame `i`, before the frame is registered.
abbrev made : Env → BufPool → ℕ → ℕ → BufPool
made env p i id =
    let hdr = new_hdr env.stale in
    let bytes = store_page_hdr (λ _. 0) hdr in
    let content : Content = record { id = id; hdr = hdr; refcnt = 0 } in
    let f : BufFrame = record { state = loading; page_id = id; kp = some content; bytes = bytes } in
    let p1 = put_frame p i f in
    put_disk
      (put_frame p1 i (record (p1.frames i) { kp = some (record content { hdr = clean hdr }) })) id
      bytes

length-some : (xs : List ℕ) → length (map some xs) ≡ length xs
length-some [] = refl
length-some (x ∷ xs) = ap suc (length-some xs)

filled :
    (r' r : Ring) (xs : List ℕ) {n : ℕ}
    → staged r' ≡ staged r ++ map some xs
    → length xs ≡ min (127 - ring_count r) n
    → 127 - ring_count r ≤ n
    → ring_count r < 32
    → ring_count r' ≡ 127
filled r' r xs all took enough c =
    let n = ap length all ∙ length-append (staged r) (map some xs) in
    let a = length-staged_from r'.places r'.cursor (ring_count r') in
    let b = length-staged_from r.places r.cursor (ring_count r) in
    omega (arith, n, a, b, c, took, enough, length-some xs)

module _ (env : Env) (well : IsWell env) (alone : (q : BufPool) → env.others q ≡ q) where
  not_there :
      (p : BufPool) (id : ℕ)
      → p.map id ≡ none
      → buf_alloc_new env p id ≡ new_taken env id (take_free_frame p)
  unfolding buf_alloc_new
  not_there p id m = rw (buf_alloc_new, m) refl

  new_frame_is :
      (p : BufPool) (i id : ℕ)
      → p.map id ≡ none
      → new_frame env p i id ≡ (entered (made env p i id) i, ok i)
  unfolding new_frame new_registered
  new_frame_is p i id m =
      let own = (==_iff i i).1 refl in
      let id_is : ((made env p i id).frames i).page_id ≡ id = rw (own) refl in
      let reg = register_is env well (made env p i id) i (ap p.map id_is ∙ m) in
      rw (new_frame, well.pages_there, well.kp_there, well.writes, alone, reg) refl

  new_makes :
      (p : BufPool) (id i : ℕ) (rest : List ℕ)
      → p.map id ≡ none
      → p.free_frames ≡ i ∷ rest
      → Made p id i rest (buf_alloc_new env p id)
  unfolding buf_pin
  new_makes p id i rest m h =
      let own = (==_iff i i).1 refl in
      rw (not_there p id m, take_first p i rest h, new_frame_is (taken p rest) i id m)
        (record { gives = refl; frees = refl; maps = λ k e. rw (own, e) refl })

  run_takes :
      (left id : ℕ) (p : BufPool)
      → id + left < 2 ^ 64
      → left ≤ length p.free_frames
      → ((k : ℕ) → id ≤ k → k < id + left → p.map k ≡ none)
      → (alloc_run (pool_ops env) left id p).1 ≡ take left p.free_frames
  unfolding pool_ops
  run_takes zero id p small h fresh = refl
  run_takes (suc left) id p small h fresh = elim (List-cases p.free_frames) [
    | inl e ↦ absurd (let n = ap length e in omega (arith, n, h))
    | inr (i, rest, e) ↦
        let m = new_makes p id i rest (fresh id (omega arith) (omega arith)) e in
        let q = (buf_alloc_new env p id).0 in
        let wrap : (id + 1) % 2 ^ 64 ≡ id + 1 = omega (arith, small) in
        let enough : left ≤ length q.free_frames =
          (let n = ap length e in let n' = ap length m.frees in omega (arith, n, n', h)) in
        let others_fresh : (k : ℕ) → id + 1 ≤ k → k < id + 1 + left → q.map k ≡ none =
          λ k a b. m.maps k (ground (arith, a)) ∙ fresh k (omega (arith, a)) (omega (arith, b)) in
        let rest_is = run_takes left (id + 1) q (omega (arith, small)) enough others_fresh in
        let head : (alloc_run (pool_ops env) (suc left) id p).1
            ≡ i ∷ (alloc_run (pool_ops env) left (id + 1) q).1 =
          rw (alloc_run, m.gives, wrap) refl in
        head ∙ ap (◌∷◌ i) (rest_is ∙ ap (take left) m.frees) ∙ ap (take (suc left)) (sym e)
  ]

  -- The background refill of a ring with fewer than 32 staged frames over the buffer pool, where
  -- nothing fails, no other thread changes the pool, as many frames are free as the ring has places,
  -- and none of the new ids is cached: it stages the first frames of the pool's free list, and
  -- leaves the ring full.
  pub refill_fills :
      (a : Allocator BufPool) (sb : Superblock) (write_ok : Bool)
      → IsRing a.ring
      → a.sb ≡ some sb
      → ring_count a.ring < 32
      → let want = 127 - ring_count a.ring in
        let base = batch_base sb.max_page_id in
        want ≤ length a.pool.free_frames
        → base + want < 2 ^ 64
        → ((k : ℕ) → base ≤ k → k < base + want → a.pool.map k ≡ none)
        → let a' = proc_prealloc (pool_ops env) a write_ok in
          (staged a'.ring ≡ staged a.ring ++ map some (take want a.pool.free_frames))
          × (ring_count a'.ring ≡ 127)
  refill_fills a sb write_ok v s c enough small fresh =
      let want = 127 - ring_count a.ring in
      let (ring, queue, _, _) = prealloc_refills (pool_ops env) a sb write_ok v s c in
      let got = run_takes want (batch_base sb.max_page_id) a.pool small enough fresh in
      let all = queue ∙ ap (λ fs. staged a.ring ++ map some fs) got in
      (
        all,
        filled _ a.ring (take want a.pool.free_frames) all (length-take want a.pool.free_frames)
            enough c,
      )
