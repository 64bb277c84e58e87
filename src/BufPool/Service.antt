-- ===== src/BufPool/Service.antt =====
-- What the lookups of kernel/kds/page_mgr.c do where nothing fails, and what is left where something
-- does.
use kdbs.Common.{
  ℕ, zero, suc, ◌+◌, ◌≡◌, refl, sym, ap, ◌∙◌, true, ◌&&◌, List, ◌∷◌, none, some, arith, length, leb,
  ltb, if◌then◌else◌, ==_iff, ok,
}
use kdbs.Common.Bytes.{Bytes}
use kdbs.Page.{page_sector, load_page_hdr}
use kdbs.BufPool.{
  loading, valid, BufFrame, BufPool, Env, nr_frames, put_frame, numbers_from, pool_init, buf_pin,
  frame_read_from_disk, register_frame, load_registered, load_frame, load_taken, buf_lookup_or_load,
  take_free_frame,
}
use kdbs.BufPool.Inv.{IsPool, count, put_frame_self}
use kdbs.BufPool.Frames.{taken}
use kdbs.BufPool.Held.{IsFair, claimed, entered, take_first}

count-numbers_from :
    (j a n : ℕ) → count j (numbers_from a n) ≡ (if leb a j && ltb j (a + n) then 1 else 0)
unfolding numbers_from
count-numbers_from j a zero = ground arith
count-numbers_from j a (suc n) = ground (arith, count-numbers_from j (a + 1) n)

pub length-numbers_from : (a n : ℕ) → length (numbers_from a n) ≡ n
unfolding numbers_from
length-numbers_from a zero = refl
length-numbers_from a (suc n) = ap suc (length-numbers_from (a + 1) n)

pub pool_init-IsPool : (disk : ℕ → Bytes) → IsPool (pool_init disk)
unfolding pool_init
pool_init-IsPool disk = record {
  listed = λ j. ground (arith, count-numbers_from j 0 nr_frames);
  counted = sym (length-numbers_from 0 nr_frames);
  in_range = λ id i h. grind arith;
  is_valid = λ id i h. grind arith;
  has_id = λ id i h. grind arith;
  mapped = λ i h. grind arith;
}

-- Memory can be had, and neither the device nor the table fails.
pub record IsWell (env : Env) : Type 0 where
  pub bdev_there : env.bdev ≡ true
  pub pages_there : env.pages_ok ≡ true
  pub kp_there : env.kp_ok ≡ true
  pub entry_there : env.entry_ok ≡ true
  pub reads : env.read_error ≡ none
  pub writes : env.write_error ≡ none
  pub inserts : env.insert_error ≡ none

-- What a frame holds once page `id` has been read in it and its caller has pinned it.
abbrev pub loaded : ℕ → Bytes → BufFrame
loaded id bytes = record {
  state = valid;
  page_id = id;
  kp = some (record { id = id; hdr = load_page_hdr bytes; refcnt = 1 });
  bytes = bytes;
}

-- The frame between its reading and its registration.
abbrev read_in : ℕ → Bytes → BufFrame
read_in id bytes = record {
  state = loading;
  page_id = id;
  kp = some (record { id = id; hdr = load_page_hdr bytes; refcnt = 0 });
  bytes = bytes;
}

module _ (env : Env) (well : IsWell env) where
  read_is :
      (p : BufPool) (i id : ℕ)
      → frame_read_from_disk env (claimed p i id) i id
        ≡ (put_frame (claimed p i id) i (read_in id (p.disk (page_sector id))), none)
  unfolding frame_read_from_disk
  read_is p i id =
      let own = (==_iff i i).1 refl in
      rw (well.bdev_there, well.pages_there, well.reads, well.kp_there, own) refl

  pub register_is :
      (p : BufPool) (i : ℕ)
      → p.map (p.frames i).page_id ≡ none
      → register_frame env p i ≡ (entered p i, none)
  unfolding register_frame
  register_is p i m = rw (well.entry_there, m, well.inserts) refl

  entered_frame :
      (p : BufPool) (i id : ℕ) (bytes : Bytes)
      → p.frames i ≡ read_in id bytes
      → ((entered p i).frames i ≡ loaded id bytes) × ((entered p i).map id ≡ some i)
  unfolding buf_pin
  entered_frame p i id bytes h =
      let own = (==_iff i i).1 refl in
      let own_id = (==_iff id id).1 refl in rw (own, h, own_id) (refl, refl)

  load_frame_is :
      (p : BufPool) (i id : ℕ)
      → let q = env.others (put_frame (claimed p i id) i (read_in id (p.disk (page_sector id)))) in
        q.map (q.frames i).page_id ≡ none → load_frame env p i id ≡ (entered q i, ok i)
  unfolding load_frame load_registered
  load_frame_is p i id fresh =
      let q = env.others (put_frame (claimed p i id) i (read_in id (p.disk (page_sector id)))) in
      rw (load_frame, read_is p i id, read_is p i id, register_is q i fresh) refl

  not_cached :
      (p : BufPool) (id : ℕ)
      → p.map id ≡ none
      → buf_lookup_or_load env p id ≡ load_taken env id (take_free_frame p)
  unfolding buf_lookup_or_load
  not_cached p id m = rw (buf_lookup_or_load, m) refl

  -- A page that is not cached is loaded where a frame is free, nothing fails and no other thread
  -- loads the same page meanwhile: the call gives the first frame of the free list, which then is
  -- VALID, holds the page's bytes on disk and the header that is stored in them, is pinned once, and
  -- is the table's entry of the page.
  pub load_uncached :
      (p : BufPool) (id i : ℕ) (rest : List ℕ)
      → IsFair env.others
      → ((q : BufPool) → (env.others q).map id ≡ q.map id)
      → p.map id ≡ none
      → p.free_frames ≡ i ∷ rest
      → let (p', r) = buf_lookup_or_load env p id in
        (r ≡ ok i) × (p'.frames i ≡ loaded id (p.disk (page_sector id))) × (p'.map id ≡ some i)
  load_uncached p id i rest fair alone m h =
      let at = taken p rest in
      let bytes = p.disk (page_sector id) in
      let q = put_frame (claimed at i id) i (read_in id bytes) in
      let own : q.frames i ≡ read_in id bytes =
        put_frame_self (claimed at i id) i (read_in id bytes) in
      let f : (env.others q).frames i ≡ read_in id bytes =
        fair.leaves q i (ap (λ (x : BufFrame). x.state) own) ∙ own in
      let fresh : (env.others q).map ((env.others q).frames i).page_id ≡ none =
        ap (λ (x : BufFrame). (env.others q).map x.page_id) f ∙ alone q ∙ m in
      rw (not_cached p id m, take_first p i rest h, load_frame_is at i id fresh)
        (
          refl,
          (entered_frame (env.others q) i id bytes f).0,
          (entered_frame (env.others q) i id bytes f).1,
        )
