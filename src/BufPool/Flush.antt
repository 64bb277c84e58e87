-- ===== src/BufPool/Flush.antt =====
-- The write-back of dirty frames, `kds_frame_flush` and `kds_buf_flush_dirty_frames` of
-- kernel/kds/page_mgr.c.
use kdbs.Common.{
  ℕ, ◌+◌, ◌-◌, ◌^◌, ◌%◌, ◌≡◌, ◌≢◌, ◌⊎◌, refl, sym, ap, ◌∙◌, inl, inr, Bool, true, false, not, ◌&&◌,
  Option, none, some, arith, ◌==◌, if◌then◌else◌, test_bit, Bool-cases, Option-cases, ==_iff,
}
use mathlib.Core.Option.{some-injective, none-ne-some}
use kdbs.Common.Bytes.{Bytes}
use kdbs.Page.{flag_dirty, page_sector, store_page_hdr}
use kdbs.BufPool.{
  FrameState, valid, is_valid, Content, BufFrame, BufPool, Env, put_frame, buf_pin, buf_unpin,
  clean, is_dirty, flush_content, frame_flush, put_disk,
}
use kdbs.BufPool.Frames.{and_both}

-- The count after a pin and an unpin.
abbrev pub pinned_and_unpinned : ℕ → ℕ
pinned_and_unpinned n = ((n + 1) % 2 ^ 64 + 2 ^ 64 - 1) % 2 ^ 64

-- The frame after its write-back: its header is in its bytes, and no longer dirty.
abbrev pub written_back : BufFrame → Content → BufFrame
written_back f c = record f {
  bytes = store_page_hdr f.bytes c.hdr;
  kp = some (record c { hdr = clean c.hdr; refcnt = pinned_and_unpinned c.refcnt });
}

-- One turn of the loop.
abbrev pub turn : Env → BufPool → ℕ → BufPool
turn env p i =
    if is_valid (p.frames i).state && is_dirty (p.frames i).kp
    then buf_unpin (frame_flush env (buf_pin p i) i).0 i
    else p

-- What a turn on frame `i` does to a pool: that frame becomes `f`, and the disk `disk`.
record Turned (p q : BufPool) (i : ℕ) (f : BufFrame) (disk : ℕ → Bytes) : Type 0 where
  self : q.frames i ≡ f
  other : (j : ℕ) → (j == i) ≡ false → q.frames j ≡ p.frames j
  map_kept : q.map ≡ p.map
  frees_kept : q.free_frames ≡ p.free_frames
  disk_is : q.disk ≡ disk

module _ (env : Env) (writes : env.write_error ≡ none) (p : BufPool) (i : ℕ) where
  -- The pool after a dirty frame with the content `c` is flushed.
  abbrev pub flushed : Content → BufPool
  flushed c =
      let bytes = store_page_hdr (p.frames i).bytes c.hdr in
      let f : BufFrame = record (p.frames i) {
        bytes = bytes;
        kp = some (record c { hdr = clean c.hdr });
      } in
      put_disk (put_frame p i f) (p.frames i).page_id bytes

  pub frame_flush_dirty :
      (c : Content)
      → (p.frames i).kp ≡ some c
      → test_bit c.hdr.flags flag_dirty ≡ true
      → frame_flush env p i ≡ (flushed c, none)
  unfolding frame_flush flush_content
  frame_flush_dirty c k d =
      let goes : not (test_bit c.hdr.flags flag_dirty) ≡ false = rw (d) refl in
      rw (k, goes, writes) refl

module _ (env : Env) (writes : env.write_error ≡ none) (p : BufPool) (i : ℕ) where
  turn_dirty :
      (c : Content)
      → (p.frames i).state ≡ valid
      → (p.frames i).kp ≡ some c
      → test_bit c.hdr.flags flag_dirty ≡ true
      → let bytes = store_page_hdr (p.frames i).bytes c.hdr in
        Turned p
          (turn env p i)
          i
          (written_back (p.frames i) c)
          (put_disk p (p.frames i).page_id bytes).disk
  unfolding buf_pin buf_unpin
  turn_dirty c v k d =
      let own = (==_iff i i).1 refl in
      let c' : Content = record c { refcnt = (c.refcnt + 1) % 2 ^ 64 } in
      let pinned : ((buf_pin p i).frames i).kp ≡ some c' = rw (own, k) refl in
      let flush = frame_flush_dirty env writes (buf_pin p i) i c' pinned d in
      let goes : (is_valid (p.frames i).state && is_dirty (p.frames i).kp) ≡ true = rw (v, k) d in
      record {
        self = rw (goes, flush, own) refl;
        other = λ j e. rw (goes, flush, e) refl;
        map_kept = rw (goes, flush) refl;
        frees_kept = rw (goes, flush) refl;
        disk_is = rw (goes, flush, own) refl;
      }

  turn_clean : (is_valid (p.frames i).state && is_dirty (p.frames i).kp) ≡ false → turn env p i ≡ p
  turn_clean h = rw (h) refl

true_is_not_false : true ≢ false
true_is_not_false h = grind arith

and_false : (b : Bool) → (b && false) ≡ false
and_false true = refl
and_false false = refl

-- What the loop makes of a frame: that of a valid dirty page is written back.
abbrev pub write_back_content : BufFrame → Option Content → BufFrame
write_back_content f none = f
write_back_content f (some c) =
    if is_valid f.state && test_bit c.hdr.flags flag_dirty then written_back f c else f

abbrev pub write_back : BufFrame → BufFrame
write_back f = write_back_content f f.kp

-- What a turn does, of whichever kind.
pub record Turn (p q : BufPool) (i : ℕ) : Type 0 where
  pub self : q.frames i ≡ write_back (p.frames i)
  pub other : (j : ℕ) → (j == i) ≡ false → q.frames j ≡ p.frames j
  pub map_kept : q.map ≡ p.map
  pub frees_kept : q.free_frames ≡ p.free_frames
  pub disk_apart :
      (s : ℕ)
      → ((p.frames i).state ≡ valid → (s == page_sector (p.frames i).page_id) ≡ false)
      → q.disk s ≡ p.disk s
  pub disk_at :
      (c : Content)
      → (p.frames i).state ≡ valid
      → (p.frames i).kp ≡ some c
      → test_bit c.hdr.flags flag_dirty ≡ true
      → q.disk (page_sector (p.frames i).page_id) ≡ store_page_hdr (p.frames i).bytes c.hdr

-- A frame whose page is to be written.
pub record NeedsWrite (f : BufFrame) (c : Content) : Type 0 where
  pub is_valid : f.state ≡ valid
  pub holds : f.kp ≡ some c
  pub dirty : test_bit c.hdr.flags flag_dirty ≡ true

valid_is : (s : FrameState) → is_valid s ≡ true → s ≡ valid
valid_is s h = grind arith

both_ways :
    (f : BufFrame) (c c' : Content)
    → (is_valid f.state && test_bit c.hdr.flags flag_dirty) ≡ false
    → f.kp ≡ some c
    → NeedsWrite f c'
    → ⊥
both_ways f c c' e k n =
    let d : test_bit c.hdr.flags flag_dirty ≡ true =
      ap (λ (x : Content). test_bit x.hdr.flags flag_dirty) (some-injective c c' (sym k ∙ n.holds))
      ∙ n.dirty in
    let v : is_valid f.state ≡ true = ap is_valid n.is_valid in
    true_is_not_false (sym (rw (v, d) refl) ∙ e)

frame-cases :
    (f : BufFrame)
    → ((c : Content) × NeedsWrite f c × (write_back f ≡ written_back f c))
      ⊎ (((c : Content) → NeedsWrite f c → ⊥)
          × (write_back f ≡ f)
          × ((is_valid f.state && is_dirty f.kp) ≡ false))
frame-cases f = elim (Option-cases f.kp) [
  | inl k ↦
      inr (
        λ c n. none-ne-some c (sym k ∙ n.holds),
        rw (k) refl,
        rw (k) (and_false (is_valid f.state)),
      )
  | inr (c, k) ↦ elim (Bool-cases (is_valid f.state && test_bit c.hdr.flags flag_dirty)) [
    | inl e ↦
        (let both = and_both (is_valid f.state) (test_bit c.hdr.flags flag_dirty) e in
          inl (
            c,
            record { is_valid = valid_is f.state both.0; holds = k; dirty = both.1 },
            rw (k, e) refl,
          ))
    | inr e ↦ inr (λ c' n. both_ways f c c' e k n, rw (k, e) refl, rw (k) e)
  ]
]

module _ (env : Env) (writes : env.write_error ≡ none) where
  pub turns : (p : BufPool) (i : ℕ) → Turn p (turn env p i) i
  turns p i = elim (frame-cases (p.frames i)) [
    | inr (h, w, stays) ↦
        (let same = turn_clean env writes p i stays in
          record {
            self = ap (λ (q : BufPool). q.frames i) same ∙ sym w;
            other = λ j e. rw (same) refl;
            map_kept = rw (same) refl;
            frees_kept = rw (same) refl;
            disk_apart = λ s a. rw (same) refl;
            disk_at = λ c v k d. absurd (h c (record { is_valid = v; holds = k; dirty = d }));
          })
    | inl (c, n, w) ↦
        let t = turn_dirty env writes p i c n.is_valid n.holds n.dirty in
        record {
          self = t.self ∙ sym w;
          other = t.other;
          map_kept = t.map_kept;
          frees_kept = t.frees_kept;
          disk_apart = λ s a. ap (λ (d : ℕ → Bytes). d s) t.disk_is ∙ rw (a n.is_valid) refl;
          disk_at = λ c' v k' d.
              ap (λ (d : ℕ → Bytes). d (page_sector (p.frames i).page_id)) t.disk_is
              ∙ (let own =
                    (==_iff (page_sector (p.frames i).page_id) (page_sector (p.frames i).page_id)).1
                      refl in
                  rw (own) (
                    ap (λ (x : Content). store_page_hdr (p.frames i).bytes x.hdr)
                      (some-injective c c' (sym n.holds ∙ k'))));
        }
  ]
