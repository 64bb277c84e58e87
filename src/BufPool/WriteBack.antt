-- ===== src/BufPool/WriteBack.antt =====
-- The whole write-back, `kds_buf_flush_dirty_frames` of kernel/kds/page_mgr.c.
use kdbs.Common.{
  ℕ, zero, suc, ◌+◌, ◌*◌, ◌^◌, ◌≤◌, ◌<◌, ◌≡◌, ◌≢◌, refl, sym, ap, subst, ◌∙◌, inl, inr, false, none,
  arith, ◌==◌, Bool-cases, ==_iff,
}
use mathlib.Core.Option.{some-injective}
use kdbs.Page.{page_sector, store_page_hdr}
use kdbs.BufPool.{valid, Content, BufFrame, BufPool, Env, nr_frames, flush_from, flush_dirty_frames}
use kdbs.BufPool.Inv.{IsPool}
use kdbs.BufPool.Flush.{turn, NeedsWrite, written_back, write_back, turns}

apart : (j i : ℕ) → j ≢ i → (j == i) ≡ false
apart j i h = elim (Bool-cases (j == i)) [ inr e ↦ e | inl e ↦ absurd (h ((==_iff j i).0 e)) ]

-- No valid frame from `i` on holds the page of sector `s`.
abbrev IsElsewhere : BufPool → ℕ → ℕ → Type 0
IsElsewhere p i s =
    (k : ℕ) → i ≤ k → (p.frames k).state ≡ valid → (s == page_sector (p.frames k).page_id) ≡ false

module _ (env : Env) (writes : env.write_error ≡ none) where
  loop_other :
      (left i : ℕ) (p : BufPool) (j : ℕ) → j < i → (flush_from env left i p).frames j ≡ p.frames j
  unfolding flush_from
  loop_other zero i p j h = refl
  loop_other (suc left) i p j h =
      loop_other left (i + 1) (turn env p i) j (omega arith)
      ∙ (turns env writes p i).other j (apart j i (λ e. omega (arith, e, h)))

  loop_frames :
      (left i : ℕ) (p : BufPool) (j : ℕ)
      → i ≤ j
      → j < i + left
      → (flush_from env left i p).frames j ≡ write_back (p.frames j)
  unfolding flush_from
  loop_frames zero i p j h l = absurd (omega arith)
  loop_frames (suc left) i p j h l = elim (Bool-cases (j == i)) [
    | inl e ↦
        let j_is = (==_iff j i).0 e in
        loop_other left (i + 1) (turn env p i) j (omega (arith, j_is))
        ∙ rw (j_is) (turns env writes p i).self
    | inr e ↦
        loop_frames left (i + 1) (turn env p i) j (ground (arith, e, h)) (omega (arith, l))
        ∙ ap write_back ((turns env writes p i).other j e)
  ]

  loop_kept :
      (left i : ℕ) (p : BufPool)
      → ((flush_from env left i p).map ≡ p.map)
        × ((flush_from env left i p).free_frames ≡ p.free_frames)
  unfolding flush_from
  loop_kept zero i p = (refl, refl)
  loop_kept (suc left) i p =
      let rest = loop_kept left (i + 1) (turn env p i) in
      (rest.0 ∙ (turns env writes p i).map_kept, rest.1 ∙ (turns env writes p i).frees_kept)

  after_turn :
      (p : BufPool) (i s : ℕ) → IsElsewhere p (i + 1) s → IsElsewhere (turn env p i) (i + 1) s
  after_turn p i s a k h v =
      let same = (turns env writes p i).other k (apart k i (λ e. omega (arith, e, h))) in
      rw (same) (a k h (ap (λ (f : BufFrame). f.state) (sym same) ∙ v))

  loop_disk :
      (left i : ℕ) (p : BufPool) (s : ℕ)
      → IsElsewhere p i s
      → (flush_from env left i p).disk s ≡ p.disk s
  unfolding flush_from
  loop_disk zero i p s a = refl
  loop_disk (suc left) i p s a =
      loop_disk left (i + 1) (turn env p i) s (after_turn p i s (λ k h v. a k (omega (arith, h)) v))
      ∙ (turns env writes p i).disk_apart s (a i (omega arith))

  loop_writes :
      (left i : ℕ) (p : BufPool) (j : ℕ) (c : Content)
      → i ≤ j
      → j < i + left
      → NeedsWrite (p.frames j) c
      → IsElsewhere p (j + 1) (page_sector (p.frames j).page_id)
      → (flush_from env left i p).disk (page_sector (p.frames j).page_id)
        ≡ store_page_hdr (p.frames j).bytes c.hdr
  unfolding flush_from
  loop_writes zero i p j c h l n a = absurd (omega arith)
  loop_writes (suc left) i p j c h l n a = elim (Bool-cases (j == i)) [
    | inl e ↦
        (let j_is = (==_iff j i).0 e in
          let at = subst (λ k. NeedsWrite (p.frames k) c) j_is n in
          let s = page_sector (p.frames j).page_id in
          loop_disk left (i + 1) (turn env p i) s
            (after_turn p i s (λ k g v. a k (omega (arith, g, j_is)) v))
          ∙ ap (λ k. (turn env p i).disk (page_sector (p.frames k).page_id)) j_is
          ∙ (turns env writes p i).disk_at c at.is_valid at.holds at.dirty
          ∙ ap (λ k. store_page_hdr (p.frames k).bytes c.hdr) (sym j_is))
    | inr e ↦
        (let same = (turns env writes p i).other j e in
          let later : IsElsewhere (turn env p i) (j + 1) (page_sector (p.frames j).page_id) =
            λ k g v.
              let kept = (turns env writes p i).other k (apart k i (λ x. omega (arith, x, g, h))) in
              rw (kept) (a k g (ap (λ (f : BufFrame). f.state) (sym kept) ∙ v)) in
          ap
            (λ (f : BufFrame).
              (flush_from env left (i + 1) (turn env p i)).disk (page_sector f.page_id))
            (sym same)
          ∙ loop_writes left (i + 1) (turn env p i) j c (ground (arith, e, h)) (omega (arith, l))
              (subst (λ (f : BufFrame). NeedsWrite f c) (sym same) n) (rw (same) later)
          ∙ ap (λ (f : BufFrame). store_page_hdr f.bytes c.hdr) same)
  ]

-- Pages with different numbers lie in different sectors, as long as their sectors' numbers do not wrap.
sector_is : (a : ℕ) → a < 2 ^ 60 → page_sector a ≡ a * 16
unfolding page_sector
sector_is a h = omega (arith, h)

module _ (env : Env) (writes : env.write_error ≡ none) (p : BufPool) (v : IsPool p) where
  -- Two valid frames do not hold the same page.
  valid_is_alone :
      (j k : ℕ)
      → (p.frames j).state ≡ valid
      → (p.frames k).state ≡ valid
      → (p.frames j).page_id ≡ (p.frames k).page_id
      → j ≡ k
  valid_is_alone j k vj vk e = some-injective j k (sym (v.mapped j vj) ∙ ap p.map e ∙ v.mapped k vk)

  later-IsElsewhere :
      ((i : ℕ) → (p.frames i).state ≡ valid → (p.frames i).page_id < 2 ^ 60)
      → (i : ℕ) → (p.frames i).state ≡ valid
      → IsElsewhere p (i + 1) (page_sector (p.frames i).page_id)
  later-IsElsewhere small i vi k h vk =
      apart (page_sector (p.frames i).page_id) (page_sector (p.frames k).page_id) λ e.
        let a = sector_is (p.frames i).page_id (small i vi) in
        let b = sector_is (p.frames k).page_id (small k vk) in
        let same = valid_is_alone i k vi vk (omega (arith, a, b, e)) in omega (arith, same, h)

  -- The write-back of all dirty frames, where the device takes the writes and page ids are below
  -- 2 ^ 60: a dirty valid frame `i` has its header stored in its bytes, these are what its page's
  -- sector then holds, and its dirty flag is cleared; so is it done with every frame `j` that is
  -- valid and dirty, another stays as it is, and so do the table and the free list.
  pub flush_dirty_writes :
      (i j : ℕ) (c : Content)
      → ((k : ℕ) → (p.frames k).state ≡ valid → (p.frames k).page_id < 2 ^ 60)
      → NeedsWrite (p.frames i) c
      → j < nr_frames
      → let q = flush_dirty_frames env p in
        (q.frames i ≡ written_back (p.frames i) c)
        × (q.disk (page_sector (p.frames i).page_id) ≡ store_page_hdr (p.frames i).bytes c.hdr)
        × (q.frames j ≡ write_back (p.frames j))
        × (q.map ≡ p.map)
        × (q.free_frames ≡ p.free_frames)
  unfolding flush_dirty_frames
  flush_dirty_writes i j c small n h =
      let inside = v.in_range _ i (v.mapped i n.is_valid) in
      let frame = loop_frames env writes nr_frames 0 p in
      let sure : write_back (p.frames i) ≡ written_back (p.frames i) c =
        rw (n.holds, n.is_valid, n.dirty) refl in
      (
        frame i (omega arith) (omega (arith, inside)) ∙ sure,
        loop_writes env writes nr_frames 0 p i c (omega arith) (omega (arith, inside)) n
            (later-IsElsewhere small i n.is_valid),
        frame j (omega arith) (omega (arith, h)),
        (loop_kept env writes nr_frames 0 p).0,
        (loop_kept env writes nr_frames 0 p).1,
      )
