-- ===== src/BufPool/Inv.antt =====
-- The invariant of the buffer pool of kernel/kds/page_mgr.c, and the ways in which one frame
-- changes under it.
use kdbs.Common.{
  ℕ, ◌+◌, ◌<◌, ◌≡◌, refl, sym, ap, ◌∙◌, inl, inr, ◌≢◌, false, ◌&&◌, List, [], ◌∷◌, some, length,
  ltb, ◌==◌, if◌then◌else◌, Bool-cases, ==_iff,
}
use kdbs.BufPool.{valid, is_free, BufFrame, BufPool, nr_frames, put_frame}

-- How often a number occurs.
abbrev pub count : ℕ → List ℕ → ℕ
count i [] = 0
count i (j ∷ js) = (if i == j then 1 else 0) + count i js

-- A free frame's number is on the free list once, and no other number is.
abbrev pub free_share : BufPool → ℕ → ℕ
free_share p i = if ltb i nr_frames && is_free (p.frames i).state then 1 else 0

pub record IsPool (p : BufPool) : Type 0 where
  pub listed : (i : ℕ) → count i p.free_frames ≡ free_share p i
  pub counted : p.nr_free ≡ length p.free_frames
  pub in_range : (id i : ℕ) → p.map id ≡ some i → i < nr_frames
  pub is_valid : (id i : ℕ) → p.map id ≡ some i → (p.frames i).state ≡ valid
  pub has_id : (id i : ℕ) → p.map id ≡ some i → (p.frames i).page_id ≡ id
  pub mapped : (i : ℕ) → (p.frames i).state ≡ valid → p.map (p.frames i).page_id ≡ some i

-- The frame that was put, and the others.
pub put_frame_self : (p : BufPool) (i : ℕ) (f : BufFrame) → (put_frame p i f).frames i ≡ f
put_frame_self p i f = rw ((==_iff i i).1 refl) refl

pub put_frame_other :
    (p : BufPool) (i j : ℕ) (f : BufFrame)
    → (j == i) ≡ false
    → (put_frame p i f).frames j ≡ p.frames j
put_frame_other p i j f h = rw (h) refl

-- A frame that keeps its state and its page id.
module _ (p : BufPool) (i : ℕ) (f : BufFrame) where
  same_state :
      f.state ≡ (p.frames i).state
      → (j : ℕ) → ((put_frame p i f).frames j).state ≡ (p.frames j).state
  same_state s j = elim (Bool-cases (j == i)) [
    | inl e ↦ rw (e) (s ∙ ap (λ k. (p.frames k).state) (sym ((==_iff j i).0 e)))
    | inr e ↦ rw (e) refl
  ]

  same_id :
      f.page_id ≡ (p.frames i).page_id
      → (j : ℕ) → ((put_frame p i f).frames j).page_id ≡ (p.frames j).page_id
  same_id s j = elim (Bool-cases (j == i)) [
    | inl e ↦ rw (e) (s ∙ ap (λ k. (p.frames k).page_id) (sym ((==_iff j i).0 e)))
    | inr e ↦ rw (e) refl
  ]

  pub put_same-IsPool :
      IsPool p
      → f.state ≡ (p.frames i).state
      → f.page_id ≡ (p.frames i).page_id
      → IsPool (put_frame p i f)
  put_same-IsPool v s d = record {
    listed = λ j. rw (same_state s j) (v.listed j);
    counted = v.counted;
    in_range = v.in_range;
    is_valid = λ id j h. same_state s j ∙ v.is_valid id j h;
    has_id = λ id j h. same_id d j ∙ v.has_id id j h;
    mapped = λ j h. rw (same_id d j) (v.mapped j (sym (same_state s j) ∙ h));
  }

-- A frame that is being loaded is not in the table.
pub unmapped :
    (p : BufPool) (id i : ℕ)
    → IsPool p
    → (p.frames i).state ≢ valid
    → (j : ℕ) → p.map id ≡ some j
    → (j == i) ≡ false
unmapped p id i v h j m = elim (Bool-cases (j == i)) [
  | inr e ↦ e
  | inl e ↦ absurd (h (ap (λ k. (p.frames k).state) (sym ((==_iff j i).0 e)) ∙ v.is_valid id j m))
]

-- The change of a frame that is not valid, to one that is not valid, with what the free list needs.
pub put_hidden-IsPool :
    (p : BufPool) (i : ℕ) (f : BufFrame) (q : BufPool)
    → IsPool p
    → (p.frames i).state ≢ valid
    → f.state ≢ valid
    → ((j : ℕ) → q.frames j ≡ (if j == i then f else p.frames j))
    → q.map ≡ p.map
    → ((j : ℕ) → count j q.free_frames ≡ free_share q j)
    → q.nr_free ≡ length q.free_frames
    → IsPool q
put_hidden-IsPool p i f q v was is frame table listed counted =
    let kept : (id j : ℕ) → q.map id ≡ some j → (q.frames j ≡ p.frames j) × (p.map id ≡ some j) =
      λ id j m.
        let m' : p.map id ≡ some j = ap (λ t. t id) (sym table) ∙ m in
        (frame j ∙ ap (λ b. if b then f else p.frames j) (unmapped p id i v was j m'), m') in
    record {
      listed = listed;
      counted = counted;
      in_range = λ id j m. v.in_range id j (kept id j m).1;
      is_valid = λ id j m.
          ap (λ (x : BufFrame). x.state) (kept id j m).0 ∙ v.is_valid id j (kept id j m).1;
      has_id = λ id j m.
          ap (λ (x : BufFrame). x.page_id) (kept id j m).0 ∙ v.has_id id j (kept id j m).1;
      mapped = λ j m. elim (Bool-cases (j == i)) [
        | inl e ↦ absurd (
            is (
              ap (λ (x : BufFrame). x.state)
                (sym (frame j ∙ ap (λ b. if b then f else p.frames j) e))
              ∙ m))
        | inr e ↦
            let same : q.frames j ≡ p.frames j =
              frame j ∙ ap (λ b. if b then f else p.frames j) e in
            rw (same, table) (v.mapped j (ap (λ (x : BufFrame). x.state) (sym same) ∙ m))
      ];
    }
