-- ===== src/BufPool/Frames.antt =====
-- The ways of a frame of kernel/kds/page_mgr.c: taken from the free list, put back on it, entered
-- in the table.
use kdbs.Common.{
  ℕ, ◌+◌, ◌-◌, ◌<◌, ◌≡◌, ◌≢◌, refl, sym, ap, ◌∙◌, inl, inr, ◌⊎◌, Bool, true, false, ◌&&◌, List, [],
  ◌∷◌, ◌++◌, Option, none, some, arith, length, length-append, ltb, ◌==◌, if◌then◌else◌, Bool-cases,
  ==_iff, ltb→lt, lt→ltb,
}
use kdbs.BufPool.{
  FrameState, free, loading, valid, is_free, BufFrame, BufPool, nr_frames, put_frame, put_map,
  return_free_frame, give_back,
}
use kdbs.BufPool.Inv.{IsPool, count, unmapped, put_frame_self, put_frame_other, put_hidden-IsPool}

free_is : (s : FrameState) → is_free s ≡ true → s ≡ free
free_is free h = refl
free_is loading h = grind arith
free_is valid h = grind arith

pub loading_is_not_valid : (s : FrameState) → s ≡ loading → s ≢ valid
loading_is_not_valid s h e = grind arith

pub free_is_not_valid : (s : FrameState) → s ≡ free → s ≢ valid
free_is_not_valid s h e = grind arith

pub loading_is_not_free : (s : FrameState) → s ≡ loading → is_free s ≡ false
loading_is_not_free s h = rw (h) refl

pub and_both : (a b : Bool) → (a && b) ≡ true → (a ≡ true) × (b ≡ true)
and_both true b h = (refl, h)
and_both false b h = grind arith

-- What an option holds.
abbrev value : Option ℕ → ℕ → ℕ
value none d = d
value (some a) d = a

count_snoc : (j i : ℕ) (is : List ℕ) → count j (is ++ (i ∷ [])) ≡ count j is + count j (i ∷ [])
count_snoc j i [] = omega arith
count_snoc j i (k ∷ is) = omega (arith, count_snoc j i is)

abbrev pub taken : BufPool → List ℕ → BufPool
taken p rest = record p { free_frames = rest; nr_free = p.nr_free - 1 }

module _ (p : BufPool) (i : ℕ) where
  -- The number in front of the free list is one of a free frame.
  head_is_free :
      (rest : List ℕ)
      → IsPool p
      → p.free_frames ≡ i ∷ rest
      → (ltb i nr_frames && is_free (p.frames i).state) ≡ true
  head_is_free rest v h =
      let c = sym (ap (count i) h) ∙ v.listed i in
      let one = (==_iff i i).1 refl in
      elim (Bool-cases (ltb i nr_frames && is_free (p.frames i).state)) [
        | inl e ↦ e
        | inr e ↦ ground (arith, c, one, e)
      ]

  pub taken_in_range :
      (rest : List ℕ)
      → IsPool p
      → p.free_frames ≡ i ∷ rest
      → (i < nr_frames) × ((p.frames i).state ≡ free)
  taken_in_range rest v h =
      let both = and_both (ltb i nr_frames) (is_free (p.frames i).state) (head_is_free rest v h) in
      (ltb→lt i nr_frames both.0, free_is (p.frames i).state both.1)

  -- A frame is taken and set to LOADING.
  pub take-IsPool :
      (rest : List ℕ) (f : BufFrame)
      → IsPool p
      → p.free_frames ≡ i ∷ rest
      → f.state ≡ loading
      → IsPool (put_frame (taken p rest) i f)
  take-IsPool rest f v h l =
      let was = free_is_not_valid (p.frames i).state (taken_in_range rest v h).1 in
      put_hidden-IsPool p i f (put_frame (taken p rest) i f) v was (loading_is_not_valid f.state l)
        (λ j. refl) refl
        (λ j. elim (Bool-cases (j == i)) [
          | inl e ↦
              (let c = sym (ap (count j) h) ∙ v.listed j in
                let nf = loading_is_not_free f.state l in ground (arith, c, e, nf))
          | inr e ↦ (let c = sym (ap (count j) h) ∙ v.listed j in ground (arith, c, e))
        ])
        (let c = v.counted in let n = ap length h in omega (arith, c, n))

  -- A frame that is being loaded stays so.
  pub load-IsPool :
      (f : BufFrame)
      → IsPool p
      → (p.frames i).state ≡ loading
      → f.state ≡ loading
      → IsPool (put_frame p i f)
  load-IsPool f v was l =
      put_hidden-IsPool p i f (put_frame p i f) v (loading_is_not_valid (p.frames i).state was)
        (loading_is_not_valid f.state l) (λ j. refl) refl
        (λ j. elim (Bool-cases (j == i)) [
          | inl e ↦
              (let c = v.listed i in
                let ji = (==_iff j i).0 e in
                let x = loading_is_not_free f.state l in
                let y = loading_is_not_free (p.frames i).state was in
                rw (e) (ap (λ k. count k p.free_frames) ji ∙ ground (arith, c, x, y)))
          | inr e ↦ (let c = v.listed j in ground (arith, c, e))
        ])
        v.counted

  -- A frame that was being loaded is put back on the free list.
  pub give_back-IsPool :
      (f : BufFrame)
      → IsPool p
      → (p.frames i).state ≡ loading
      → i < nr_frames
      → IsPool (give_back p i f)
  unfolding return_free_frame
  give_back-IsPool f v was h =
      put_hidden-IsPool p i (record f { state = free; page_id = 0 }) (give_back p i f) v
        (loading_is_not_valid (p.frames i).state was) (free_is_not_valid free refl) (λ j. refl) refl
        (λ j. elim (Bool-cases (j == i)) [
          | inl e ↦
              (let c = v.listed i in
                let ji = (==_iff j i).0 e in
                let sn = count_snoc j i p.free_frames in
                let y = loading_is_not_free (p.frames i).state was in
                let z = ap (λ k. count k p.free_frames) ji in
                let lt = lt→ltb i nr_frames h in ground (arith, c, e, sn, y, z, lt))
          | inr e ↦
              (let c = v.listed j in
                let sn = count_snoc j i p.free_frames in ground (arith, c, e, sn))
        ])
        (let c = v.counted in let n = length-append p.free_frames (i ∷ []) in omega (arith, c, n))

  -- Where an entry of the table comes from after one has been made.
  entry_from :
      (id k j : ℕ)
      → IsPool p
      → (p.frames i).state ≡ loading
      → (put_map p id i).map k ≡ some j
      → ((k ≡ id) × (j ≡ i)) ⊎ ((p.map k ≡ some j) × ((j == i) ≡ false))
  entry_from id k j v was m = elim (Bool-cases (k == id)) [
    | inl e ↦
        let m' = ap (λ b. if b then some i else p.map k) (sym e) ∙ m in
        inl ((==_iff k id).0 e, sym (ap (λ o. value o i) m'))
    | inr e ↦
        let m' = ap (λ b. if b then some i else p.map k) (sym e) ∙ m in
        inr (m', unmapped p k i v (loading_is_not_valid (p.frames i).state was) j m')
  ]

  -- A frame that was being loaded enters the table under its page id.
  pub enter-IsPool :
      IsPool p
      → (p.frames i).state ≡ loading
      → i < nr_frames
      → p.map (p.frames i).page_id ≡ none
      → IsPool
          (put_frame (put_map p (p.frames i).page_id i) i (record (p.frames i) { state = valid }))
  enter-IsPool v was h fresh =
      let id = (p.frames i).page_id in
      let f : BufFrame = record (p.frames i) { state = valid } in
      let q = put_frame (put_map p id i) i f in
      let self : q.frames i ≡ f = put_frame_self (put_map p id i) i f in
      let other : (j : ℕ) → (j == i) ≡ false → q.frames j ≡ p.frames j =
        λ j. put_frame_other (put_map p id i) i j f in
      let state_of = λ (x : BufFrame). x.state in
      let id_of = λ (x : BufFrame). x.page_id in
      record {
        listed = λ j. elim (Bool-cases (j == i)) [
          | inl e ↦
              (let c = v.listed i in
                let ji = (==_iff j i).0 e in
                let y = loading_is_not_free (p.frames i).state was in
                rw (e) (ap (λ k. count k p.free_frames) ji ∙ ground (arith, c, y)))
          | inr e ↦ (let c = v.listed j in ground (arith, c, e))
        ];
        counted = v.counted;
        in_range = λ k j m. elim (entry_from id k j v was m) [
          | inl (a, b) ↦ omega (arith, h, b)
          | inr (a, b) ↦ v.in_range k j a
        ];
        is_valid = λ k j m. elim (entry_from id k j v was m) [
          | inl (a, b) ↦ rw (b) (ap state_of self)
          | inr (a, b) ↦ ap state_of (other j b) ∙ v.is_valid k j a
        ];
        has_id = λ k j m. elim (entry_from id k j v was m) [
          | inl (a, b) ↦ rw (b) (ap id_of self ∙ sym a)
          | inr (a, b) ↦ ap id_of (other j b) ∙ v.has_id k j a
        ];
        mapped = λ j m. elim (Bool-cases (j == i)) [
          | inl e ↦
              let ji = (==_iff j i).0 e in
              let own = (==_iff id id).1 refl in rw (e, own) (ap some (sym ji))
          | inr e ↦
              let m' = v.mapped j (ap state_of (sym (other j e)) ∙ m) in
              let apart : ((p.frames j).page_id == id) ≡ false =
                elim (Bool-cases ((p.frames j).page_id == id)) [
                  | inr d ↦ d
                  | inl d ↦
                      (let c : some j ≡ none = sym m' ∙ ap p.map ((==_iff _ _).0 d) ∙ fresh in
                        grind arith)
                ] in
              rw (e, apart) m'
        ];
      }
