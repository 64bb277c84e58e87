-- ===== src/BufPool/Held.antt =====
-- A frame of kernel/kds/page_mgr.c while a call loads a page in it.
use kdbs.Common.{
  ℕ, ◌<◌, ◌≡◌, ◌⊎◌, refl, ap, ◌∙◌, inl, inr, not, List, [], ◌∷◌, Option, none, some, Bool-cases,
  Option-cases, List-cases, if_elim, option_elim, Errno, eexist, enomem,
}
use kdbs.Common.Bytes.{Bytes}
use kdbs.BufPool.{
  loading, valid, BufFrame, BufPool, Env, nr_frames, put_frame, put_map, buf_pin, buf_unpin,
  frame_read_from_disk, register_frame, buf_lookup, take_free_frame, put_disk,
}
use kdbs.BufPool.Inv.{IsPool, put_frame_self, put_same-IsPool}
use kdbs.BufPool.Frames.{take-IsPool, taken, taken_in_range, load-IsPool}

-- Other threads keep the pool's invariant, and leave a frame that is being loaded to the thread that
-- loads it.
pub record IsFair (others : BufPool → BufPool) : Type 0 where
  pub keeps : (p : BufPool) → IsPool p → IsPool (others p)
  pub leaves :
      (p : BufPool) (i : ℕ) → (p.frames i).state ≡ loading → (others p).frames i ≡ p.frames i

pub pin-IsPool : (p : BufPool) (i : ℕ) → IsPool p → IsPool (buf_pin p i)
unfolding buf_pin
pin-IsPool p i v = put_same-IsPool p i _ v refl refl

pub unpin-IsPool : (p : BufPool) (i : ℕ) → IsPool p → IsPool (buf_unpin p i)
unfolding buf_unpin
unpin-IsPool p i v = put_same-IsPool p i _ v refl refl

-- The frame `i` is one that a call is loading the page `id` in.
pub record IsHeld (p : BufPool) (i id : ℕ) : Type 0 where
  pub ok : IsPool p
  pub is_loading : (p.frames i).state ≡ loading
  pub for_page : (p.frames i).page_id ≡ id
  pub inside : i < nr_frames

-- The frame `i`, set to LOADING for a page.
abbrev pub claimed : BufPool → ℕ → ℕ → BufPool
claimed p i id = put_frame p i (record (p.frames i) { state = loading; page_id = id })

-- The frame `i`, entered in the table and pinned.
abbrev pub entered : BufPool → ℕ → BufPool
entered p i =
    buf_pin (put_frame (put_map p (p.frames i).page_id i) i (record (p.frames i) { state = valid }))
      i

pub take_first :
    (p : BufPool) (i : ℕ) (rest : List ℕ)
    → p.free_frames ≡ i ∷ rest
    → take_free_frame p ≡ (taken p rest, some i)
unfolding take_free_frame
take_first p i rest h = rw (h) refl

pub lookup-cases :
    (p : BufPool) (id : ℕ)
    → (buf_lookup p id ≡ (p, none))
      ⊎ ((i : ℕ) × (p.map id ≡ some i) × (buf_lookup p id ≡ (buf_pin p i, some i)))
unfolding buf_lookup
lookup-cases p id = elim (Option-cases (p.map id)) [
  | inl m ↦ inl (rw (buf_lookup, m) refl)
  | inr (i, m) ↦ inr (i, m, rw (buf_lookup, m) refl)
]

pub take-cases :
    (p : BufPool)
    → ((p.free_frames ≡ []) × (take_free_frame p ≡ (p, none)))
      ⊎ ((i : ℕ) × (rest : List ℕ) × (p.free_frames ≡ i ∷ rest)
          × (take_free_frame p ≡ (taken p rest, some i)))
unfolding take_free_frame
take-cases p = elim (List-cases p.free_frames) [
  | inl e ↦ inl (e, rw (e) refl)
  | inr (i, rest, e) ↦ inr (i, rest, e, rw (e) refl)
]

pub taken-IsHeld :
    (p : BufPool) (i id : ℕ) (rest : List ℕ) (f : BufFrame)
    → IsPool p
    → p.free_frames ≡ i ∷ rest
    → f.state ≡ loading
    → f.page_id ≡ id
    → IsHeld (put_frame (taken p rest) i f) i id
taken-IsHeld p i id rest f v h l d = record {
  ok = take-IsPool p i rest f v h l;
  is_loading = ap (λ (x : BufFrame). x.state) (put_frame_self (taken p rest) i f) ∙ l;
  for_page = ap (λ (x : BufFrame). x.page_id) (put_frame_self (taken p rest) i f) ∙ d;
  inside = (taken_in_range p i rest v h).0;
}

pub hold-IsHeld :
    (p : BufPool) (i id : ℕ) (f : BufFrame)
    → IsHeld p i id
    → f.state ≡ loading
    → f.page_id ≡ id
    → IsHeld (put_frame p i f) i id
hold-IsHeld p i id f h l d = record {
  ok = load-IsPool p i f h.ok h.is_loading l;
  is_loading = ap (λ (x : BufFrame). x.state) (put_frame_self p i f) ∙ l;
  for_page = ap (λ (x : BufFrame). x.page_id) (put_frame_self p i f) ∙ d;
  inside = h.inside;
}

pub disk-IsHeld :
    (p : BufPool) (i id : ℕ) (bytes : Bytes) → IsHeld p i id → IsHeld (put_disk p id bytes) i id
disk-IsHeld p i id bytes h = record {
  ok = record {
    listed = h.ok.listed;
    counted = h.ok.counted;
    in_range = h.ok.in_range;
    is_valid = h.ok.is_valid;
    has_id = h.ok.has_id;
    mapped = h.ok.mapped;
  };
  is_loading = h.is_loading;
  for_page = h.for_page;
  inside = h.inside;
}

module _ (env : Env) where
  pub register-cases :
      (p : BufPool) (i : ℕ)
      → ((p.map (p.frames i).page_id ≡ none) × (register_frame env p i ≡ (entered p i, none)))
        ⊎ ((e : Errno) × (register_frame env p i ≡ (p, some e)))
  unfolding register_frame
  register-cases p i = elim (Bool-cases env.entry_ok) [
    | inr n ↦ inr (enomem, rw (n) refl)
    | inl y ↦ elim (Option-cases (p.map (p.frames i).page_id)) [
      | inr (j, m) ↦ inr (eexist, rw (y, m) refl)
      | inl m ↦ elim (Option-cases env.insert_error) [
        | inr (e, q) ↦ inr (e, rw (y, m, q) refl)
        | inl q ↦ inl (m, rw (y, m, q) refl)
      ]
    ]
  ]

  module _ (fair : IsFair env.others) where
    pub others-IsHeld : (p : BufPool) (i id : ℕ) → IsHeld p i id → IsHeld (env.others p) i id
    others-IsHeld p i id h = record {
      ok = fair.keeps p h.ok;
      is_loading = ap (λ (f : BufFrame). f.state) (fair.leaves p i h.is_loading) ∙ h.is_loading;
      for_page = ap (λ (f : BufFrame). f.page_id) (fair.leaves p i h.is_loading) ∙ h.for_page;
      inside = h.inside;
    }

    pub read-IsHeld :
        (p : BufPool) (i id : ℕ) → IsHeld p i id → IsHeld (frame_read_from_disk env p i id).0 i id
    unfolding frame_read_from_disk
    read-IsHeld p i id h =
        let P = λ (r : BufPool × Option Errno). IsHeld r.0 i id in
        if_elim P (not env.bdev) h (
          if_elim P (not env.pages_ok) h (
            option_elim P env.read_error
              (if_elim P (not env.kp_ok) (hold-IsHeld p i id _ h h.is_loading h.for_page)
                (hold-IsHeld p i id _ h h.is_loading h.for_page))
              (λ e. h)))
