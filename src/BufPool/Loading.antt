-- ===== src/BufPool/Loading.antt =====
-- `kds_buf_lookup_or_load` and `kds_buf_alloc_new` of kernel/kds/page_mgr.c against the invariant of
-- the pool.
use kdbs.Common.{
  ℕ, ◌≡◌, refl, sym, ◌∙◌, inl, inr, not, List, ◌∷◌, none, some, arith, Option-cases, ==_iff,
  if_elim, option_elim, Errno, eexist, Result, ok, err,
}
use kdbs.BufPool.{
  loading, valid, BufFrame, BufPool, Env, give_back, discard, buf_pin, frame_read_from_disk,
  register_frame, buf_lookup, or_enoent, load_registered, load_frame, buf_lookup_or_load,
  new_registered, new_frame, buf_alloc_new,
}
use kdbs.BufPool.Inv.{IsPool}
use kdbs.BufPool.Frames.{taken, give_back-IsPool, enter-IsPool}
use kdbs.BufPool.Held.{
  IsFair, IsHeld, pin-IsPool, unpin-IsPool, claimed, entered, lookup-cases, take-cases,
  taken-IsHeld, hold-IsHeld, disk-IsHeld, register-cases, others-IsHeld, read-IsHeld,
}

ok_same : (i j : ℕ) → ◌≡◌ {A = Result ℕ} (ok i) (ok j) → some i ≡ some j
ok_same i j h = grind arith

module _ (env : Env) (fair : IsFair env.others) where
  -- What the calls promise: the invariant, and that a frame they give is the page's.
  abbrev pub Serves : ℕ → BufPool × Result ℕ → Type 0
  Serves id r = IsPool r.0 × ((i : ℕ) → r.1 ≡ ok i → r.0.map id ≡ some i)

  entered-Serves :
      (p : BufPool) (i id : ℕ)
      → IsHeld p i id
      → p.map (p.frames i).page_id ≡ none
      → Serves id (entered p i, ok i)
  unfolding buf_pin
  entered-Serves p i id h m = (
    pin-IsPool _ i (enter-IsPool p i h.ok h.is_loading h.inside m),
    λ j e. (let own = (==_iff _ _).1 (sym h.for_page) in rw (own) (ok_same i j e)),
  )

  discard-Serves :
      (p : BufPool) (i id : ℕ) (e : Errno) → IsHeld p i id → Serves id (discard p i, err e)
  discard-Serves p i id e h = (
    give_back-IsPool p i (record (p.frames i) { kp = none }) h.ok h.is_loading h.inside,
    λ j q. grind arith,
  )

  lookup-Serves : (p : BufPool) (id : ℕ) → IsPool p → Serves id (or_enoent (buf_lookup p id))
  unfolding buf_pin
  lookup-Serves p id v = elim (lookup-cases p id) [
    | inl q ↦ rw (q) (v, λ j q. grind arith)
    | inr (i, m, q) ↦ rw (q) (pin-IsPool p i v, λ j q. m ∙ ok_same i j q)
  ]

  failed-Serves :
      (p : BufPool) (i id : ℕ) (e : Errno)
      → IsHeld p i id
      → Serves id (load_registered p i id (some e))
  unfolding load_registered
  failed-Serves p i id Errno.eexist h =
      lookup-Serves (discard p i) id (discard-Serves p i id eexist h).0
  failed-Serves p i id e h = discard-Serves p i id e h

  registered-Serves :
      (p : BufPool) (i id : ℕ)
      → IsHeld p i id
      → let (q, r) = register_frame env p i in Serves id (load_registered q i id r)
  unfolding load_registered
  registered-Serves p i id h = elim (register-cases env p i) [
    | inl (m, q) ↦ rw (q) (entered-Serves p i id h m)
    | inr (e, q) ↦ rw (q) (failed-Serves p i id e h)
  ]

  give_back-Serves :
      (p : BufPool) (i id : ℕ) (f : BufFrame) (e : Errno)
      → IsHeld p i id
      → Serves id (give_back p i f, err e)
  give_back-Serves p i id f e h =
      (give_back-IsPool p i f h.ok h.is_loading h.inside, λ j q. grind arith)

  load_frame-Serves :
      (p : BufPool) (i id : ℕ) → IsHeld (claimed p i id) i id → Serves id (load_frame env p i id)
  unfolding load_frame
  load_frame-Serves p i id h =
      let p3 = env.others (frame_read_from_disk env (claimed p i id) i id).0 in
      let held = others-IsHeld env fair _ i id (read-IsHeld env fair (claimed p i id) i id h) in
      option_elim (Serves id) (frame_read_from_disk env (claimed p i id) i id).1
        (registered-Serves p3 i id held) (λ e. give_back-Serves p3 i id (p3.frames i) e held)

  new_registered-Serves :
      (p : BufPool) (i id : ℕ)
      → IsHeld p i id
      → let (q, r) = register_frame env p i in Serves id (new_registered q i r)
  unfolding new_registered
  new_registered-Serves p i id h = elim (register-cases env p i) [
    | inl (m, q) ↦ rw (q) (entered-Serves p i id h m)
    | inr (e, q) ↦ rw (q) (discard-Serves p i id e h)
  ]

  new_frame-Serves :
      (p : BufPool) (i id : ℕ) (rest : List ℕ)
      → IsPool p
      → p.free_frames ≡ i ∷ rest
      → Serves id (new_frame env (taken p rest) i id)
  unfolding new_frame
  new_frame-Serves p i id rest v h =
      let q = taken p rest in
      let f : BufFrame = record (p.frames i) { state = loading; page_id = id } in
      let claim = taken-IsHeld p i id rest f v h refl refl in
      let held = others-IsHeld env fair _ i id (taken-IsHeld p i id rest _ v h refl refl) in
      if_elim (Serves id) (not env.pages_ok) (give_back-Serves (claimed q i id) i id f _ claim) (
        if_elim (Serves id) (not env.kp_ok) (discard-Serves (claimed q i id) i id _ claim) (
          option_elim (Serves id) env.write_error
            (new_registered-Serves _ i id
              (disk-IsHeld _ i id _ (hold-IsHeld _ i id _ held held.is_loading held.for_page)))
            (λ e. discard-Serves _ i id e held)))

  lookup_or_load-Serves :
      (p : BufPool) (id : ℕ) → IsPool p → Serves id (buf_lookup_or_load env p id)
  unfolding buf_lookup_or_load buf_pin
  lookup_or_load-Serves p id v = elim (Option-cases (p.map id)) [
    | inr (i, m) ↦ rw (buf_lookup_or_load, m) (pin-IsPool p i v, λ j q. m ∙ ok_same i j q)
    | inl m ↦ elim (take-cases p) [
      | inl (_, q) ↦ rw (buf_lookup_or_load, m, q) (v, λ j e. grind arith)
      | inr (i, rest, h, q) ↦
          rw (buf_lookup_or_load, m, q)
            (load_frame-Serves (taken p rest) i id (taken-IsHeld p i id rest _ v h refl refl))
    ]
  ]

  alloc_new-Serves : (p : BufPool) (id : ℕ) → IsPool p → Serves id (buf_alloc_new env p id)
  unfolding buf_alloc_new
  alloc_new-Serves p id v = elim (Option-cases (p.map id)) [
    | inr (i, m) ↦
        rw (buf_alloc_new, m) (unpin-IsPool (buf_pin p i) i (pin-IsPool p i v), λ j q. grind arith)
    | inl m ↦ elim (take-cases p) [
      | inl (_, q) ↦ rw (buf_alloc_new, m, q) (v, λ j e. grind arith)
      | inr (i, rest, h, q) ↦ rw (buf_alloc_new, m, q) (new_frame-Serves p i id rest v h)
    ]
  ]

  -- A lookup that loads, and a call for a new page, keep the invariant of the pool, whatever fails
  -- and whatever other threads do while the page is read or written, provided that they keep the
  -- invariant and leave a frame that is being loaded alone.
  pub calls-IsPool :
      (p : BufPool) (id : ℕ)
      → IsPool p
      → IsPool (buf_lookup_or_load env p id).0 × IsPool (buf_alloc_new env p id).0
  calls-IsPool p id v = ((lookup_or_load-Serves p id v).0, (alloc_new-Serves p id v).0)

  -- The frame that a lookup gives is the table's entry of the page, is VALID and has the page's id,
  -- under the same conditions.
  pub lookup_finds :
      (p : BufPool) (id i : ℕ)
      → IsPool p
      → (buf_lookup_or_load env p id).1 ≡ ok i
      → let q = (buf_lookup_or_load env p id).0 in
        (q.map id ≡ some i) × ((q.frames i).state ≡ valid) × ((q.frames i).page_id ≡ id)
  lookup_finds p id i v h =
      let (w, finds) = lookup_or_load-Serves p id v in
      let m = finds i h in (m, w.is_valid id i m, w.has_id id i m)
