-- ===== src/BufPool/Refusal.antt =====
-- What a refused lookup of kernel/kds/page_mgr.c leaves behind.
use kdbs.Common.{
  ℕ, ◌+◌, ◌≡◌, refl, ap, ◌∙◌, inl, inr, not, List, [], ◌∷◌, Option, none, some, arith, length,
  length-append, Option-cases, if_elim, option_elim, Errno, Result, err,
}
use kdbs.BufPool.{
  BufFrame, BufPool, Env, give_back, discard, return_free_frame, frame_read_from_disk,
  register_frame, load_registered, load_frame, buf_lookup_or_load,
}
use kdbs.BufPool.Frames.{taken}
use kdbs.BufPool.Held.{claimed, register-cases, take-cases, lookup-cases}

-- The table and the disk are as they were, and `held` frames are missing on the free list.
pub record Kept (p : BufPool) (held : ℕ) (q : BufPool) : Type 0 where
  pub map_kept : q.map ≡ p.map
  pub disk_kept : q.disk ≡ p.disk
  pub frees : length q.free_frames + held ≡ length p.free_frames

-- A result that is an error leaves the pool as it was.
abbrev pub KeptOnError : BufPool → BufPool × Result ℕ → Type 0
KeptOnError p r = (e : Errno) → r.1 ≡ err e → Kept p 0 r.0

give_back-Kept : (p q : BufPool) (i : ℕ) (f : BufFrame) → Kept p 1 q → Kept p 0 (give_back q i f)
unfolding return_free_frame
give_back-Kept p q i f h = record {
  map_kept = h.map_kept;
  disk_kept = h.disk_kept;
  frees = omega (arith, h.frees, length-append q.free_frames (i ∷ []));
}

taken-Kept :
    (p : BufPool) (i : ℕ) (rest : List ℕ) (f : BufFrame)
    → p.free_frames ≡ i ∷ rest
    → Kept p 1 (taken p rest)
taken-Kept p i rest f h = record {
  map_kept = refl;
  disk_kept = refl;
  frees = (let n = ap length h in omega (arith, n));
}

module _ (env : Env) (alone : (q : BufPool) → env.others q ≡ q) where
  read-Kept :
      (p q : BufPool) (i id n : ℕ) → Kept p n q → Kept p n (frame_read_from_disk env q i id).0
  unfolding frame_read_from_disk
  read-Kept p q i id n h =
      let P = λ (r : BufPool × Option Errno). Kept p n r.0 in
      let same : (r : BufPool)
          → r.map ≡ q.map
          → r.disk ≡ q.disk
          → r.free_frames ≡ q.free_frames
          → Kept p n r =
        λ r a b c. record {
          map_kept = a ∙ h.map_kept;
          disk_kept = b ∙ h.disk_kept;
          frees = ap (λ l. length l + n) c ∙ h.frees;
        } in
      if_elim P (not env.bdev) h (
        if_elim P (not env.pages_ok) h (
          option_elim P env.read_error
            (if_elim P (not env.kp_ok) (same _ refl refl refl) (same _ refl refl refl)) (λ e. h)))

  others-Kept : (p q : BufPool) (n : ℕ) → Kept p n q → Kept p n (env.others q)
  others-Kept p q n h = rw (alone q) h

  discard-Kept : (p q : BufPool) (i : ℕ) → Kept p 1 q → Kept p 0 (discard q i)
  discard-Kept p q i h = give_back-Kept p q i (record (q.frames i) { kp = none }) h

  failed-Kept :
      (p q : BufPool) (i id : ℕ) (e : Errno)
      → Kept p 1 q
      → KeptOnError p (load_registered q i id (some e))
  unfolding load_registered
  failed-Kept p q i id Errno.eexist h = elim (lookup-cases (discard q i) id) [
    | inl l ↦ rw (l) (λ e r. discard-Kept p q i h)
    | inr (j, m, l) ↦ rw (l) (λ e r. grind arith)
  ]
  failed-Kept p q i id e h = λ e r. discard-Kept p q i h

  registered-Kept :
      (p q : BufPool) (i id : ℕ)
      → Kept p 1 q
      → let (q', r) = register_frame env q i in KeptOnError p (load_registered q' i id r)
  unfolding load_registered
  registered-Kept p q i id h = elim (register-cases env q i) [
    | inl (m, r) ↦ rw (r) (λ e x. grind arith)
    | inr (e, r) ↦ rw (r) (failed-Kept p q i id e h)
  ]

  load_frame-Kept : (p q : BufPool) (i id : ℕ) → Kept p 1 q → KeptOnError p (load_frame env q i id)
  unfolding load_frame
  load_frame-Kept p q i id h =
      let held : Kept p 1 (claimed q i id) = record {
        map_kept = h.map_kept;
        disk_kept = h.disk_kept;
        frees = h.frees;
      } in
      let read = read-Kept p (claimed q i id) i id 1 held in
      let p3 = env.others (frame_read_from_disk env (claimed q i id) i id).0 in
      let other = others-Kept p (frame_read_from_disk env (claimed q i id) i id).0 1 read in
      option_elim (KeptOnError p) (frame_read_from_disk env (claimed q i id) i id).1
        (registered-Kept p p3 i id other) (λ e e' r. give_back-Kept p p3 i (p3.frames i) other)

  load-Kept : (p : BufPool) (id : ℕ) → KeptOnError p (buf_lookup_or_load env p id)
  unfolding buf_lookup_or_load
  load-Kept p id = elim (Option-cases (p.map id)) [
    | inr (i, m) ↦ rw (buf_lookup_or_load, m) (λ e q. grind arith)
    | inl m ↦ elim (take-cases p) [
      | inl (_, q) ↦
          rw (buf_lookup_or_load, m, q)
            (λ e r. record { map_kept = refl; disk_kept = refl; frees = omega arith })
      | inr (i, rest, h, q) ↦
          rw (buf_lookup_or_load, m, q)
            (load_frame-Kept p (taken p rest) i id (taken-Kept p i rest (p.frames i) h))
    ]
  ]

  -- A lookup that loads and is refused, for whatever reason and while no other thread changes the
  -- pool, leaves the table and the disk as they were, and as many frames free as before.
  pub refused_load-Kept :
      (p : BufPool) (id : ℕ) (e : Errno)
      → (buf_lookup_or_load env p id).1 ≡ err e
      → Kept p 0 (buf_lookup_or_load env p id).0
  refused_load-Kept p id e h = load-Kept p id e h
