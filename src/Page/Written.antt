-- ===== src/Page/Written.antt =====
-- What a list of frames leaves on the disk, `kds_write_pages` of kernel/kds/page.c.
use Prim.Native.Nat.{ℕ}
use kdbs.Common.{
  ◌≡◌, refl, ap, sym, subst, ◌∙◌, ◌≢◌, true, Option, none, some, List, [], ◌∷◌, map, ◌^◌, ◌<◌, ◌≤◌,
  ◌+◌, ◌-◌, ◌*◌, ◌&&◌, Bool-cases, ltb, leb, ◌⊎◌, inl, inr, arith, Errno,
}
use kdbs.Common.Bytes.{Bytes}
use kdbs.Page.{Frame, page_sector, page_size, sector_size}
use kdbs.Page.Write.{Disk, put_page, write_sector, present, write_each, write_present, write_pages}

abbrev pub Each : (Frame → Type 0) → List Frame → Type 0
Each P [] = Unit {0}
Each P (f ∷ fs) = P f × Each P fs

-- The page ids lie below 2 ^ 60, so that their sectors do not wrap, and differ.
abbrev pub AreApart : List Frame → Type 0
AreApart [] = Unit {0}
AreApart (f ∷ fs) =
    (f.page_id < 2 ^ 60)
    × Each (λ g. (g.page_id < 2 ^ 60) × (g.page_id ≢ f.page_id)) fs
    × AreApart fs

-- The address is on none of the page's sectors.
abbrev pub Outside : ℕ → Frame → Type 0
Outside a f =
    (a < sector_size * page_sector f.page_id)
    ⊎ (sector_size * page_sector f.page_id + page_size ≤ a)

-- The page's sectors have the bytes of the frame.
abbrev pub Holds : Disk → Frame → Type 0
Holds d f = (i : ℕ) → i < page_size → d (sector_size * page_sector f.page_id + i) ≡ f.bytes i

other_page-Outside :
    (f g : Frame) (i : ℕ)
    → f.page_id < 2 ^ 60
    → g.page_id < 2 ^ 60
    → g.page_id ≢ f.page_id
    → i < page_size
    → Outside (sector_size * page_sector f.page_id + i) g
unfolding page_sector
other_page-Outside f g i f_small g_small differs h = elim (Bool-cases (ltb f.page_id g.page_id)) [
  | inl e ↦
      let lt : f.page_id < g.page_id = ground (arith, e) in
      inl (omega (arith, f_small, g_small, lt, h))
  | inr e ↦
      let gt : g.page_id < f.page_id = ground (arith, e, differs) in
      inr (omega (arith, f_small, g_small, gt, h))
]

pages-Outside :
    (f : Frame) (fs : List Frame) (i : ℕ)
    → f.page_id < 2 ^ 60
    → i < page_size
    → Each (λ g. (g.page_id < 2 ^ 60) × (g.page_id ≢ f.page_id)) fs
    → Each (Outside (sector_size * page_sector f.page_id + i)) fs
pages-Outside f [] i small h others = tt
pages-Outside f (g ∷ fs) i small h ((g_small, differs), others) =
    (other_page-Outside f g i small g_small differs h, pages-Outside f fs i small h others)

put_here :
    (d : Disk) (s : ℕ) (p : Bytes) (i : ℕ)
    → i < page_size
    → put_page d s p (sector_size * s + i) ≡ p i
unfolding put_page
put_here d s p i h =
    let at : sector_size * s + i - sector_size * s ≡ i = omega arith in
    let test : (leb (sector_size * s) (sector_size * s + i)
          && ltb (sector_size * s + i) (sector_size * s + page_size))
        ≡ true =
      ground (arith, h) in
    rw (test, at) refl

put_elsewhere :
    (d : Disk) (f : Frame) (p : Bytes) (a : ℕ)
    → Outside a f
    → put_page d (page_sector f.page_id) p a ≡ d a
unfolding put_page
put_elsewhere d f p a (inl h) = ground (arith, h)
put_elsewhere d f p a (inr h) = ground (arith, h)

present_all : (fs : List Frame) → present (map some fs) ≡ some fs
unfolding present
present_all [] = refl
present_all (f ∷ fs) = rw (present_all fs) refl

-- All frames are on the disk, and its bytes outside their sectors are as before.
abbrev pub AllWritten : Disk → List Frame → Disk × Option Errno → Type 0
AllWritten d fs (d', ret) =
    (ret ≡ none) × Each (Holds d') fs × ((a : ℕ) → Each (Outside a) fs → d' a ≡ d a)

module _ (refuses : ℕ → Option (Errno × Bytes)) where
  taken_sector :
      (d : Disk) (s : ℕ) (p : Bytes)
      → refuses s ≡ none
      → write_sector true refuses d s p ≡ (put_page d s p, none)
  unfolding write_sector
  taken_sector d s p takes = rw (write_sector, takes) refl

  step :
      (d : Disk) (f : Frame) (fs : List Frame)
      → refuses (page_sector f.page_id) ≡ none
      → write_each true refuses d (f ∷ fs)
        ≡ write_each true refuses (put_page d (page_sector f.page_id) f.bytes) fs
  unfolding write_each
  step d f fs takes =
      ap
        (λ (r : Disk × Option Errno). elim r.1 [
          | none ↦ write_each true refuses r.0 fs
          | some e ↦ (r.0, some e)
        ])
        (taken_sector d (page_sector f.page_id) f.bytes takes)

  loop_writes :
      (d : Disk) (fs : List Frame)
      → AreApart fs
      → Each (λ f. refuses (page_sector f.page_id) ≡ none) fs
      → AllWritten d fs (write_each true refuses d fs)
  unfolding write_each
  loop_writes d [] apart taken = (refl, tt, λ s h. refl)
  loop_writes d (f ∷ fs) (small, differ, apart) (takes, taken) =
      let at : ℕ = page_sector f.page_id in
      let (done, there, kept) = loop_writes (put_page d at f.bytes) fs apart taken in
      subst (AllWritten d (f ∷ fs)) (sym (step d f fs takes)) (
        done,
        (
          λ i h.
              kept (sector_size * at + i) (pages-Outside f fs i small h differ)
              ∙ put_here d at f.bytes i h,
          there,
        ),
        λ a h. kept a h.1 ∙ put_elsewhere d f f.bytes a h.0,
      )

  -- With the device open, one frame at least, page ids that differ and lie below 2 ^ 60, and no
  -- page's sectors that the device refuses: writing the frames succeeds, the 16 sectors of each page
  -- then have the bytes of its frame, and every byte outside these sectors is as before.
  pub write_pages_writes :
      (d : Disk) (f : Frame) (fs : List Frame)
      → AreApart (f ∷ fs)
      → Each (λ g. refuses (page_sector g.page_id) ≡ none) (f ∷ fs)
      → AllWritten d (f ∷ fs) (write_pages true refuses d (map some (f ∷ fs)))
  unfolding write_pages write_present
  write_pages_writes d f fs apart taken =
      subst (λ (r : Option (List Frame)). AllWritten d (f ∷ fs) (write_present true refuses d r))
        (sym (present_all (f ∷ fs))) (loop_writes d (f ∷ fs) apart taken)
