-- ===== src/Sched/Pick.antt =====
-- The scan for the next proc in kernel/kds/proc.c chooses a proc of the greatest priority.
use kdbs.Common.{
  ℕ, ◌+◌, ◌%◌, ◌^◌, ◌≤◌, ◌<◌, ◌≡◌, refl, ◌⊎◌, inl, inr, false, Bool-cases, List, [], ◌∷◌, Option,
  none, some, not, ◌&&◌, arith, ◌==◌, ==_iff, sym, ◌∙◌,
}
use kdbs.Sched.{Proc, fold, better, pick, int_lt, int_min}
use kdbs.Sched.Queues.{count}

-- An int as its distance from INT_MIN.
abbrev pub rank : ℕ → ℕ
rank x = (x + 2 ^ 31) % 2 ^ 32

module _ (procs : ℕ → Proc) where
  abbrev pub prio_of : ℕ → ℕ
  prio_of p = (procs p).dynamic_prio

  -- The result of a scan that starts from a priority and a proc.
  record IsBest (ps : List ℕ) (m : ℕ) (b : Option ℕ) (m' : ℕ) (b' : Option ℕ) : Type 0 where
    rises : rank m ≤ rank m'
    greatest : (r : ℕ) → 0 < count r ps → (procs r).running ≡ false → rank (prio_of r) ≤ rank m'
    origin :
        ((b' ≡ b) × (m' ≡ m))
        ⊎ ((p : ℕ) × (b' ≡ some p)
            × (0 < count p ps)
            × ((procs p).running ≡ false)
            × (prio_of p ≡ m'))

  stands_first : (p : ℕ) (ps : List ℕ) → 0 < count p (p ∷ ps)
  stands_first p ps = let e = (==_iff p p).1 refl in rw e (omega arith)

  stands_later : (q p : ℕ) (ps : List ℕ) → 0 < count q ps → 0 < count q (p ∷ ps)
  stands_later q p ps i = omega (arith, i)

  abbrev Bounds : List ℕ → ℕ → Type 0
  Bounds ps m' = (r : ℕ) → 0 < count r ps → (procs r).running ≡ false → rank (prio_of r) ≤ rank m'

  greatest_after :
      (p : ℕ) (ps : List ℕ) (m' : ℕ)
      → ((procs p).running ≡ false → rank (prio_of p) ≤ rank m')
      → Bounds ps m'
      → Bounds (p ∷ ps) m'
  greatest_after p ps m' first rest r i idle = elim (Bool-cases (p == r)) [
    | inl e ↦ let r_is = sym ((==_iff p r).0 e) in rw (r_is) (first (rw r_is at idle))
    | inr e ↦ rest r (ground (arith, i, e)) idle
  ]

  greatest_of :
      (p : ℕ) (ps : List ℕ) (m' : ℕ)
      → rank (prio_of p) ≤ rank m'
      → Bounds ps m'
      → Bounds (p ∷ ps) m'
  greatest_of p ps m' first = greatest_after p ps m' (λ _. first)

  step-IsBest :
      (p : ℕ) (ps : List ℕ) (m : ℕ) (b : Option ℕ) (m' : ℕ) (b' : Option ℕ)
      → (let (m1, b1) = better procs (m, b) p in IsBest ps m1 b1 m' b')
      → IsBest (p ∷ ps) m b m' b'
  step-IsBest p ps m b m' b' h = elim (Bool-cases (not (procs p).running && int_lt m (prio_of p))) [
    | inl e ↦
        let g : IsBest ps (prio_of p) (some p) m' b' = rw e at h in
        let idle : (procs p).running ≡ false = ground (arith, e) in
        let more : rank m < rank (prio_of p) = ground (arith, e) in
        let up = g.rises in
        record {
          rises = omega (arith, up, more);
          greatest = greatest_of p ps m' up (g.greatest);
          origin = elim g.origin [
            | inl (x, y) ↦ inr (p, x, stands_first p ps, idle, sym y)
            | inr (q, x, i, r, y) ↦ inr (q, x, stands_later q p ps i, r, y)
          ];
        }
    | inr e ↦
        let g : IsBest ps m b m' b' = rw e at h in
        let up = g.rises in
        let first : (procs p).running ≡ false → rank (prio_of p) ≤ rank m' =
          λ idle. ground (arith, e, idle, up) in
        record {
          rises = up;
          greatest = greatest_after p ps m' first (g.greatest);
          origin = elim g.origin [
            | inl same ↦ inl same
            | inr (q, x, i, r, y) ↦ inr (q, x, stands_later q p ps i, r, y)
          ];
        }
  ]

  fold-IsBest :
      (ps : List ℕ) (m : ℕ) (b : Option ℕ)
      → let (m', b') = fold (better procs) (m, b) ps in IsBest ps m b m' b'
  fold-IsBest [] m b = record {
    rises = omega arith;
    greatest = λ r i. absurd (omega (arith, i));
    origin = inl (refl, refl);
  }
  fold-IsBest (p ∷ ps) m b =
      let (m1, b1) = better procs (m, b) p in step-IsBest p ps m b _ _ (fold-IsBest ps m1 b1)

  -- The scan gives an idle proc of the list, of a priority that no other idle one surpasses.
  pub pick_best :
      (ps : List ℕ) (p : ℕ)
      → pick procs ps ≡ some p
      → (0 < count p ps)
        × ((procs p).running ≡ false)
        × ((r : ℕ)
            → 0 < count r ps
            → (procs r).running ≡ false
            → rank (prio_of r) ≤ rank (prio_of p))
  unfolding pick
  pick_best ps p h =
      let best = fold-IsBest ps int_min none in
      elim best.origin [
        | inl (x, _) ↦ cc (sym x ∙ h)
        | inr (q, x, i, idle, y) ↦
            let q_is : q ≡ p = cc (sym x ∙ h) in
            (rw q_is at i, rw q_is at idle, λ r j d. ground (arith, best.greatest r j d, y, q_is))
      ]

  -- It finds one where one is idle and has not the least int.
  pub pick-some :
      (ps : List ℕ) (q : ℕ)
      → 0 < count q ps
      → (procs q).running ≡ false
      → 0 < rank (prio_of q)
      → (p : ℕ) × (pick procs ps ≡ some p)
  unfolding pick
  pick-some ps q i idle more =
      let best = fold-IsBest ps int_min none in
      elim best.origin [
        | inl (_, y) ↦ absurd (ground (arith, best.greatest q i idle, y, more))
        | inr (p, x, _, _, _) ↦ (p, x)
      ]
