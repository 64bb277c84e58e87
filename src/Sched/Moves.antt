-- ===== src/Sched/Moves.antt =====
-- Registering, unregistering and moving procs, in kernel/kds/proc.c, under the invariant.
use kdbs.Common.{
  ℕ, ◌%◌, ◌^◌, ◌≤◌, ◌<◌, ◌≡◌, refl, sym, subst, ◌∙◌, ◌⊎◌, inl, inr, zero, suc, false, arith, ◌==◌,
  Bool-cases, ==_iff,
}
use kdbs.Sched.{Kind, Proc, Sched, Kernel, put_proc, enqueue, dequeue}
use kdbs.Sched.Queues.{queued, queue_length, at_home, IsQueued, IsSched, KeepsOrder}
use kdbs.Sched.Links.{Nowhere}
use kdbs.Sched.Shifts.{Shifts, enqueue-Shifts, dequeue-Shifts, enqueued_self, dequeued_self}

-- Every other proc stands where it stood.
abbrev pub OthersStay : Sched → Sched → ℕ → Type 0
OthersStay s t p = (q : ℕ) → (p == q) ≡ false → at_home t q ≡ at_home s q

zero_or_pos : (n : ℕ) → (n ≡ 0) ⊎ (0 < n)
zero_or_pos zero = inl refl
zero_or_pos (suc n) = inr (omega arith)

-- A queue that changed for one proc.
module _ (s t : Sched) (p c : ℕ) (v : IsSched s) (h : Shifts s t p c) where
  abbrev kind : Kind
  kind = (s.procs p).kind

  shifted :
      (t.rqs c).nr_running ≡ queue_length (t.rqs c) % 2 ^ 32
      → queued (t.rqs c) p kind ≤ 1
      → ((d : ℕ) → (d == c) ≡ false → queued (s.rqs d) p kind ≡ 0)
      → (0 < queued (t.rqs c) p kind → (s.procs p).cpu ≡ c)
      → IsQueued s.procs t.rqs
  shifted counts few none_else home = record {
    counted = λ d. elim (Bool-cases (d == c)) [
      | inl e ↦ rw ((==_iff d c).0 e) counts
      | inr e ↦ rw (h.elsewhere d e) (v.counted d)
    ];
    once = λ q d. elim (Bool-cases (p == q)) [
      | inr a ↦ rw (h.apart_queued q d a) (v.once q d)
      | inl a ↦ rw (sym ((==_iff p q).0 a)) (elim (Bool-cases (d == c)) [
        | inl e ↦ rw ((==_iff d c).0 e) few
        | inr e ↦ rw (h.elsewhere d e) (v.once p d)
      ])
    ];
    sorted = λ q d. elim (Bool-cases (p == q)) [
      | inr a ↦ h.apart_astray q d a ∙ v.sorted q d
      | inl a ↦ rw (sym ((==_iff p q).0 a)) (h.own_astray d ∙ v.sorted p d)
    ];
    placed = λ q d i. elim (Bool-cases (p == q)) [
      | inr a ↦ v.placed q d (subst (λ n. 0 < n) (h.apart_queued q d a) i)
      | inl a ↦
          let same = (==_iff p q).0 a in
          let i' : 0 < queued (t.rqs d) p kind = rw (same) i in
          rw (sym same) (elim (Bool-cases (d == c)) [
            | inl e ↦ let d_is = (==_iff d c).0 e in rw (d_is) (home (rw d_is at i'))
            | inr e ↦ v.placed p d (rw (h.elsewhere d e) at i')
          ])
    ];
  }

module _ (k : Kernel) (o : KeepsOrder k) (s : Sched) (v : IsSched s) (p : ℕ) where
  -- The queues after a proc has left.
  module _ (home : at_home s p ≡ 1) where
    abbrev pub left : Sched
    left = dequeue k s (s.procs p).cpu p

    pub stands : 0 < at_home s p
    stands = omega (arith, home)

    leaves : queued (left.rqs (s.procs p).cpu) p (s.procs p).kind ≡ 0
    leaves = omega (arith, (dequeued_self k o s p (s.procs p).cpu stands).0, home)

    elsewhere_none :
        (d : ℕ) → (d == (s.procs p).cpu) ≡ false → queued (s.rqs d) p (s.procs p).kind ≡ 0
    elsewhere_none d e = elim (zero_or_pos (queued (s.rqs d) p (s.procs p).kind)) [
      | inl z ↦ z
      | inr i ↦ ground (arith, v.placed p d i, e)
    ]

    pub left-IsSched : IsSched left
    unfolding dequeue
    left-IsSched =
        let c = (s.procs p).cpu in
        let d = dequeued_self k o s p c stands in
        shifted s left p c v (dequeue-Shifts k o s p c stands)
          (let was = v.counted c in d.2 ∙ omega (arith, d.1, was)) (omega (arith, leaves))
          elsewhere_none (λ i. refl)

    pub left-Nowhere : Nowhere left p
    unfolding dequeue
    left-Nowhere d = elim (Bool-cases (d == (s.procs p).cpu)) [
      | inl e ↦ rw ((==_iff d (s.procs p).cpu).0 e) leaves
      | inr e ↦
          rw ((dequeue-Shifts k o s p (s.procs p).cpu stands).elsewhere d e) (elsewhere_none d e)
    ]

  -- A proc that stands on no queue, put on the queue of its CPU.
  module _ (new : Nowhere s p) (c : ℕ) (here : (s.procs p).cpu ≡ c) where
    pub entered-IsSched : IsSched (enqueue k s c p)
    unfolding enqueue
    entered-IsSched =
        let e = enqueued_self k o s p c in
        shifted s (enqueue k s c p) p c v (enqueue-Shifts k o s p c)
          (let was = v.counted c in e.2 ∙ omega (arith, e.1, was)) (omega (arith, e.0, new c))
          (λ d _. new d) (λ _. here)

    pub entered_here : at_home (enqueue k s c p) p ≡ 1
    unfolding enqueue
    entered_here = rw here (omega (arith, (enqueued_self k o s p c).0, new c))

  pub entered_others : (c : ℕ) → OthersStay s (enqueue k s c p) p
  unfolding enqueue
  entered_others c q h = (enqueue-Shifts k o s p c).apart_queued q (s.procs q).cpu h

  pub left_others : 0 < at_home s p → OthersStay s (dequeue k s (s.procs p).cpu p) p
  unfolding dequeue
  left_others i q h = (dequeue-Shifts k o s p (s.procs p).cpu i).apart_queued q (s.procs q).cpu h

  -- The fields of a proc that stands on no queue may change, but for its kind.
  pub changed-IsSched :
      Nowhere s p → (w : Proc) → w.kind ≡ (s.procs p).kind → IsSched (put_proc s p w)
  changed-IsSched new w same = record {
    counted = v.counted;
    once = λ q d. elim (Bool-cases (q == p)) [
      | inr e ↦ rw e (v.once q d)
      | inl e ↦ rw (e, (==_iff q p).0 e, same) (v.once p d)
    ];
    sorted = λ q d. elim (Bool-cases (q == p)) [
      | inr e ↦ rw e (v.sorted q d)
      | inl e ↦ rw (e, (==_iff q p).0 e, same) (v.sorted p d)
    ];
    placed = λ q d. elim (Bool-cases (q == p)) [
      | inr e ↦ rw e (v.placed q d)
      | inl e ↦ rw (e, (==_iff q p).0 e, same) (λ i. absurd (omega (arith, i, new d)))
    ];
  }

  pub changed_others : (w : Proc) → OthersStay s (put_proc s p w) p
  changed_others w q h = let e : (q == p) ≡ false = ground (arith, h) in rw e

  -- A proc keeps its place where its kind and its CPU stay.
  pub settled-IsSched :
      (w : Proc) → w.kind ≡ (s.procs p).kind → w.cpu ≡ (s.procs p).cpu → IsSched (put_proc s p w)
  settled-IsSched w same here = record {
    counted = v.counted;
    once = λ q d. elim (Bool-cases (q == p)) [
      | inr e ↦ rw e (v.once q d)
      | inl e ↦ rw (e, (==_iff q p).0 e, same) (v.once p d)
    ];
    sorted = λ q d. elim (Bool-cases (q == p)) [
      | inr e ↦ rw e (v.sorted q d)
      | inl e ↦ rw (e, (==_iff q p).0 e, same) (v.sorted p d)
    ];
    placed = λ q d. elim (Bool-cases (q == p)) [
      | inr e ↦ rw e (v.placed q d)
      | inl e ↦ rw (e, (==_iff q p).0 e, same, here) (v.placed p d)
    ];
  }

  pub settled_home :
      (w : Proc)
      → w.kind ≡ (s.procs p).kind
      → w.cpu ≡ (s.procs p).cpu
      → (q : ℕ) → at_home (put_proc s p w) q ≡ at_home s q
  settled_home w same here q = elim (Bool-cases (q == p)) [
    | inr e ↦ rw e
    | inl e ↦ rw (e, (==_iff q p).0 e, same, here)
  ]

pub enqueue_procs : (k : Kernel) (s : Sched) (c p : ℕ) → (enqueue k s c p).procs ≡ s.procs
unfolding enqueue
enqueue_procs k s c p = refl
