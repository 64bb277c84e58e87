-- ===== src/Sched/Places.antt =====
-- Each operation of kernel/kds/proc.c on the queues keeps the invariant, and every proc that it is
-- not about its place.
use kdbs.Common.{ℕ, ◌≡◌, refl, ap, ◌∙◌, arith, ==_iff}
use kdbs.Sched.{Proc, Sched, Kernel, put_proc, enqueue, dequeue}
use kdbs.Sched.Queues.{at_home, IsSched, KeepsOrder}
use kdbs.Sched.Links.{Nowhere}
use kdbs.Sched.Moves.{
  OthersStay, left-IsSched, left-Nowhere, left_others, entered-IsSched, entered_here,
  entered_others, changed-IsSched, changed_others,
}

module _ (k : Kernel) (o : KeepsOrder k) (s : Sched) (v : IsSched s) (p : ℕ) where
  -- A proc without a place is changed and put on a queue.
  module _ (w : Proc) (same : w.kind ≡ (s.procs p).kind) (new : Nowhere s p) where
    abbrev entered : Sched
    entered = enqueue k (put_proc s p w) w.cpu p

    own : (put_proc s p w).procs p ≡ w
    own = let e = (==_iff p p).1 refl in rw e

    new' : Nowhere (put_proc s p w) p
    new' d = rw (own, same) (new d)

    pub entering : IsSched entered × (at_home entered p ≡ 1) × OthersStay s entered p
    entering =
        let u = put_proc s p w in
        let v' = changed-IsSched k o s v p new w same in
        let here = ap (λ (x : Proc). x.cpu) own in
        (
          entered-IsSched k o u v' p new' w.cpu here,
          entered_here k o u v' p new' w.cpu here,
          λ q h. entered_others k o u v' p w.cpu q h ∙ changed_others k o s v p w q h,
        )

module _ (k : Kernel) (o : KeepsOrder k) (s : Sched) (v : IsSched s) (p : ℕ) where
  -- A proc is taken off its queue, changed and put on another.
  module _ (w : Proc) (same : w.kind ≡ (s.procs p).kind) (home : at_home s p ≡ 1) where
    abbrev moved : Sched
    moved = enqueue k (put_proc (dequeue k s (s.procs p).cpu p) p w) w.cpu p

    pub moving : IsSched moved × (at_home moved p ≡ 1) × OthersStay s moved p
    unfolding dequeue
    moving =
        let u = dequeue k s (s.procs p).cpu p in
        let (a, b, c) =
          entering k o u (left-IsSched k o s v p home) p w same (left-Nowhere k o s v p home) in
        (a, b, λ q h. c q h ∙ left_others k o s v p (omega (arith, home)) q h)
