-- ===== src/Sched/Links.antt =====
-- Putting a proc on a queue and taking it off, in kernel/kds/proc.c, under the invariant.
use kdbs.Common.{ℕ, ◌+◌, ◌<◌, ◌≡◌, false, ◌∷◌, [], length-append, arith, ◌==◌}
use kdbs.Sched.{Kind, system, session, Proc, Runqueue, Sched, Kernel, rb_link, link, unlink}
use kdbs.Sched.Queues.{
  queued, astray, queue_length, KeepsOrder, count-append, count-remove, length-remove, in_order,
  count-rb_link, length-rb_link,
}

abbrev pub Nowhere : Sched → ℕ → Type 0
Nowhere s p = (c : ℕ) → queued (s.rqs c) p (s.procs p).kind ≡ 0

module _ (k : Kernel) (o : KeepsOrder k) where
  module _ (procs : ℕ → Proc) (rq : Runqueue) (p : ℕ) where
    pub link_self :
        (kind : Kind)
        → (queued (link k procs rq p kind) p kind ≡ queued rq p kind + 1)
          × (astray (link k procs rq p kind) p kind ≡ astray rq p kind)
          × (queue_length (link k procs rq p kind) ≡ queue_length rq + 1)
    link_self system =
        ground
          (arith, count-append p rq.system_procs (p ∷ []), length-append rq.system_procs (p ∷ []))
    link_self session =
        let t = rb_link procs rq.session_procs p in
        rw (o.balanced t) (
          ground (
            arith,
            count-rb_link procs rq.session_procs p p,
            length-rb_link procs rq.session_procs p,
          ))

    pub link_other :
        (kind other : Kind) (q : ℕ)
        → (p == q) ≡ false
        → (queued (link k procs rq p kind) q other ≡ queued rq q other)
          × (astray (link k procs rq p kind) q other ≡ astray rq q other)
    link_other system system q h = ground (arith, count-append q rq.system_procs (p ∷ []))
    link_other system session q h = ground (arith, count-append q rq.system_procs (p ∷ []))
    link_other session system q h =
        rw (o.balanced (rb_link procs rq.session_procs p))
          (ground (arith, count-rb_link procs rq.session_procs p q))
    link_other session session q h =
        rw (o.balanced (rb_link procs rq.session_procs p))
          (ground (arith, count-rb_link procs rq.session_procs p q))

  module _ (rq : Runqueue) (p : ℕ) where
    pub unlink_self :
        (kind : Kind)
        → 0 < queued rq p kind
        → (queued (unlink k rq p kind) p kind + 1 ≡ queued rq p kind)
          × (astray (unlink k rq p kind) p kind ≡ astray rq p kind)
          × (queue_length (unlink k rq p kind) + 1 ≡ queue_length rq)
    unlink_self system h =
        ground (arith, count-remove p p rq.system_procs, length-remove p rq.system_procs)
    unlink_self session h =
        let t = in_order rq.session_procs in
        rw (o.erased p rq.session_procs h) (ground (arith, count-remove p p t, length-remove p t))

    pub unlink_other :
        (kind other : Kind) (q : ℕ)
        → 0 < queued rq p kind
        → (p == q) ≡ false
        → (queued (unlink k rq p kind) q other ≡ queued rq q other)
          × (astray (unlink k rq p kind) q other ≡ astray rq q other)
    unlink_other system system q i h = ground (arith, count-remove p q rq.system_procs)
    unlink_other system session q i h = ground (arith, count-remove p q rq.system_procs)
    unlink_other session system q i h =
        rw (o.erased p rq.session_procs i)
          (ground (arith, count-remove p q (in_order rq.session_procs)))
    unlink_other session session q i h =
        rw (o.erased p rq.session_procs i)
          (ground (arith, count-remove p q (in_order rq.session_procs)))
