-- ===== src/Sched/Shifts.antt =====
-- What a proc that is put on a queue or taken off changes, in kernel/kds/proc.c.
use kdbs.Common.{ℕ, ◌+◌, ◌<◌, ◌≡◌, refl, inl, inr, false, ◌==◌, Bool-cases, ==_iff}
use kdbs.Sched.{Kind, Sched, Kernel, enqueue, dequeue, inc_u32, dec_u32}
use kdbs.Sched.Queues.{queued, astray, queue_length, KeepsOrder}
use kdbs.Sched.Links.{link_self, link_other, unlink_self, unlink_other}

-- The queues of all CPUs, as the invariant sees them, but for one proc.
pub record Shifts (s t : Sched) (p c : ℕ) : Type 0 where
  pub apart_queued :
      (q d : ℕ)
      → (p == q) ≡ false
      → queued (t.rqs d) q (s.procs q).kind ≡ queued (s.rqs d) q (s.procs q).kind
  pub apart_astray :
      (q d : ℕ)
      → (p == q) ≡ false
      → astray (t.rqs d) q (s.procs q).kind ≡ astray (s.rqs d) q (s.procs q).kind
  pub own_astray :
      (d : ℕ) → astray (t.rqs d) p (s.procs p).kind ≡ astray (s.rqs d) p (s.procs p).kind
  pub elsewhere : (d : ℕ) → (d == c) ≡ false → t.rqs d ≡ s.rqs d

module _ (k : Kernel) (o : KeepsOrder k) (s : Sched) (p c : ℕ) where
  abbrev kind : Kind
  kind = (s.procs p).kind

  pub enqueue-Shifts : Shifts s (enqueue k s c p) p c
  unfolding enqueue
  enqueue-Shifts = record {
    apart_queued = λ q d h. elim (Bool-cases (d == c)) [
      | inr e ↦ rw e
      | inl e ↦
          rw (e, (==_iff d c).0 e) (link_other k o s.procs (s.rqs c) p kind (s.procs q).kind q h).0
    ];
    apart_astray = λ q d h. elim (Bool-cases (d == c)) [
      | inr e ↦ rw e
      | inl e ↦
          rw (e, (==_iff d c).0 e) (link_other k o s.procs (s.rqs c) p kind (s.procs q).kind q h).1
    ];
    own_astray = λ d. elim (Bool-cases (d == c)) [
      | inr e ↦ rw e
      | inl e ↦ rw (e, (==_iff d c).0 e) (link_self k o s.procs (s.rqs c) p kind).1
    ];
    elsewhere = λ d e. rw e;
  }

  pub dequeue-Shifts : 0 < queued (s.rqs c) p kind → Shifts s (dequeue k s c p) p c
  unfolding dequeue
  dequeue-Shifts i = record {
    apart_queued = λ q d h. elim (Bool-cases (d == c)) [
      | inr e ↦ rw e
      | inl e ↦
          rw (e, (==_iff d c).0 e) (unlink_other k o (s.rqs c) p kind (s.procs q).kind q i h).0
    ];
    apart_astray = λ q d h. elim (Bool-cases (d == c)) [
      | inr e ↦ rw e
      | inl e ↦
          rw (e, (==_iff d c).0 e) (unlink_other k o (s.rqs c) p kind (s.procs q).kind q i h).1
    ];
    own_astray = λ d. elim (Bool-cases (d == c)) [
      | inr e ↦ rw e
      | inl e ↦ rw (e, (==_iff d c).0 e) (unlink_self k o (s.rqs c) p kind i).1
    ];
    elsewhere = λ d e. rw e;
  }

  pub enqueued_self :
      let t = enqueue k s c p in
      (queued (t.rqs c) p kind ≡ queued (s.rqs c) p kind + 1)
      × (queue_length (t.rqs c) ≡ queue_length (s.rqs c) + 1)
      × ((t.rqs c).nr_running ≡ inc_u32 (s.rqs c).nr_running)
  unfolding enqueue
  enqueued_self =
      let e = (==_iff c c).1 refl in
      let l = link_self k o s.procs (s.rqs c) p kind in rw e (l.0, l.2, refl)

  pub dequeued_self :
      0 < queued (s.rqs c) p kind
      → let t = dequeue k s c p in
        (queued (t.rqs c) p kind + 1 ≡ queued (s.rqs c) p kind)
        × (queue_length (t.rqs c) + 1 ≡ queue_length (s.rqs c))
        × ((t.rqs c).nr_running ≡ dec_u32 (s.rqs c).nr_running)
  unfolding dequeue
  dequeued_self i =
      let e = (==_iff c c).1 refl in
      let l = unlink_self k o (s.rqs c) p kind i in rw e (l.0, l.2, refl)
