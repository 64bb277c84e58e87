-- ===== src/Sched/Service.antt =====
-- Registering and unregistering procs and setting their affinity, in kernel/kds/proc.c.
use kdbs.Common.{
  ℕ, ◌+◌, ◌%◌, ◌^◌, ◌≡◌, refl, sym, ap, ◌∙◌, inl, inr, true, false, arith, ◌==◌, Bool, Bool-cases,
  ==_iff, Result, ok, err, einval, none, some, Option, not, if◌then◌else◌, List, [], ◌∷◌,
  if◌then◌else◌,
}
use mathlib.Core.Option.{get_or}
use kdbs.Sched.{
  Proc, Runqueue, Sched, Kernel, put_proc, enqueue, dequeue, proc_unregister, proc_register,
  set_affinity, registered, select_cpu, cpus_of, is_empty, fold, less_loaded, first_or, count_up,
  select, uint_max,
}
use kdbs.Sched.Queues.{at_home, IsSched, KeepsOrder}
use kdbs.Sched.Links.{Nowhere}
use kdbs.Sched.Moves.{
  OthersStay, left-IsSched, left-Nowhere, left_others, settled-IsSched, settled_home, enqueue_procs,
}
use kdbs.Sched.Places.{entering, moving}

registered_kind : (k : Kernel) (s : Sched) (p : Proc) → (registered k s p).kind ≡ p.kind
registered_kind k s p = ground arith

registered_pid : (k : Kernel) (s : Sched) (p : Proc) → (registered k s p).pid ≡ s.next_pid
registered_pid k s p = ground arith

module _ (k : Kernel) (s : Sched) (p : ℕ) where
  put_self : (w : Proc) → (enqueue k (put_proc s p w) w.cpu p).procs p ≡ w
  put_self w =
      let e = (==_iff p p).1 refl in
      ap (λ (f : ℕ → Proc). f p) (enqueue_procs k (put_proc s p w) w.cpu p) ∙ rw e

abbrev Allowed : (ℕ → Bool) → ℕ × Option ℕ → Type 0
Allowed mask acc = (c : ℕ) → acc.1 ≡ some c → mask c ≡ true

fold-Allowed :
    (mask : ℕ → Bool) (rqs : ℕ → Runqueue) (cs : List ℕ) (acc : ℕ × Option ℕ)
    → Allowed mask acc
    → Allowed mask (fold (less_loaded rqs) acc (select mask cs))
fold-Allowed mask rqs [] acc a = a
fold-Allowed mask rqs (c ∷ cs) acc a = elim (Bool-cases (mask c)) [
  | inr e ↦ rw e (fold-Allowed mask rqs cs acc a)
  | inl e ↦
      rw e (fold-Allowed mask rqs cs (less_loaded rqs acc c) (λ d h. ground (arith, a d, e, h)))
]

get_or-Allowed :
    (mask : ℕ → Bool) (best : Option ℕ) (c : ℕ)
    → ((d : ℕ) → best ≡ some d → mask d ≡ true)
    → mask c ≡ true
    → mask (get_or best c) ≡ true
get_or-Allowed mask none c a h = h
get_or-Allowed mask (some d) c a h = a d refl

first-Allowed :
    (mask : ℕ → Bool) (n : ℕ) (cs : List ℕ)
    → is_empty (select mask cs) ≡ false
    → mask (first_or n (select mask cs)) ≡ true
first-Allowed mask n [] h = cc
first-Allowed mask n (c ∷ cs) h = elim (Bool-cases (mask c)) [
  | inl e ↦ rw e e
  | inr e ↦ rw e (first-Allowed mask n cs (rw e at h))
]

module _ (k : Kernel) (o : KeepsOrder k) (s : Sched) (v : IsSched s) (p : ℕ) where
  abbrev reset : Proc
  reset =
      let r = registered k s (s.procs p) in
      let c = select_cpu k s r in record r { cpu = c; preferred_cpu = c }

  abbrev counted : Sched
  counted = record s { next_pid = (s.next_pid + 1) % 2 ^ 64 }

  register_is :
      (s.procs p).has_run ≡ true
      → proc_register k s p ≡ (enqueue k (put_proc counted p reset) reset.cpu p, ok tt)
  unfolding proc_register
  register_is runs =
      ap
        (λ (b : Bool).
          let r : Sched × Result (Unit {0}) =
            (enqueue k (put_proc counted p reset) reset.cpu p, ok tt) in
          if not b then (s, err einval) else r)
        runs

  -- Registering a proc that has a run function and stands on no queue succeeds, gives it the next
  -- pid and one place, on the queue of its CPU, keeps the invariant, and leaves the other procs in
  -- their places.
  pub register_places :
      (s.procs p).has_run ≡ true
      → Nowhere s p
      → let (t, r) = proc_register k s p in
        (r ≡ ok tt)
        × IsSched t
        × (at_home t p ≡ 1)
        × OthersStay s t p
        × ((t.procs p).pid ≡ s.next_pid)
  register_places runs new =
      let (a, b, others) = entering k o counted v p reset (registered_kind k s (s.procs p)) new in
      let pid =
        ap (λ (x : Proc). x.pid) (put_self k counted p reset) ∙ registered_pid k s (s.procs p) in
      rw (register_is runs) (refl, a, b, others, pid)

  -- Unregistering a proc that has a place takes it off every queue, keeps the invariant and leaves
  -- the other procs in their places.
  unregister_frees :
      at_home s p ≡ 1 → let t = proc_unregister k s p in IsSched t × Nowhere t p × OthersStay s t p
  unfolding proc_unregister
  unregister_frees home = (
    left-IsSched k o s v p home,
    left-Nowhere k o s v p home,
    left_others k o s v p (omega (arith, home)),
  )

  module _ (mask : ℕ → Bool) where
    select_cpu_allowed :
        (t : Sched) (w : Proc)
        → w.allowed_cpus ≡ mask
        → is_empty (cpus_of k mask) ≡ false
        → mask (select_cpu k t w) ≡ true
    unfolding select_cpu
    select_cpu_allowed t w e some_cpu =
        let cs = count_up k.nr_cpus 0 in
        let best = (fold (less_loaded t.rqs) (uint_max, none) (select mask cs)).1 in
        let other : mask (get_or best (first_or k.nr_cpus (select mask cs))) ≡ true =
          get_or-Allowed mask best _ (fold-Allowed mask t.rqs cs (uint_max, none) (λ c h. cc))
            (first-Allowed mask k.nr_cpus cs some_cpu) in
        rw e (ground (arith, other))

    abbrev allowed : Proc
    allowed = record (s.procs p) { allowed_cpus = mask }

    abbrev migrated : Proc
    migrated = record allowed { cpu = select_cpu k (dequeue k s (s.procs p).cpu p) allowed }

    others_too :
        at_home s p ≡ 1
        → (q : ℕ)
        → at_home (enqueue k (put_proc (dequeue k s (s.procs p).cpu p) p migrated) migrated.cpu p) q
          ≡ at_home s q
    others_too home q =
        let (a, b, others) = moving k o s v p migrated refl home in
        elim (Bool-cases (p == q)) [
          | inr e ↦ others q e
          | inl e ↦ rw (sym ((==_iff p q).0 e)) (b ∙ sym home)
        ]

    -- Setting the affinity of a proc that has a place to a mask that is not empty succeeds, puts the
    -- proc on a CPU of the mask, keeps the invariant, and leaves each proc one place as before.
    pub affinity_moves :
        at_home s p ≡ 1
        → is_empty (cpus_of k mask) ≡ false
        → let (t, r) = set_affinity k s p mask in
          (r ≡ ok tt)
          × IsSched t
          × ((q : ℕ) → at_home t q ≡ at_home s q)
          × (mask (t.procs p).cpu ≡ true)
    unfolding set_affinity
    affinity_moves home some_cpu =
        let own = (==_iff p p).1 refl in
        elim (Bool-cases (mask (s.procs p).cpu)) [
          | inl e ↦
              rw (some_cpu, e, own)
                (
                  refl,
                  settled-IsSched k o s v p allowed refl refl,
                  settled_home k o s v p allowed refl refl,
                  e,
                )
          | inr e ↦
              rw (some_cpu, e)
                (
                  refl,
                  (moving k o s v p migrated refl home).0,
                  others_too home,
                  ap (λ (x : Proc). mask x.cpu)
                        (put_self k (dequeue k s (s.procs p).cpu p) p migrated)
                      ∙ select_cpu_allowed (dequeue k s (s.procs p).cpu p) allowed refl some_cpu,
                )
        ]
