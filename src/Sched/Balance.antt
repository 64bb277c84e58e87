-- ===== src/Sched/Balance.antt =====
-- The load balance of kernel/kds/proc.c: what a move keeps, and the search that finds no proc.
use kdbs.Common.{
  zero, suc, ◌⊎◌, ◌≢◌, map, ◌++◌, if◌then◌else◌, ℕ, ◌+◌, ◌-◌, ◌%◌, ◌^◌, ◌<◌, ◌≡◌, ◌↔◌, refl, ap,
  sym, subst, ◌∙◌, inl, inr, true, false, arith, ◌==◌, Bool-cases, ==_iff, none, some, Option,
  Option-cases, not, leb, List, [], ◌∷◌, ◌&&◌,
}
use mathlib.Core.Path.{ap₂}
use kdbs.Sched.{
  RingEntry, a_proc, head_of, Joined, joins, join_heads, Kind, system, session, Proc, Runqueue,
  Sched, Kernel, put_proc, put_rq, enqueue, dequeue, link, unlink, inc_u32, dec_u32, find_movable,
  move, balanced, balance_between, load_balance, fold, more_loaded, less_loaded, cpus_of, uint_max,
  threshold,
}
use kdbs.Sched.Queues.{
  balanced-injective, count, queued, astray, at_home, IsQueued, IsSched, KeepsOrder,
}
use kdbs.Sched.Places.{moving}

-- No proc of a list can move to CPU `c`.
abbrev pub IsStuck : (ℕ → Proc) → ℕ → List ℕ → Type 0
IsStuck procs c [] = Unit {0}
IsStuck procs c (p ∷ ps) =
    ((not (procs p).running && (procs p).allowed_cpus c) ≡ false) × IsStuck procs c ps

find_movable-found :
    (procs : ℕ → Proc) (c p : ℕ) (ps : List ℕ)
    → find_movable procs c ps ≡ some p
    → (0 < count p ps) × ((not (procs p).running && (procs p).allowed_cpus c) ≡ true)
unfolding find_movable
find_movable-found procs c p [] h = cc
find_movable-found procs c p (q ∷ qs) h =
    elim (Bool-cases (not (procs q).running && (procs q).allowed_cpus c)) [
      | inl e ↦
          let q_is : q ≡ p = ground (arith, h, e) in
          let same = (==_iff q p).1 q_is in (rw same (omega arith), rw q_is at e)
      | inr e ↦ let (a, b) = find_movable-found procs c p qs (rw e at h) in (ground (arith, a), b)
    ]

find_movable-none :
    (procs : ℕ → Proc) (c : ℕ) (ps : List ℕ) → (find_movable procs c ps ≡ none) ↔ IsStuck procs c ps
unfolding find_movable
find_movable-none procs c [] = (λ _. tt, λ _. refl)
find_movable-none procs c (q ∷ qs) =
    elim (Bool-cases (not (procs q).running && (procs q).allowed_cpus c)) [
      | inl e ↦ rw e (λ h. cc, λ h. cc)
      | inr e ↦
          let rest = find_movable-none procs c qs in rw e (λ h. (refl, rest.0 h), λ h. rest.1 h.1)
    ]

-- The places of a proc on a ring.
abbrev pub count_ring : ℕ → List RingEntry → ℕ
count_ring p [] = 0
count_ring p (a_proc q ∷ es) = (if q == p then 1 else 0) + count_ring p es
count_ring p (head_of c ∷ es) = count_ring p es

abbrev pub IsLost : Joined → ℕ → Type 0
IsLost j p = (count_ring p j.src_ring ≡ 0) × (count_ring p j.dst_ring ≡ 0)

count_ring_map : (p : ℕ) (ps : List ℕ) → count_ring p (map a_proc ps) ≡ count p ps
count_ring_map p [] = refl
count_ring_map p (q ∷ qs) = ap (λ (n : ℕ). (if q == p then 1 else 0) + n) (count_ring_map p qs)

count_ring_end :
    (p c : ℕ) (ps : List ℕ) → count_ring p (map a_proc ps ++ (head_of c ∷ [])) ≡ count p ps
count_ring_end p c [] = refl
count_ring_end p c (q ∷ qs) = ap (λ (n : ℕ). (if q == p then 1 else 0) + n) (count_ring_end p c qs)

zero-or-some : (n : ℕ) → (n ≡ 0) ⊎ (0 < n)
zero-or-some zero = inl refl
zero-or-some (suc n) = inr (omega arith)

at_or_apart : (f g : ℕ → ℕ) (p q : ℕ) → f p ≡ g p → ((p == q) ≡ false → f q ≡ g q) → f q ≡ g q
at_or_apart f g p q own other = elim (Bool-cases (p == q)) [
  | inr e ↦ other e
  | inl e ↦ subst (λ (x : ℕ). f x ≡ g x) ((==_iff p q).0 e) own
]

module _ (k : Kernel) (o : KeepsOrder k) (s : Sched) (v : IsSched s) where
  module _ (from to p : ℕ) where
    abbrev sent : Proc
    sent = record (s.procs p) { cpu = to }

    -- The queues after a move of a proc, by the kinds under which it is taken off and put on.
    abbrev resent : (ℕ → Proc) → Kind → Kind → ℕ → Runqueue
    resent procs a b =
        let rq = record (unlink k (s.rqs from) p a) {
          nr_running = dec_u32 (s.rqs from).nr_running;
        } in
        let u = put_rq s from rq in
        let rq' = record (link k procs (u.rqs to) p b) {
          nr_running = inc_u32 (u.rqs to).nr_running;
        } in
        (put_rq u to rq').rqs

    move_queues :
        (s.procs p).kind ≡ system
        → (enqueue k (put_proc (dequeue k s from p) p sent) to p).rqs ≡ (move s from to p).rqs
    unfolding enqueue dequeue move
    move_queues is_system =
        let procs = (put_proc s p sent).procs in
        let own : (procs p).kind ≡ (s.procs p).kind = let e = (==_iff p p).1 refl in rw e in
        ap₂ (resent procs) is_system (own ∙ is_system)

    move_procs :
        (enqueue k (put_proc (dequeue k s from p) p sent) to p).procs ≡ (move s from to p).procs
    unfolding enqueue dequeue move
    move_procs = refl

  found_is_system : (c p : ℕ) → 0 < count p (s.rqs c).system_procs → (s.procs p).kind ≡ system
  found_is_system c p i = by_kind (s.procs p).kind refl
    where
      by_kind : (kind : Kind) → (s.procs p).kind ≡ kind → kind ≡ system
      by_kind system e = refl
      by_kind session e =
          let none_here : count p (s.rqs c).system_procs ≡ 0 =
            subst (λ (x : Kind). astray (s.rqs c) p x ≡ 0) e (v.sorted p c) in
          absurd (omega (arith, none_here, i))

  found_home :
      (c p : ℕ) → 0 < count p (s.rqs c).system_procs → ((s.procs p).cpu ≡ c) × (at_home s p ≡ 1)
  found_home c p i =
      let kind = found_is_system c p i in
      let queued_here : 0 < queued (s.rqs c) p (s.procs p).kind =
        subst (λ (x : Kind). 0 < queued (s.rqs c) p x) (sym kind) i in
      let here = v.placed p c queued_here in
      (
        here,
        subst (λ (d : ℕ). queued (s.rqs d) p (s.procs p).kind ≡ 1) (sym here)
            (let few = v.once p c in omega (arith, few, queued_here)),
      )

  -- The invariant holds, and each proc has as many places on the queue of its CPU as before.
  abbrev Keeps : (ℕ → Proc) → (ℕ → Runqueue) → Type 0
  Keeps procs rqs =
      IsQueued procs rqs × ((q : ℕ) → queued (rqs (procs q).cpu) q (procs q).kind ≡ at_home s q)

  move-Keeps :
      (from to p : ℕ)
      → 0 < count p (s.rqs from).system_procs
      → Keeps (move s from to p).procs (move s from to p).rqs
  move-Keeps from to p i =
      let (here, home) = found_home from p i in
      let w = sent from to p in
      let moved : Keeps (enqueue k (put_proc (dequeue k s (s.procs p).cpu p) p w) to p).procs
          (enqueue k (put_proc (dequeue k s (s.procs p).cpu p) p w) to p).rqs =
        let (a, b, others) = moving k o s v p w refl home in
        let u = enqueue k (put_proc (dequeue k s (s.procs p).cpu p) p w) to p in
        (a, λ q. at_or_apart (at_home u) (at_home s) p q (b ∙ sym home) (others q)) in
      let t = enqueue k (put_proc (dequeue k s from p) p w) to p in
      let at_from : Keeps t.procs t.rqs =
        subst
          (λ (c : ℕ).
            let u = enqueue k (put_proc (dequeue k s c p) p w) to p in Keeps u.procs u.rqs)
          here moved in
      subst (λ (f : ℕ → Runqueue). Keeps (move s from to p).procs f)
        (move_queues from to p (found_is_system from p i))
        (subst (λ (f : ℕ → Proc). Keeps f t.rqs) (move_procs from to p) at_from)

  ends : (u t : Sched) → balanced u ≡ balanced t → Keeps u.procs u.rqs → Keeps t.procs t.rqs
  ends u t e = subst (λ (x : Sched). Keeps x.procs x.rqs) (balanced-injective u t e)

  between-Keeps :
      (most least : ℕ × Option ℕ) (t : Sched)
      → balance_between s most least ≡ balanced t
      → Keeps t.procs t.rqs
  unfolding balance_between
  between-Keeps (hi, none) (lo, to) t h = ends s t h (v, λ q. refl)
  between-Keeps (hi, some from) (lo, none) t h = ends s t h (v, λ q. refl)
  between-Keeps (hi, some from) (lo, some to) t h =
      let ps = (s.rqs from).system_procs in
      elim (Bool-cases (leb ((hi + 2 ^ 32 - lo) % 2 ^ 32) threshold)) [
        | inl e ↦ ends s t (rw e at h) (v, λ q. refl)
        | inr e ↦ elim (Option-cases (find_movable s.procs to ps)) [
          | inl n ↦ cc (rw (e, n) at h)
          | inr (p, f) ↦
              ends (move s from to p) t (rw (e, f) at h)
                (move-Keeps from to p (find_movable-found s.procs to p ps f).0)
        ]
      ]

  -- A load balance that moves a proc or none, and so does not take the head of a list for a proc,
  -- keeps the invariant of the queues, and each proc as many places on the queue of its CPU as it
  -- had.
  pub balance_keeps :
      (t : Sched)
      → load_balance k s ≡ balanced t
      → IsSched t × ((q : ℕ) → at_home t q ≡ at_home s q)
  unfolding load_balance
  balance_keeps t h =
      between-Keeps (fold (more_loaded s.rqs) (0, none) (cpus_of k k.online))
        (fold (less_loaded s.rqs) (uint_max, none) (cpus_of k k.online)) t h

  stuck-IsLost :
      (from to p : ℕ)
      → from ≢ to
      → 0 < count p (s.rqs from).system_procs
      → IsLost (join_heads s from to) p
  unfolding join_heads
  stuck-IsLost from to p differ i =
      let here = (found_home from p i).0 in
      let other : (to == from) ≡ false = ground (arith, differ) in
      let elsewhere : count p (s.rqs to).system_procs ≡ 0 =
        elim (zero-or-some (count p (s.rqs to).system_procs)) [
          | inl none_there ↦ none_there
          | inr there ↦ let home = (found_home to p there).0 in absurd (differ (sym here ∙ home))
        ] in
      rw other (
        count_ring_map p (s.rqs to).system_procs ∙ elsewhere,
        count_ring_end p from (s.rqs to).system_procs ∙ elsewhere,
      )

  -- From a state with the invariant of the queues, where the scans of the loads find two different
  -- CPUs whose u32 loads differ by more than two and no proc of the heavier queue can move, the heads
  -- of the two lists end on one ring, on which neither head finds a proc that stood on the heavier
  -- queue; the procs themselves are as before.
  pub balance_corrupts :
      (from to hi lo : ℕ)
      → fold (more_loaded s.rqs) (0, none) (cpus_of k k.online) ≡ (hi, some from)
      → fold (less_loaded s.rqs) (uint_max, none) (cpus_of k k.online) ≡ (lo, some to)
      → from ≢ to
      → lo + 2 < hi
      → hi < 2 ^ 32
      → IsStuck s.procs to (s.rqs from).system_procs
      → (j : Joined) × (load_balance k s ≡ joins j)
        × ((p : ℕ) → 0 < count p (s.rqs from).system_procs → IsLost j p)
        × ((p : ℕ) → j.sched.procs p ≡ s.procs p)
  unfolding load_balance balance_between join_heads
  balance_corrupts from to hi lo heavy light differ far small stuck =
      let ps = (s.rqs from).system_procs in
      let e : leb ((hi + 2 ^ 32 - lo) % 2 ^ 32) threshold ≡ false = ground (arith, far, small) in
      let n = (find_movable-none s.procs to ps).1 stuck in
      (
        join_heads s from to,
        rw (heavy, light) (rw (balance_between, e, n) refl),
        λ p i. stuck-IsLost from to p differ i,
        λ p. refl,
      )
