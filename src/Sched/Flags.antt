-- ===== src/Sched/Flags.antt =====
-- What the operations on the queues of kernel/kds/proc.c leave alone: the running flags and the
-- current procs.
use kdbs.Common.{
  ℕ, ◌+◌, ◌≡◌, refl, sym, subst, ◌∙◌, inl, inr, Bool, false, not, Bool-cases, Option-cases, Option,
  none, some, arith, ◌==◌, if◌then◌else◌, ==_iff, leb, ◌-◌, ◌%◌, ◌^◌, if_elim, Result,
}
use kdbs.Sched.Queues.{balanced-injective}
use kdbs.Sched.{
  Kernel, Kind, system, session, Proc, Sched, put_proc, enqueue, dequeue, link, unlink,
  proc_register, proc_unregister, set_affinity, move, balanced, balance_between, load_balance,
  find_movable, remove, dec_u32, registered, select_cpu, is_empty, cpus_of, threshold,
}

-- An operation on the queues leaves the running flags and the current procs as they are.
pub record Leaves (s t : Sched) : Type 0 where
  pub flags : (p : ℕ) → (t.procs p).running ≡ (s.procs p).running
  pub current : (c : ℕ) → (t.rqs c).curr_proc ≡ (s.rqs c).curr_proc

module _ (k : Kernel) (s : Sched) where
  enqueue-Leaves : (c p : ℕ) → Leaves s (enqueue k s c p)
  unfolding enqueue
  enqueue-Leaves c p = record {
    flags = λ q. refl;
    current = λ d. elim (Bool-cases (d == c)) [
      | inr e ↦ rw e
      | inl e ↦ rw (e, (==_iff d c).0 e) (by_kind (s.procs p).kind)
    ];
  }
    where
      by_kind : (kind : Kind) → (link k s.procs (s.rqs c) p kind).curr_proc ≡ (s.rqs c).curr_proc
      by_kind system = refl
      by_kind session = refl

  dequeue-Leaves : (c p : ℕ) → Leaves s (dequeue k s c p)
  unfolding dequeue
  dequeue-Leaves c p = record {
    flags = λ q. refl;
    current = λ d. elim (Bool-cases (d == c)) [
      | inr e ↦ rw e
      | inl e ↦ rw (e, (==_iff d c).0 e) (by_kind (s.procs p).kind)
    ];
  }
    where
      by_kind : (kind : Kind) → (unlink k (s.rqs c) p kind).curr_proc ≡ (s.rqs c).curr_proc
      by_kind system = refl
      by_kind session = refl

put_proc-Leaves :
    (s : Sched) (p : ℕ) (w : Proc) → w.running ≡ (s.procs p).running → Leaves s (put_proc s p w)
put_proc-Leaves s p w same = record {
  flags = λ q. elim (Bool-cases (q == p)) [ inr e ↦ rw e | inl e ↦ rw (e, (==_iff q p).0 e) same ];
  current = λ c. refl;
}

Leaves-trans : (s t u : Sched) → Leaves s t → Leaves t u → Leaves s u
Leaves-trans s t u a b = record {
  flags = λ p. b.flags p ∙ a.flags p;
  current = λ c. b.current c ∙ a.current c;
}

Leaves-refl : (s : Sched) → Leaves s s
Leaves-refl s = record { flags = λ p. refl; current = λ c. refl }

move-Leaves : (s : Sched) (from to p : ℕ) → Leaves s (move s from to p)
unfolding move
move-Leaves s from to p = record {
  flags = λ q. elim (Bool-cases (q == p)) [ inr e ↦ rw e | inl e ↦ rw (e, (==_iff q p).0 e) refl ];
  current = λ d. elim (Bool-cases (d == to)) [
    | inr e ↦ rw e (source d)
    | inl e ↦ rw (e, (==_iff d to).0 e) (source to)
  ];
}
  where
    source :
        (d : ℕ)
        → (if d == from
            then record (s.rqs from) {
              system_procs = remove p (s.rqs from).system_procs;
              nr_running = dec_u32 (s.rqs from).nr_running;
            }
            else s.rqs d).curr_proc
          ≡ (s.rqs d).curr_proc
    source d = elim (Bool-cases (d == from)) [ inr e ↦ rw e | inl e ↦ rw (e, (==_iff d from).0 e) ]

module _ (k : Kernel) (s : Sched) where
  pub register-Leaves : (p : ℕ) → (s.procs p).running ≡ false → Leaves s (proc_register k s p).0
  unfolding proc_register
  register-Leaves p idle =
      let r = registered k s (s.procs p) in
      let c = select_cpu k s r in
      let w = record r { cpu = c; preferred_cpu = c } in
      let s' = record s { next_pid = (s.next_pid + 1) % 2 ^ 64 } in
      let halts : r.running ≡ false = ground arith in
      let a = put_proc-Leaves s' p w (halts ∙ sym idle) in
      let b = enqueue-Leaves k (put_proc s' p w) c p in
      let both = Leaves-trans s' (put_proc s' p w) (enqueue k (put_proc s' p w) c p) a b in
      if_elim (λ (x : Sched × Result (Unit {0})). Leaves s x.0) (not (s.procs p).has_run)
        (Leaves-refl s) (record { flags = both.flags; current = both.current })

  pub unregister-Leaves : (p : ℕ) → Leaves s (proc_unregister k s p)
  unfolding proc_unregister
  unregister-Leaves p = dequeue-Leaves k s (s.procs p).cpu p

  pub affinity-Leaves : (p : ℕ) (mask : ℕ → Bool) → Leaves s (set_affinity k s p mask).0
  unfolding set_affinity
  affinity-Leaves p mask =
      let v = record (s.procs p) { allowed_cpus = mask } in
      let s1 = dequeue k s (s.procs p).cpu p in
      let c = select_cpu k s1 v in
      let w = record v { cpu = c } in
      let a = dequeue-Leaves k s (s.procs p).cpu p in
      let b = put_proc-Leaves s1 p w (sym (a.flags p)) in
      let d = enqueue-Leaves k (put_proc s1 p w) c p in
      let s2 = put_proc s1 p w in
      let all =
        Leaves-trans s s1 (enqueue k s2 c p) a (Leaves-trans s1 s2 (enqueue k s2 c p) b d) in
      if_elim (λ (x : Sched × Result (Unit {0})). Leaves s x.0) (is_empty (cpus_of k mask))
        (Leaves-refl s)
        (if_elim (λ (x : Sched × Result (Unit {0})). Leaves s x.0) (mask (s.procs p).cpu)
          (put_proc-Leaves s p v refl) (record { flags = all.flags; current = all.current }))

  ends : (t u : Sched) → balanced u ≡ balanced t → Leaves s u → Leaves s t
  ends t u e = subst (Leaves s) (balanced-injective u t e)

  between-Leaves :
      (most least : ℕ × Option ℕ) (t : Sched)
      → balance_between s most least ≡ balanced t
      → Leaves s t
  unfolding balance_between
  between-Leaves (hi, none) (lo, to) t h = ends t s h (Leaves-refl s)
  between-Leaves (hi, some from) (lo, none) t h = ends t s h (Leaves-refl s)
  between-Leaves (hi, some from) (lo, some to) t h =
      elim (Bool-cases (leb ((hi + 2 ^ 32 - lo) % 2 ^ 32) threshold)) [
        | inl e ↦ ends t s (rw e at h) (Leaves-refl s)
        | inr e ↦ elim (Option-cases (find_movable s.procs to (s.rqs from).system_procs)) [
          | inl n ↦ cc (rw (e, n) at h)
          | inr (p, f) ↦ ends t (move s from to p) (rw (e, f) at h) (move-Leaves s from to p)
        ]
      ]

  pub balance-Leaves : (t : Sched) → load_balance k s ≡ balanced t → Leaves s t
  unfolding load_balance
  balance-Leaves = between-Leaves _ _
