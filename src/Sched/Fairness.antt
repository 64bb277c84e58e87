-- ===== src/Sched/Fairness.antt =====
-- No proc of a queue waits for ever in kernel/kds/proc.c: those that do not run gain priority.
use kdbs.Common.{
  ℕ, zero, suc, ◌+◌, ◌≤◌, ◌<◌, ◌≡◌, refl, sym, ap, ◌∙◌, inl, inr, Bool, false, Bool-cases, List, [],
  ◌∷◌, some, arith, ◌==◌, ==_iff,
}
use kdbs.Sched.{
  Kernel, Proc, Sched, schedule_begin, schedule_end, mark_running, proc_schedule, schedule_rest,
  takes_fast_path,
}
use kdbs.Sched.Queues.{count}
use kdbs.Sched.Pick.{pick_best, pick-some, prio_of}
use kdbs.Sched.Rounds.{
  ahead, chosen, proc_of, rounds, IsWaiting, begun_on, done-IsRound, round-IsWaiting,
}

-- A call on a waiting queue runs an idle proc of the greatest priority.
call_picks :
    (k : Kernel) (s : Sched) (c q : ℕ)
    → IsWaiting s c q
    → (p : ℕ) × (0 < count p (s.rqs c).system_procs)
      × (prio_of s.procs q ≤ prio_of s.procs p)
      × (schedule_begin k s c ≡ some (begun_on s c p, p, false))
unfolding schedule_begin mark_running
call_picks k s c q w =
    let lo = w.small q w.waits in
    let (p, e) =
      pick-some s.procs (s.rqs c).system_procs q w.waits (w.idle q w.waits) (omega (arith, lo)) in
    let (i, _, best) = pick_best s.procs (s.rqs c).system_procs p e in
    let hi = w.small p i in
    let above = best q w.waits (w.idle q w.waits) in
    let slow : takes_fast_path k s c ≡ false = rw (w.no_current) (ground arith) in
    (p, i, omega (arith, above, lo, hi), rw (slow, e) refl)

waits_ahead : (procs : ℕ → Proc) (q : ℕ) (ps : List ℕ) → 0 < count q ps → 0 < ahead procs q ps
waits_ahead procs q [] i = absurd (omega (arith, i))
waits_ahead procs q (p ∷ ps) i = elim (Bool-cases (p == q)) [
  | inl e ↦ rw ((==_iff p q).0 e) (omega arith)
  | inr e ↦ let j : 0 < count q ps = ground (arith, i, e) in omega (arith, waits_ahead procs q ps j)
]

call_is :
    (k : Kernel) (work : Sched → Sched) (elapsed : ℕ) (s t : Sched) (c p : ℕ) (fast : Bool)
    → schedule_begin k s c ≡ some (t, p, fast)
    → proc_schedule k work elapsed s c ≡ schedule_end (work t) c p fast elapsed
unfolding proc_schedule
call_is k work elapsed s t c p fast h = ap (schedule_rest work elapsed s c) h

-- A proc of a queue on which no slice goes on, whose procs are idle, stand there once, have pids of
-- their own and priorities below 2 ^ 31, now and in the rounds to come, is run after fewer calls
-- than its queue is ahead of it, where nothing else happens: `ahead` sums, over the procs of the
-- queue, by how much each surpasses it plus one.
pub waiting_runs :
    (k : Kernel) (c q bound : ℕ) (s : Sched) (elapsed : ℕ → ℕ)
    → IsWaiting s c q
    → ahead s.procs q (s.rqs c).system_procs ≤ bound
    → (n : ℕ) × (n < bound) × (chosen k (rounds k c elapsed n s) c ≡ some q)
unfolding rounds
waiting_runs k c q zero s elapsed w h =
    absurd (omega (arith, h, waits_ahead s.procs q (s.rqs c).system_procs w.waits))
waiting_runs k c q (suc bound) s elapsed w h =
    let (p, i, le, begins) = call_picks k s c q w in
    elim (Bool-cases (q == p)) [
      | inl e ↦ (0, omega arith, ap proc_of begins ∙ ap some (sym ((==_iff q p).0 e)))
      | inr e ↦
          let t = schedule_end (begun_on s c p) c p false (elapsed 0) in
          let calls : proc_schedule k (λ u. u) (elapsed 0) s c ≡ t =
            call_is k (λ u. u) (elapsed 0) s (begun_on s c p) c p false begins in
          let (w', less) =
            round-IsWaiting s t c q p w (done-IsRound s c q p (elapsed 0) w i) i le e in
          let (n, lt, runs) =
            waiting_runs k c q bound t (λ i. elapsed (i + 1)) w' (omega (arith, less, h)) in
          (suc n, omega (arith, lt), rw (calls) runs)
    ]
