-- ===== src/Sched/Rounds.antt =====
-- A round of the scheduler of kernel/kds/proc.c on one queue: the procs that do not run gain
-- priority.
use kdbs.Common.{
  ℕ, zero, suc, ◌+◌, ◌-◌, ◌^◌, ◌≤◌, ◌<◌, ◌≡◌, refl, sym, ap, subst, ◌∙◌, inl, inr, Bool, true,
  false, Bool-cases, List, [], ◌∷◌, Option, none, some, arith, ◌==◌, if◌then◌else◌, ==_iff,
}
use kdbs.Sched.{
  Kernel, Proc, Sched, Runqueue, put_proc, put_rq, schedule_begin, schedule_end, proc_schedule,
  update_wait_time, aged, run,
}
use kdbs.Sched.Queues.{count}
use kdbs.Sched.Pick.{prio_of}

-- How far the procs of a list are ahead of a proc, in rounds.
abbrev pub ahead : (ℕ → Proc) → ℕ → List ℕ → ℕ
ahead procs q [] = 0
ahead procs q (p ∷ ps) = (prio_of procs p + 1 - prio_of procs q) + ahead procs q ps

-- The choice of the next call on a CPU.
abbrev pub proc_of : Option (Sched × ℕ × Bool) → Option ℕ
proc_of none = none
proc_of (some (t, p, fast)) = some p

abbrev pub chosen : Kernel → Sched → ℕ → Option ℕ
chosen k s c = proc_of (schedule_begin k s c)

-- The state after some calls on one CPU, where nothing else happens.
unfoldable pub rounds : Kernel → ℕ → (ℕ → ℕ) → ℕ → Sched → Sched
rounds k c elapsed zero s = s
rounds k c elapsed (suc n) s =
    rounds k c (λ i. elapsed (i + 1)) n (proc_schedule k (λ t. t) (elapsed 0) s c)

-- A queue with no slice going on: no current proc, every proc idle and standing once, with a pid of
-- its own, and with priorities that are not negative and stay so for as many rounds as `q` can wait.
pub record IsWaiting (s : Sched) (c q : ℕ) : Type 0 where
  pub no_current : (s.rqs c).curr_proc ≡ none
  pub idle : (p : ℕ) → 0 < count p (s.rqs c).system_procs → (s.procs p).running ≡ false
  pub once : (p : ℕ) → count p (s.rqs c).system_procs ≤ 1
  pub own_pid :
      (p r : ℕ)
      → 0 < count p (s.rqs c).system_procs
      → 0 < count r (s.rqs c).system_procs
      → (s.procs p).pid ≡ (s.procs r).pid
      → p ≡ r
  pub small :
      (p : ℕ)
      → 0 < count p (s.rqs c).system_procs
      → prio_of s.procs p + ahead s.procs q (s.rqs c).system_procs < 2 ^ 31
  pub waits : 0 < count q (s.rqs c).system_procs

-- The walk over a queue ages the procs that stand on it once and no others.
age_out :
    (s : Sched) (ps : List ℕ) (elapsed pid q : ℕ)
    → count q ps ≡ 0
    → (update_wait_time s ps elapsed pid).procs q ≡ s.procs q
unfolding update_wait_time
age_out s [] elapsed pid q h = refl
age_out s (p ∷ ps) elapsed pid q h =
    let s' = put_proc s p (aged elapsed pid (s.procs p)) in
    let other : (q == p) ≡ false = ground (arith, h) in
    age_out s' ps elapsed pid q (ground (arith, h)) ∙ rw other refl

age_in :
    (s : Sched) (ps : List ℕ) (elapsed pid q : ℕ)
    → count q ps ≡ 1
    → (update_wait_time s ps elapsed pid).procs q ≡ aged elapsed pid (s.procs q)
unfolding update_wait_time
age_in s [] elapsed pid q h = absurd (omega (arith, h))
age_in s (p ∷ ps) elapsed pid q h =
    let s' = put_proc s p (aged elapsed pid (s.procs p)) in
    elim (Bool-cases (q == p)) [
      | inl e ↦
          let q_is = (==_iff q p).0 e in
          let out : count q ps ≡ 0 = ground (arith, h, q_is) in
          age_out s' ps elapsed pid q out ∙ rw (e, q_is) refl
      | inr e ↦
          let later : count q ps ≡ 1 = ground (arith, h, e) in
          age_in s' ps elapsed pid q later ∙ rw e refl
    ]

age_rqs :
    (s : Sched) (ps : List ℕ) (elapsed pid : ℕ) → (update_wait_time s ps elapsed pid).rqs ≡ s.rqs
unfolding update_wait_time
age_rqs s [] elapsed pid = refl
age_rqs s (p ∷ ps) elapsed pid =
    age_rqs (put_proc s p (aged elapsed pid (s.procs p))) ps elapsed pid

-- A round in which `p` runs and the others gain one lowers the lead over `q`.
ahead_falls :
    (f g : ℕ → Proc) (p q : ℕ) (ps : List ℕ)
    → ((r : ℕ) → 0 < count r ps → prio_of g r ≡ prio_of f r + (if r == p then 0 else 1))
    → prio_of g q ≡ prio_of f q + 1
    → prio_of f q ≤ prio_of f p
    → ahead g q ps + count p ps ≡ ahead f q ps
ahead_falls f g p q [] each own le = omega arith
ahead_falls f g p q (r ∷ ps) each own le =
    let here = each r (let e = (==_iff r r).1 refl in rw e (omega arith)) in
    let rest = ahead_falls f g p q ps (λ x i. each x (omega (arith, i))) own le in
    elim (Bool-cases (r == p)) [
      | inl e ↦
          let r_is = (==_iff r p).0 e in
          let same : prio_of g r ≡ prio_of f r = ground (arith, here, e) in
          let level : prio_of f q ≤ prio_of f r =
            subst (λ (x : ℕ). prio_of f q ≤ prio_of f x) (sym r_is) le in
          rw e (omega (arith, same, own, level, rest))
      | inr e ↦
          let more : prio_of g r ≡ prio_of f r + 1 = ground (arith, here, e) in
          rw e (omega (arith, more, own, rest))
    ]

-- The end of a slice.
module _ (s : Sched) (c p elapsed : ℕ) where
  abbrev ended : Sched
  ended = schedule_end s c p false elapsed

  abbrev waited : Sched
  waited = update_wait_time s (s.rqs c).system_procs elapsed (s.procs p).pid

  end_self : ended.procs p ≡ record (waited.procs p) { running = false }
  unfolding schedule_end
  end_self = let e = (==_iff p p).1 refl in rw e

  end_other : (r : ℕ) → (r == p) ≡ false → ended.procs r ≡ waited.procs r
  unfolding schedule_end
  end_other r e = rw e

  end_queue : (ended.rqs c).system_procs ≡ (s.rqs c).system_procs
  unfolding schedule_end
  end_queue =
      let e = (==_iff c c).1 refl in
      rw e (
        ap (λ (f : ℕ → Runqueue). (f c).system_procs)
          (age_rqs s (s.rqs c).system_procs elapsed (s.procs p).pid))

  end_none : (ended.rqs c).curr_proc ≡ none
  unfolding schedule_end
  end_none = let e = (==_iff c c).1 refl in rw e

-- What a call leaves that runs `p`, of a queue of idle procs.
pub record IsRound (s t : Sched) (c p : ℕ) : Type 0 where
  pub same_queue : (t.rqs c).system_procs ≡ (s.rqs c).system_procs
  pub none_current : (t.rqs c).curr_proc ≡ none
  pub gains :
      (r : ℕ)
      → 0 < count r (s.rqs c).system_procs
      → prio_of t.procs r ≡ prio_of s.procs r + (if r == p then 0 else 1)
  pub same_pid : (r : ℕ) → 0 < count r (s.rqs c).system_procs → (t.procs r).pid ≡ (s.procs r).pid
  pub all_idle : (r : ℕ) → 0 < count r (s.rqs c).system_procs → (t.procs r).running ≡ false

abbrev pub begun_on : Sched → ℕ → ℕ → Sched
begun_on s c p =
    let s' = put_proc s p (record (s.procs p) { running = true; state = run }) in
    put_rq s' c (record (s.rqs c) { curr_proc = some p })

module _ (s : Sched) (c q p elapsed : ℕ) (w : IsWaiting s c q) where
  abbrev pub begun : Sched
  begun = begun_on s c p

  abbrev pub done : Sched
  done = schedule_end begun c p false elapsed

  begun_queue : (begun.rqs c).system_procs ≡ (s.rqs c).system_procs
  begun_queue = let e = (==_iff c c).1 refl in rw e

  begun_pid : (begun.procs p).pid ≡ (s.procs p).pid
  begun_pid = let e = (==_iff p p).1 refl in rw e

  aged_one :
      (r : ℕ)
      → 0 < count r (s.rqs c).system_procs
      → (update_wait_time begun (begun.rqs c).system_procs elapsed (begun.procs p).pid).procs r
        ≡ aged elapsed (s.procs p).pid (begun.procs r)
  aged_one r i =
      let one : count r (s.rqs c).system_procs ≡ 1 = let few = w.once r in omega (arith, few, i) in
      let one' : count r (begun.rqs c).system_procs ≡ 1 = ap (count r) begun_queue ∙ one in
      age_in begun (begun.rqs c).system_procs elapsed (begun.procs p).pid r one'
      ∙ ap (λ (x : ℕ). aged elapsed x (begun.procs r)) begun_pid

  done_self :
      0 < count p (s.rqs c).system_procs
      → (prio_of done.procs p ≡ prio_of s.procs p)
        × ((done.procs p).pid ≡ (s.procs p).pid)
        × ((done.procs p).running ≡ false)
  done_self i =
      let e = (==_iff p p).1 refl in
      let e' = (==_iff (s.procs p).pid (s.procs p).pid).1 refl in
      let x =
        end_self begun c p elapsed
        ∙ ap (λ (v : Proc). record v { running = false }) (aged_one p i) in
      (
        ap (λ (v : Proc). v.dynamic_prio) x ∙ rw e (rw e' refl),
        ap (λ (v : Proc). v.pid) x ∙ rw e (rw e' refl),
        ap (λ (v : Proc). v.running) x,
      )

  done_other :
      (r : ℕ)
      → 0 < count r (s.rqs c).system_procs
      → 0 < count p (s.rqs c).system_procs
      → (r == p) ≡ false
      → (prio_of done.procs r ≡ prio_of s.procs r + 1)
        × ((done.procs r).pid ≡ (s.procs r).pid)
        × ((done.procs r).running ≡ false)
  done_other r i j e =
      let x = end_other begun c p elapsed r e ∙ aged_one r i in
      let pids : ((s.procs r).pid == (s.procs p).pid) ≡ false =
        elim (Bool-cases ((s.procs r).pid == (s.procs p).pid)) [
          | inr x ↦ x
          | inl x ↦
              let same = w.own_pid r p i j ((==_iff (s.procs r).pid (s.procs p).pid).0 x) in
              ground (arith, same, e)
        ] in
      let lo = w.small r i in
      let d = w.idle r i in
      (
        ap (λ (v : Proc). v.dynamic_prio) x ∙ rw e (rw pids (omega (arith, lo))),
        ap (λ (v : Proc). v.pid) x ∙ rw e (rw pids refl),
        ap (λ (v : Proc). v.running) x ∙ rw e (rw pids d),
      )

  pub done-IsRound : 0 < count p (s.rqs c).system_procs → IsRound s done c p
  done-IsRound j = record {
    same_queue = end_queue begun c p elapsed ∙ begun_queue;
    none_current = end_none begun c p elapsed;
    gains = λ r i. elim (Bool-cases (r == p)) [
      | inl e ↦ rw e (rw ((==_iff r p).0 e) (omega (arith, (done_self j).0)))
      | inr e ↦ rw e (done_other r i j e).0
    ];
    same_pid = λ r i. elim (Bool-cases (r == p)) [
      | inl e ↦ rw ((==_iff r p).0 e) (done_self j).1
      | inr e ↦ (done_other r i j e).1
    ];
    all_idle = λ r i. elim (Bool-cases (r == p)) [
      | inl e ↦ rw ((==_iff r p).0 e) (done_self j).2
      | inr e ↦ (done_other r i j e).2
    ];
  }

-- A round that does not run `q` leaves it waiting, one round less.
pub round-IsWaiting :
    (s t : Sched) (c q p : ℕ)
    → IsWaiting s c q
    → IsRound s t c p
    → 0 < count p (s.rqs c).system_procs
    → prio_of s.procs q ≤ prio_of s.procs p
    → (q == p) ≡ false
    → IsWaiting t c q
      × (ahead t.procs q (t.rqs c).system_procs + 1 ≡ ahead s.procs q (s.rqs c).system_procs)
round-IsWaiting s t c q p w r i le other =
    let ps = (s.rqs c).system_procs in
    let own : prio_of t.procs q ≡ prio_of s.procs q + 1 = r.gains q w.waits ∙ rw other refl in
    let falls = ahead_falls s.procs t.procs p q ps r.gains own le in
    let less : ahead t.procs q ps + 1 ≡ ahead s.procs q ps =
      let few = w.once p in omega (arith, falls, few, i) in
    let back = λ (x : ℕ) (j : 0 < count x (t.rqs c).system_procs).
      subst (λ (xs : List ℕ). 0 < count x xs) r.same_queue j in
    (
      record {
        no_current = r.none_current;
        idle = λ x j. r.all_idle x (back x j);
        once = λ x. rw (r.same_queue) (w.once x);
        own_pid = λ x y j k e.
            w.own_pid x y (back x j) (back y k)
              (sym (r.same_pid x (back x j)) ∙ e ∙ r.same_pid y (back y k));
        small = λ x j.
            rw (r.same_queue) (ground (arith, w.small x (back x j), r.gains x (back x j), less));
        waits = rw (r.same_queue) w.waits;
      },
      rw (r.same_queue) less,
    )
