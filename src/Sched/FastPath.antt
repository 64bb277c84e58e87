-- ===== src/Sched/FastPath.antt =====
-- The fast path of `kds_proc_schedule` in kernel/kds/proc.c is never taken.
use kdbs.Common.{
  ℕ, ◌≡◌, refl, sym, ap, ◌∙◌, ◌⊎◌, inl, inr, Bool, true, false, Bool-cases, Option-cases, List, [],
  ◌∷◌, if_elim, Option, none, some, arith, ◌==◌, if◌then◌else◌, ==_iff,
}
use mathlib.Core.Option.{some-injective}
use kdbs.Sched.{
  Kernel, Proc, Sched, Runqueue, put_proc, put_rq, schedule_begin, schedule_end, mark_running, run,
  takes_fast_path, pick, update_wait_time, aged,
}
use kdbs.Sched.Flags.{Leaves, register-Leaves, unregister-Leaves, affinity-Leaves, balance-Leaves}
use kdbs.Sched.Pick.{pick_best}
use kdbs.Sched.Threads.{
  System, put_active, Step, begins, ends, registers, unregisters, migrates, balances, Reach, start,
  later,
}

-- No slice goes on.
abbrev pub IsQuiet : System → Type 0
IsQuiet s = (c : ℕ) → (s.active c ≡ none) × ((s.sched.rqs c).curr_proc ≡ none)

-- A current proc is the one whose slice goes on; such a proc has its flag set, is on one CPU only
-- and was not chosen on the fast path.
record IsBusy (s : Sched) (active : ℕ → Option (ℕ × Bool)) : Type 0 where
  current : (c p : ℕ) → (s.rqs c).curr_proc ≡ some p → active c ≡ some (p, false)
  busy : (c p : ℕ) (f : Bool) → active c ≡ some (p, f) → ((s.procs p).running ≡ true) × (f ≡ false)
  apart : (c d p : ℕ) (f g : Bool) → active c ≡ some (p, f) → active d ≡ some (p, g) → c ≡ d

Leaves-IsBusy :
    (s t : Sched) (active : ℕ → Option (ℕ × Bool)) → Leaves s t → IsBusy s active → IsBusy t active
Leaves-IsBusy s t active l b = record {
  current = λ c p h. b.current c p (sym (l.current c) ∙ h);
  busy = λ c p f h. let (r, e) = b.busy c p f h in (l.flags p ∙ r, e);
  apart = b.apart;
}

-- The fast path is not taken where each current proc runs.
slow :
    (k : Kernel) (s : Sched) (active : ℕ → Option (ℕ × Bool)) (c : ℕ)
    → IsBusy s active
    → takes_fast_path k s c ≡ false
slow k s active c b = elim (Option-cases (s.rqs c).curr_proc) [
  | inl n ↦ rw n (ground arith)
  | inr (p, e) ↦ let r = (b.busy c p false (b.current c p e)).0 in rw (e, r) (ground arith)
]

abbrev marked : Sched → ℕ → ℕ → Sched
marked s c p =
    let s' = put_proc s p (record (s.procs p) { running = true; state = run }) in
    put_rq s' c (record (s.rqs c) { curr_proc = some p })

mark_running_inv :
    (s t : Sched) (c p : ℕ) (fast f : Bool) (best : Option ℕ)
    → mark_running s c fast best ≡ some (t, p, f)
    → (best ≡ some p) × (f ≡ fast) × (t ≡ marked s c p)
unfolding mark_running
mark_running_inv s t c p fast f none h = cc
mark_running_inv s t c p fast f (some q) h =
    let same : p ≡ q = cc h in (rw same refl, cc h, rw same (cc h))

begin_inv :
    (k : Kernel) (s t : Sched) (active : ℕ → Option (ℕ × Bool)) (c p : ℕ) (f : Bool)
    → IsBusy s active
    → schedule_begin k s c ≡ some (t, p, f)
    → (f ≡ false) × (t ≡ marked s c p) × ((s.procs p).running ≡ false)
unfolding schedule_begin
begin_inv k s t active c p f b h =
    let no_fast = slow k s active c b in
    let (best, e, m) = mark_running_inv s t c p _ f _ h in
    let picked : pick s.procs (s.rqs c).system_procs ≡ some p = rw no_fast at best in
    (e ∙ no_fast, m, (pick_best s.procs _ p picked).1)

active_inv :
    (active : ℕ → Option (ℕ × Bool)) (c d q : ℕ) (v : Option (ℕ × Bool)) (f : Bool)
    → put_active active c v d ≡ some (q, f)
    → ((d ≡ c) × (v ≡ some (q, f))) ⊎ (((d == c) ≡ false) × (active d ≡ some (q, f)))
active_inv active c d q v f h = elim (Bool-cases (d == c)) [
  | inl e ↦ inl ((==_iff d c).0 e, rw e at h)
  | inr e ↦ inr (e, rw e at h)
]

begin-IsBusy :
    (s : Sched) (active : ℕ → Option (ℕ × Bool)) (c p : ℕ)
    → IsBusy s active
    → active c ≡ none
    → (s.procs p).running ≡ false
    → IsBusy (marked s c p) (put_active active c (some (p, false)))
begin-IsBusy s active c p b free idle = record {
  current = λ d q h. elim (Bool-cases (d == c)) [
    | inl e ↦
        let h' : some p ≡ some q = (rw e at h) in
        rw e
          (ap (λ (x : ℕ). let y : Option (ℕ × Bool) = some (x, false) in y) (some-injective p q h'))
    | inr e ↦ rw e (b.current d q (rw e at h))
  ];
  busy = λ d q f h. elim (active_inv active c d q _ f h) [
    | inl (_, e) ↦
        let same : q ≡ p = cc e in
        let f_is : f ≡ false = cc e in let own = (==_iff q p).1 same in (rw own refl, f_is)
    | inr (_, e) ↦
        let (r, f_is) = b.busy d q f e in
        (if_elim (λ (x : Proc). x.running ≡ true) (q == p) refl r, f_is)
  ];
  apart = λ d d' q f g h h'. elim (active_inv active c d q _ f h) [
    | inl (x, e) ↦ elim (active_inv active c d' q _ g h') [
      | inl (y, _) ↦ x ∙ sym y
      | inr (_, e') ↦ clash p q f d' (cc e) idle (b.busy d' q g e').0
    ]
    | inr (_, e) ↦ elim (active_inv active c d' q _ g h') [
      | inl (y, e') ↦ clash p q f d' (cc e') idle (b.busy d q f e).0
      | inr (_, e') ↦ b.apart d d' q f g e e'
    ]
  ];
}
  where
    clash :
        (p q : ℕ) (f : Bool) (d' : ℕ) {x y : ℕ}
        → p ≡ q
        → (s.procs p).running ≡ false
        → (s.procs q).running ≡ true
        → x ≡ y
    clash p q f d' same idle runs =
        absurd (ground (arith, ap (λ (z : ℕ). (s.procs z).running) same, idle, runs))

wait_time_keeps :
    (s : Sched) (ps : List ℕ) (elapsed pid q : ℕ)
    → (((update_wait_time s ps elapsed pid).procs q).running ≡ (s.procs q).running)
      × ((update_wait_time s ps elapsed pid).rqs ≡ s.rqs)
unfolding update_wait_time
wait_time_keeps s [] elapsed pid q = (refl, refl)
wait_time_keeps s (p ∷ ps) elapsed pid q =
    let s' = put_proc s p (aged elapsed pid (s.procs p)) in
    let (r, e) = wait_time_keeps s' ps elapsed pid q in
    (
      r ∙ (elim (Bool-cases (q == p)) [
        | inr a ↦ rw a
        | inl a ↦
            rw (a, (==_iff q p).0 a)
              (if_elim (λ (x : Proc). x.running ≡ (s.procs p).running) ((s.procs p).pid == pid) refl
                refl)
      ]),
      e,
    )

end_flag :
    (s : Sched) (c p elapsed q : ℕ)
    → ((schedule_end s c p false elapsed).procs q).running
      ≡ (if q == p then false else (s.procs q).running)
unfolding schedule_end
end_flag s c p elapsed q =
    let w = wait_time_keeps s (s.rqs c).system_procs elapsed (s.procs p).pid q in
    elim (Bool-cases (q == p)) [ inr e ↦ rw e w.0 | inl e ↦ rw e refl ]

end_current :
    (s : Sched) (c p elapsed d : ℕ)
    → ((schedule_end s c p false elapsed).rqs d).curr_proc
      ≡ (if d == c then none else (s.rqs d).curr_proc)
unfolding schedule_end
end_current s c p elapsed d =
    let w = wait_time_keeps s (s.rqs c).system_procs elapsed (s.procs p).pid 0 in
    elim (Bool-cases (d == c)) [
      | inr e ↦ rw e (ap (λ (f : ℕ → Runqueue). (f d).curr_proc) w.1)
      | inl e ↦ rw e refl
    ]

end-IsBusy :
    (s : Sched) (active : ℕ → Option (ℕ × Bool)) (c p elapsed : ℕ)
    → IsBusy s active
    → active c ≡ some (p, false)
    → IsBusy (schedule_end s c p false elapsed) (put_active active c none)
end-IsBusy s active c p elapsed b here = record {
  current = λ d q h. elim (Bool-cases (d == c)) [
    | inl e ↦ cc (rw e at (sym (end_current s c p elapsed d) ∙ h))
    | inr e ↦ rw e (b.current d q (rw e at (sym (end_current s c p elapsed d) ∙ h)))
  ];
  busy = λ d q f h. elim (active_inv active c d q none f h) [
    | inl (_, e) ↦ cc e
    | inr (e, a) ↦
        let (r, f_is) = b.busy d q f a in
        (
          end_flag s c p elapsed q ∙ elim (Bool-cases (q == p)) [
            | inr other ↦ rw other r
            | inl same ↦
                let d_is = b.apart d c p f false (rw ((==_iff q p).0 same) at a) here in
                ground (arith, d_is, e)
          ],
          f_is,
        )
  ];
  apart = λ d d' q f g h h'. elim (active_inv active c d q none f h) [
    | inl (_, e) ↦ cc e
    | inr (_, e) ↦ elim (active_inv active c d' q none g h') [
      | inl (_, e') ↦ cc e'
      | inr (_, e') ↦ b.apart d d' q f g e e'
    ]
  ];
}

Step-IsBusy :
    (k : Kernel) (s t : System) → IsBusy s.sched s.active → Step k s t → IsBusy t.sched t.active
Step-IsBusy k s t b (begins c p fast free h a) =
    let (f_is, m, idle) = begin_inv k s.sched t.sched s.active c p fast b h in
    rw (a, m, f_is) (begin-IsBusy s.sched s.active c p b free idle)
Step-IsBusy k s t b (ends c p fast elapsed h e a) =
    let f_is = (b.busy c p fast h).1 in
    rw (a, e, f_is) (end-IsBusy s.sched s.active c p elapsed b (rw f_is at h))
Step-IsBusy k s t b (registers p idle e a) =
    rw (a, e) (Leaves-IsBusy s.sched _ s.active (register-Leaves k s.sched p idle) b)
Step-IsBusy k s t b (unregisters p e a) =
    rw (a, e) (Leaves-IsBusy s.sched _ s.active (unregister-Leaves k s.sched p) b)
Step-IsBusy k s t b (migrates p mask e a) =
    rw (a, e) (Leaves-IsBusy s.sched _ s.active (affinity-Leaves k s.sched p mask) b)
Step-IsBusy k s t b (balances e a) =
    rw a (Leaves-IsBusy s.sched t.sched s.active (balance-Leaves k s.sched t.sched e) b)

Reach-IsBusy :
    (k : Kernel) (s : System) {t : System} → IsQuiet s → Reach k s t → IsBusy t.sched t.active
Reach-IsBusy k s q start = record {
  current = λ c p h. cc (sym (q c).1 ∙ h);
  busy = λ c p f h. cc (sym (q c).0 ∙ h);
  apart = λ c d p f g h _. cc (sym (q c).0 ∙ h);
}
Reach-IsBusy k s q (later {t} {u} r st) = Step-IsBusy k t u (Reach-IsBusy k s q r) st

-- From a state in which no slice goes on and no queue has a current proc, whatever calls begin and
-- end on the CPUs, one at a time on each, and whatever procs are unregistered, moved, or registered
-- while they do not run: no call takes the fast path, and each call chooses an idle proc.
pub fast_path_is_dead :
    (k : Kernel) (s t : System) (c p : ℕ) (fast : Bool) (u : Sched)
    → IsQuiet s
    → Reach k s t
    → schedule_begin k t.sched c ≡ some (u, p, fast)
    → (fast ≡ false) × ((t.sched.procs p).running ≡ false)
fast_path_is_dead k s t c p fast u q r h =
    let (f_is, _, idle) = begin_inv k t.sched u t.active c p fast (Reach-IsBusy k s q r) h in
    (f_is, idle)
