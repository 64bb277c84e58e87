-- ===== src/Sched/Threads.antt =====
-- The runs of the scheduler of kernel/kds/proc.c, as steps of threads that each hold one CPU.
use kdbs.Common.{ℕ, ◌≡◌, Bool, false, Option, none, some, ◌==◌, if◌then◌else◌}
use kdbs.Sched.{
  Kernel, Sched, proc_register, proc_unregister, set_affinity, balanced, load_balance,
  schedule_begin, schedule_end,
}

-- The scheduler, and for each CPU the proc whose slice goes on there, with the flag of its call.
pub record System : Type 0 where
  pub sched : Sched
  pub active : ℕ → Option (ℕ × Bool)

abbrev pub put_active : (ℕ → Option (ℕ × Bool)) → ℕ → Option (ℕ × Bool) → ℕ → Option (ℕ × Bool)
put_active f c v d = if d == c then v else f d

-- A call on a CPU begins or ends, or another operation happens in between; a proc is registered
-- while it does not run.
pub data Step (k : Kernel) (s t : System) : Type 0 where
  begins :
      (c p : ℕ) (fast : Bool)
      → s.active c ≡ none
      → schedule_begin k s.sched c ≡ some (t.sched, p, fast)
      → t.active ≡ put_active s.active c (some (p, fast))
      → Step k s t
  ends :
      (c p : ℕ) (fast : Bool) (elapsed : ℕ)
      → s.active c ≡ some (p, fast)
      → t.sched ≡ schedule_end s.sched c p fast elapsed
      → t.active ≡ put_active s.active c none
      → Step k s t
  registers :
      (p : ℕ)
      → (s.sched.procs p).running ≡ false
      → t.sched ≡ (proc_register k s.sched p).0
      → t.active ≡ s.active
      → Step k s t
  unregisters : (p : ℕ) → t.sched ≡ proc_unregister k s.sched p → t.active ≡ s.active → Step k s t
  migrates :
      (p : ℕ) (mask : ℕ → Bool)
      → t.sched ≡ (set_affinity k s.sched p mask).0
      → t.active ≡ s.active
      → Step k s t
  balances : load_balance k s.sched ≡ balanced t.sched → t.active ≡ s.active → Step k s t

pub data Reach (k : Kernel) (s : System) : System → Type 0 where
  start : Reach k s s
  later : {t u : System} → Reach k s t → Step k t u → Reach k s u
