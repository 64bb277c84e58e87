-- ===== src/Sched/Tests.antt =====
-- Three procs on the first of two CPUs.
use kdbs.Common.{
  ℕ, ◌+◌, ◌<◌, ◌≡◌, refl, ap, Bool, true, false, List, [], ◌∷◌, none, some, ok, arith, ◌==◌,
  if◌then◌else◌,
}
use kdbs.Sched.{
  Kernel, system, ready, run, Proc, Tree, leaf, node, Runqueue, Sched, remove, proc_register,
  set_affinity, schedule_begin, mark_running, pick, find_movable, move, balance_between,
  load_balance, balanced, Joined, joins,
}
use kdbs.Sched.Queues.{count, in_order, at_home, IsSched, KeepsOrder}
use kdbs.Sched.Links.{Nowhere}
use kdbs.Sched.Moves.{OthersStay}
use kdbs.Sched.Service.{register_places, affinity_moves}
use kdbs.Sched.Balance.{IsLost, balance_keeps, balance_corrupts}
use kdbs.Sched.Threads.{System, Reach, start, later, begins, put_active}
use kdbs.Sched.FastPath.{fast_path_is_dead}
use kdbs.Sched.Rounds.{IsWaiting, chosen, rounds}
use kdbs.Sched.Fairness.{waiting_runs}

abbrev comb : List ℕ → Tree
comb [] = leaf
comb (p ∷ ps) = node leaf p (comb ps)

in_order-comb : (ps : List ℕ) → in_order (comb ps) ≡ ps
in_order-comb [] = refl
in_order-comb (p ∷ ps) = ap (◌∷◌ p) (in_order-comb ps)

abbrev two_cpus : Kernel
two_cpus = record {
  nr_cpus = 2;
  online = λ _. true;
  insert_color = λ t. t;
  erase = λ p t. comb (remove p (in_order t));
}

two_cpus-KeepsOrder : KeepsOrder two_cpus
two_cpus-KeepsOrder = record {
  balanced = λ t. refl;
  erased = λ p t _. in_order-comb (remove p (in_order t));
}

abbrev proc : Bool → ℕ → Proc
proc running p = record {
  pid = p;
  kind = system;
  state = ready;
  static_prio = 0;
  dynamic_prio = p;
  last_run_ns = 0;
  total_runtime_ns = 0;
  wait_time_ns = 0;
  cpu = 0;
  preferred_cpu = 0;
  allowed_cpus = λ _. true;
  running = running;
  has_run = true;
}

abbrev queue : ℕ → List ℕ → Runqueue
queue n ps = record {
  system_procs = ps;
  session_procs = leaf;
  curr_proc = none;
  total_runtime_ns = 0;
  nr_running = n;
}

abbrev three : Bool → Sched
three running = record {
  procs = proc running;
  rqs = λ c. if c == 0 then queue 3 (1 ∷ 2 ∷ 3 ∷ []) else queue 0 [];
  next_pid = 4;
  total_schedules = 0;
  load_balances = 0;
  migrations = 0;
}

three-IsSched : (b : Bool) → IsSched (three b)
three-IsSched b = record {
  counted = λ c. ground arith;
  once = λ p c. ground arith;
  sorted = λ p c. ground arith;
  placed = λ p c h. ground (arith, h);
}

five-Nowhere : Nowhere (three false) 5
five-Nowhere c = ground arith

register_places_example :
    let (t, r) = proc_register two_cpus (three false) 5 in
    (r ≡ ok tt)
    × IsSched t
    × (at_home t 5 ≡ 1)
    × OthersStay (three false) t 5
    × ((t.procs 5).pid ≡ 4)
register_places_example =
    register_places two_cpus two_cpus-KeepsOrder (three false) (three-IsSched false) 5 refl
      five-Nowhere

affinity_moves_example :
    let (t, r) = set_affinity two_cpus (three false) 2 (λ c. c == 1) in
    (r ≡ ok tt)
    × IsSched t
    × ((q : ℕ) → at_home t q ≡ at_home (three false) q)
    × (((t.procs 2).cpu == 1) ≡ true)
affinity_moves_example =
    affinity_moves two_cpus two_cpus-KeepsOrder (three false) (three-IsSched false) 2 (λ c. c == 1)
      refl refl

balances : load_balance two_cpus (three false) ≡ balanced (move (three false) 0 1 1)
unfolding load_balance balance_between find_movable
balances = refl

balance_keeps_example :
    IsSched (move (three false) 0 1 1)
    × ((q : ℕ) → at_home (move (three false) 0 1 1) q ≡ at_home (three false) q)
balance_keeps_example =
    balance_keeps two_cpus two_cpus-KeepsOrder (three false) (three-IsSched false)
      (move (three false) 0 1 1) balances

balance_corrupts_example :
    (j : Joined) × (load_balance two_cpus (three true) ≡ joins j)
    × ((p : ℕ) → 0 < count p (1 ∷ 2 ∷ 3 ∷ []) → IsLost j p)
    × ((p : ℕ) → j.sched.procs p ≡ proc true p)
balance_corrupts_example =
    balance_corrupts two_cpus two_cpus-KeepsOrder (three true) (three-IsSched true) 0 1 3 0 refl
      refl (omega arith) (omega arith) (omega arith) (refl, (refl, (refl, tt)))

abbrev begun : Sched
begun = record (three false) {
  procs = λ p. if p == 3 then record (proc true 3) { state = run } else proc false p;
  rqs = λ c.
      if c == 0
      then record (queue 3 (1 ∷ 2 ∷ 3 ∷ [])) { curr_proc = some 3 }
      else (three false).rqs c;
}

three_begins : schedule_begin two_cpus (three false) 0 ≡ some (begun, 3, false)
unfolding schedule_begin mark_running pick
three_begins = refl

abbrev idle_threads : System
idle_threads = record { sched = three false; active = λ _. none }

abbrev one_thread : System
one_thread = record { sched = begun; active = put_active (λ _. none) 0 (some (3, false)) }

one_thread-Reach : Reach two_cpus idle_threads one_thread
one_thread-Reach = later start (begins 0 3 false refl three_begins refl)

abbrev begun_twice : Sched
begun_twice = record begun {
  procs = λ p. if p == 2 then record (proc true 2) { state = run } else begun.procs p;
  rqs =
      λ c. if c == 0 then record (queue 3 (1 ∷ 2 ∷ 3 ∷ [])) { curr_proc = some 2 } else begun.rqs c;
}

begun_begins : schedule_begin two_cpus begun 0 ≡ some (begun_twice, 2, false)
unfolding schedule_begin mark_running pick
begun_begins = refl

fast_path_is_dead_example : (◌≡◌ {A = Bool} false false) × ((begun.procs 2).running ≡ false)
fast_path_is_dead_example =
    fast_path_is_dead two_cpus idle_threads one_thread 0 2 false begun_twice
      (λ c. (refl, ground arith)) one_thread-Reach begun_begins

three-IsWaiting : IsWaiting (three false) 0 1
three-IsWaiting = record {
  no_current = refl;
  idle = λ p _. refl;
  once = λ p. ground arith;
  own_pid = λ p r _ _ e. e;
  small = λ p i. ground (arith, i);
  waits = omega arith;
}

waiting_runs_example :
    (n : ℕ) × (n < 6)
    × (chosen two_cpus (rounds two_cpus 0 (λ i. 10 + i) n (three false)) 0 ≡ some 1)
waiting_runs_example =
    waiting_runs two_cpus 0 1 6 (three false) (λ i. 10 + i) three-IsWaiting (omega arith)
