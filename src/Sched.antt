-- ===== src/Sched.antt =====
-- The scheduler of kernel/kds/proc.c and include/linux/kds_proc.h. A proc is named by its address;
-- a list of procs is the sequence of their addresses, and the red-black tree of the kernel a binary
-- tree whose rebalancing is a parameter. An `int` is its 32-bit pattern.
pub mod Queues
pub mod Links
pub mod Shifts
pub mod Moves
pub mod Places
pub mod Service
pub mod Balance
pub mod Pick
pub mod Flags
pub mod Threads
pub mod FastPath
pub mod Rounds
pub mod Fairness
pub mod Tests
use kdbs.Common.{
  ℕ, zero, suc, ◌+◌, ◌-◌, ◌%◌, ◌^◌, Bool, true, false, not, ◌&&◌, List, [], ◌∷◌, ◌++◌, map, Option,
  none, some, ltb, leb, ◌==◌, if◌then◌else◌, Result, ok, err, einval,
}
use mathlib.Core.Option.{get_or}

pub data Kind : Type 0 where
  system session : Kind

pub data ProcState : Type 0 where
  ready run wait done : ProcState

-- `kds_proc_t`; `has_run` tells that the function pointer `run` is not NULL.
pub record Proc : Type 0 where
  pub pid : ℕ
  pub kind : Kind
  pub state : ProcState
  pub static_prio : ℕ
  pub dynamic_prio : ℕ
  pub last_run_ns : ℕ
  pub total_runtime_ns : ℕ
  pub wait_time_ns : ℕ
  pub cpu : ℕ
  pub preferred_cpu : ℕ
  pub allowed_cpus : ℕ → Bool
  pub running : Bool
  pub has_run : Bool

-- The session procs, in the shape of the kernel's tree.
pub data Tree : Type 0 where
  leaf : Tree
  node : Tree → ℕ → Tree → Tree

-- `kds_runqueue_t`.
pub record Runqueue : Type 0 where
  pub system_procs : List ℕ
  pub session_procs : Tree
  pub curr_proc : Option ℕ
  pub total_runtime_ns : ℕ
  pub nr_running : ℕ

-- The procs in memory, the queue of each CPU, the next pid and `kds_sched_stats_t`.
pub record Sched : Type 0 where
  pub procs : ℕ → Proc
  pub rqs : ℕ → Runqueue
  pub next_pid : ℕ
  pub total_schedules : ℕ
  pub load_balances : ℕ
  pub migrations : ℕ

-- What the kernel gives: the number of CPU ids, which of them are online, and the functions of its
-- red-black tree that restore the balance after a link and take a node out.
pub record Kernel : Type 0 where
  pub nr_cpus : ℕ
  pub online : ℕ → Bool
  pub insert_color : Tree → Tree
  pub erase : ℕ → Tree → Tree

abbrev pub put_proc : Sched → ℕ → Proc → Sched
put_proc s p v = record s { procs = λ q. if q == p then v else s.procs q }

abbrev pub put_rq : Sched → ℕ → Runqueue → Sched
put_rq s c v = record s { rqs = λ d. if d == c then v else s.rqs d }

-- `a < b` of two ints.
abbrev pub int_lt : ℕ → ℕ → Bool
int_lt a b = ltb ((a + 2 ^ 31) % 2 ^ 32) ((b + 2 ^ 31) % 2 ^ 32)

abbrev pub int_min : ℕ
int_min = 2147483648

abbrev pub uint_max : ℕ
uint_max = 4294967295

abbrev pub inc_u32 : ℕ → ℕ
inc_u32 n = (n + 1) % 2 ^ 32

abbrev pub dec_u32 : ℕ → ℕ
dec_u32 n = (n + 2 ^ 32 - 1) % 2 ^ 32

abbrev pub count_up : ℕ → ℕ → List ℕ
count_up zero c = []
count_up (suc n) c = c ∷ count_up n (c + 1)

-- The ids of a mask, as `for_each_cpu` visits them.
abbrev pub select : (ℕ → Bool) → List ℕ → List ℕ
select mask [] = []
select mask (c ∷ cs) = if mask c then c ∷ select mask cs else select mask cs

abbrev pub cpus_of : Kernel → (ℕ → Bool) → List ℕ
cpus_of k mask = select mask (count_up k.nr_cpus 0)

abbrev pub is_empty {ℓ} : {A : Type ℓ} → List A → Bool
is_empty [] = true
is_empty (x ∷ xs) = false

-- `cpumask_first`: the number of CPU ids where the mask is empty.
abbrev pub first_or : ℕ → List ℕ → ℕ
first_or d [] = d
first_or d (c ∷ cs) = c

abbrev pub length_u32 : List ℕ → ℕ
length_u32 [] = 0
length_u32 (c ∷ cs) = inc_u32 (length_u32 cs)

-- `list_del_init` of one entry.
abbrev pub remove : ℕ → List ℕ → List ℕ
remove p [] = []
remove p (q ∷ qs) = if q == p then qs else q ∷ remove p qs

-- `kds_sched_init`; the zero-filled tree root is the empty tree.
unfoldable pub sched_init : Kernel → Sched → Sched
sched_init k s = record s {
  rqs = λ c.
      if ltb c k.nr_cpus
      then record {
        system_procs = [];
        session_procs = leaf;
        curr_proc = none;
        total_runtime_ns = 0;
        nr_running = 0;
      }
      else s.rqs c;
  total_schedules = 0;
  load_balances = 0;
  migrations = 0;
}

abbrev pub calc_dynamic_prio : Proc → ℕ
calc_dynamic_prio p = p.dynamic_prio

-- The walk of `kds_session_rb_insert` to the place of the new node.
unfoldable pub rb_link : (ℕ → Proc) → Tree → ℕ → Tree
rb_link procs leaf p = node leaf p leaf
rb_link procs (node l e r) p =
    let left = rb_link procs l p in
    let right = rb_link procs r p in
    if int_lt (procs p).static_prio (procs e).static_prio then node left e r else node l e right

-- The fold of a scan for the least loaded CPU: the least load and the CPU that has it.
abbrev pub less_loaded : (ℕ → Runqueue) → ℕ × Option ℕ → ℕ → ℕ × Option ℕ
less_loaded rqs (load, best) c =
    if ltb (rqs c).nr_running load then ((rqs c).nr_running, some c) else (load, best)

abbrev pub more_loaded : (ℕ → Runqueue) → ℕ × Option ℕ → ℕ → ℕ × Option ℕ
more_loaded rqs (load, best) c =
    if ltb load (rqs c).nr_running then ((rqs c).nr_running, some c) else (load, best)

abbrev pub fold {ℓ κ} : {A : Type ℓ} {B : Type κ} → (B → A → B) → B → List A → B
fold f b [] = b
fold f b (x ∷ xs) = fold f (f b x) xs

module _ (k : Kernel) where
  -- `kds_select_cpu`.
  unfoldable pub select_cpu : Sched → Proc → ℕ
  select_cpu s p =
      let cpus = cpus_of k p.allowed_cpus in
      let (_, best) = fold (less_loaded s.rqs) (uint_max, none) cpus in
      let other = get_or best (first_or k.nr_cpus cpus) in
      if ltb p.preferred_cpu (2 ^ 31)
        && p.allowed_cpus p.preferred_cpu
        && ltb (s.rqs p.preferred_cpu).nr_running uint_max
      then p.preferred_cpu
      else other

  abbrev pub link : (ℕ → Proc) → Runqueue → ℕ → Kind → Runqueue
  link procs rq p system = record rq { system_procs = rq.system_procs ++ p ∷ [] }
  link procs rq p session = record rq {
    session_procs = k.insert_color (rb_link procs rq.session_procs p);
  }

  abbrev pub unlink : Runqueue → ℕ → Kind → Runqueue
  unlink rq p system = record rq { system_procs = remove p rq.system_procs }
  unlink rq p session = record rq { session_procs = k.erase p rq.session_procs }

  -- A proc is put on the queue of a CPU, as its callers do it under the lock of the queue.
  unfoldable pub enqueue : Sched → ℕ → ℕ → Sched
  enqueue s c p =
      let rq = s.rqs c in
      let rq' = link s.procs rq p (s.procs p).kind in
      put_rq s c (record rq' { nr_running = inc_u32 rq.nr_running })

  unfoldable pub dequeue : Sched → ℕ → ℕ → Sched
  dequeue s c p =
      let rq = s.rqs c in
      let rq' = unlink rq p (s.procs p).kind in
      put_rq s c (record rq' { nr_running = dec_u32 rq.nr_running })

  -- The fields that `kds_proc_register` resets.
  abbrev pub registered : Sched → Proc → Proc
  registered s p =
      let p' = record p {
        state = ready;
        last_run_ns = 0;
        total_runtime_ns = 0;
        wait_time_ns = 0;
        pid = s.next_pid;
        running = false;
      } in
      if is_empty (cpus_of k p.allowed_cpus) then record p' { allowed_cpus = k.online } else p'

  -- `kds_proc_register` of a pointer that is not NULL.
  unfoldable pub proc_register : Sched → ℕ → Sched × Result (Unit {0})
  proc_register s p =
      let v = registered s (s.procs p) in
      let c = select_cpu s v in
      let s' = record s { next_pid = (s.next_pid + 1) % 2 ^ 64 } in
      if not (s.procs p).has_run
      then (s, err einval)
      else (enqueue (put_proc s' p (record v { cpu = c; preferred_cpu = c })) c p, ok tt)

  unfoldable pub proc_unregister : Sched → ℕ → Sched
  proc_unregister s p = dequeue s (s.procs p).cpu p

  -- `kds_proc_set_affinity` of a pointer that is not NULL.
  unfoldable pub set_affinity : Sched → ℕ → (ℕ → Bool) → Sched × Result (Unit {0})
  set_affinity s p mask =
      let v = record (s.procs p) { allowed_cpus = mask } in
      let s1 = dequeue s (s.procs p).cpu p in
      let c = select_cpu s1 v in
      let s2 = enqueue (put_proc s1 p (record v { cpu = c })) c p in
      if is_empty (cpus_of k mask)
      then (s, err einval)
      else if mask (s.procs p).cpu
      then (put_proc s p v, ok tt)
      else (record s2 { migrations = (s.migrations + 1) % 2 ^ 64 }, ok tt)

-- `kds_update_wait_time` of one proc.
abbrev pub aged : ℕ → ℕ → Proc → Proc
aged elapsed pid p =
    if p.pid == pid
    then record p {
      last_run_ns = elapsed;
      total_runtime_ns = (p.total_runtime_ns + elapsed) % 2 ^ 64;
      wait_time_ns = 0;
    }
    else record p {
      wait_time_ns = (p.wait_time_ns + elapsed) % 2 ^ 64;
      dynamic_prio = inc_u32 p.dynamic_prio;
    }

-- `kds_update_wait_time`, over the procs of a queue.
unfoldable pub update_wait_time : Sched → List ℕ → ℕ → ℕ → Sched
update_wait_time s [] elapsed pid = s
update_wait_time s (p ∷ ps) elapsed pid =
    update_wait_time (put_proc s p (aged elapsed pid (s.procs p))) ps elapsed pid

-- One round of the scan for the next proc: the best priority and the proc that has it.
abbrev pub better : (ℕ → Proc) → ℕ × Option ℕ → ℕ → ℕ × Option ℕ
better procs (prio, best) p =
    let v = procs p in
    if not v.running && int_lt prio (calc_dynamic_prio v)
    then (calc_dynamic_prio v, some p)
    else (prio, best)

unfoldable pub pick : (ℕ → Proc) → List ℕ → Option ℕ
pick procs ps = (fold (better procs) (int_min, none) ps).1

abbrev pub is_idle : (ℕ → Proc) → Option ℕ → Bool
is_idle procs none = false
is_idle procs (some p) = not (procs p).running

-- `kds_proc_schedule` up to the run: the state with the chosen proc marked, the proc, and whether
-- the fast path was taken.
unfoldable pub mark_running : Sched → ℕ → Bool → Option ℕ → Option (Sched × ℕ × Bool)
mark_running s c fast none = none
mark_running s c fast (some p) =
    let s' = put_proc s p (record (s.procs p) { running = true; state = run }) in
    some (put_rq s' c (record (s.rqs c) { curr_proc = some p }), p, fast)

abbrev pub takes_fast_path : Kernel → Sched → ℕ → Bool
takes_fast_path k s c =
    ltb (s.rqs c).nr_running (length_u32 (cpus_of k k.online))
    && is_idle s.procs (s.rqs c).curr_proc

unfoldable pub schedule_begin : Kernel → Sched → ℕ → Option (Sched × ℕ × Bool)
schedule_begin k s c =
    let fast = takes_fast_path k s c in
    mark_running s c fast
      (if fast then (s.rqs c).curr_proc else pick s.procs (s.rqs c).system_procs)

-- The rest of it, after the proc has run for a time.
unfoldable pub schedule_end : Sched → ℕ → ℕ → Bool → ℕ → Sched
schedule_end s c p fast elapsed =
    let s1 = update_wait_time s (s.rqs c).system_procs elapsed (s.procs p).pid in
    let rq = s1.rqs c in
    let rq1 = record rq { total_runtime_ns = (rq.total_runtime_ns + elapsed) % 2 ^ 64 } in
    let s2 = put_proc s1 p (record (s1.procs p) { running = false }) in
    let rq2 = if fast then rq1 else record rq1 { curr_proc = none } in
    record (put_rq s2 c rq2) { total_schedules = (s.total_schedules + 1) % 2 ^ 64 }

abbrev pub schedule_rest : (Sched → Sched) → ℕ → Sched → ℕ → Option (Sched × ℕ × Bool) → Sched
schedule_rest work elapsed s c none = s
schedule_rest work elapsed s c (some (t, p, fast)) = schedule_end (work t) c p fast elapsed

-- `kds_proc_schedule`, with what the proc and other threads do to the scheduler meanwhile.
unfoldable pub proc_schedule : Kernel → (Sched → Sched) → ℕ → Sched → ℕ → Sched
proc_schedule k work elapsed s c = schedule_rest work elapsed s c (schedule_begin k s c)

unfoldable pub proc_schedule_all : Kernel → (Sched → Sched) → (ℕ → ℕ) → Sched → Sched
proc_schedule_all k work elapsed s =
    fold (λ t c. proc_schedule k work (elapsed c) t c) s (cpus_of k k.online)

-- KDS_LOAD_BALANCE_THRESHOLD.
abbrev pub threshold : ℕ
threshold = 2

-- The search of a load balance for a proc that can move to CPU `c`.
unfoldable pub find_movable : (ℕ → Proc) → ℕ → List ℕ → Option ℕ
find_movable procs c [] = none
find_movable procs c (p ∷ ps) =
    if not (procs p).running && (procs p).allowed_cpus c then some p else find_movable procs c ps

-- One proc moves from the end of the search on.
unfoldable pub move : Sched → ℕ → ℕ → ℕ → Sched
move s from to p =
    let src = s.rqs from in
    let s1 = put_rq s from (record src {
      system_procs = remove p src.system_procs;
      nr_running = dec_u32 src.nr_running;
    }) in
    let dst = s1.rqs to in
    let s2 = put_rq s1 to (record dst {
      system_procs = dst.system_procs ++ p ∷ [];
      nr_running = inc_u32 dst.nr_running;
    }) in
    record (put_proc s2 p (record (s.procs p) { cpu = to })) {
      load_balances = (s.load_balances + 1) % 2 ^ 64;
      migrations = (s.migrations + 1) % 2 ^ 64;
    }

-- An entry of a queue's list: a proc, or the list head of a queue, which the loops over the list
-- take for one.
pub data RingEntry : Type 0 where
  a_proc : ℕ → RingEntry
  head_of : ℕ → RingEntry

-- Two queues whose lists are one ring, as each of the two heads sees it; the other fields of the
-- queues are in `sched`.
pub record Joined : Type 0 where
  pub sched : Sched
  pub src_ring : List RingEntry
  pub dst_ring : List RingEntry

pub data Balanced : Type 0 where
  balanced : Sched → Balanced
  joins : Joined → Balanced

-- A search that finds nothing leaves the cursor of `list_for_each_entry` on the head of the source's
-- list, which is not NULL. The head is unlinked, so that its procs stay behind in a ring without a
-- head, and is put at the end of the other list. The store of the CPU goes to the memory around the
-- head, which is not modelled.
unfoldable pub join_heads : Sched → ℕ → ℕ → Joined
join_heads s from to =
    let src = s.rqs from in
    let s1 =
      put_rq s from (record src { system_procs = []; nr_running = dec_u32 src.nr_running }) in
    let dst = s1.rqs to in
    let s2 = put_rq s1 to (record dst { system_procs = []; nr_running = inc_u32 dst.nr_running }) in
    record {
      sched = record s2 {
        load_balances = (s.load_balances + 1) % 2 ^ 64;
        migrations = (s.migrations + 1) % 2 ^ 64;
      };
      src_ring = head_of to ∷ map a_proc dst.system_procs;
      dst_ring = map a_proc dst.system_procs ++ (head_of from ∷ []);
    }

abbrev pub move_found : Sched → ℕ → ℕ → Option ℕ → Balanced
move_found s from to none = joins (join_heads s from to)
move_found s from to (some p) = balanced (move s from to p)

-- `kds_load_balance` after the scans for the greatest and the least load, each with its CPU.
unfoldable pub balance_between : Sched → ℕ × Option ℕ → ℕ × Option ℕ → Balanced
balance_between s (hi, none) (lo, to) = balanced s
balance_between s (hi, some from) (lo, none) = balanced s
balance_between s (hi, some from) (lo, some to) =
    let found = find_movable s.procs to (s.rqs from).system_procs in
    if leb ((hi + 2 ^ 32 - lo) % 2 ^ 32) threshold then balanced s else move_found s from to found

unfoldable pub load_balance : Kernel → Sched → Balanced
load_balance k s =
    let cpus = cpus_of k k.online in
    balance_between s (fold (more_loaded s.rqs) (0, none) cpus)
      (fold (less_loaded s.rqs) (uint_max, none) cpus)
