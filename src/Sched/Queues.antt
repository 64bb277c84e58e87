-- ===== src/Sched/Queues.antt =====
-- The queues of kernel/kds/proc.c: how often a proc stands on them, and the invariant that it
-- stands at most once, on the queue of its CPU, which counts its procs.
use kdbs.Common.{
  ap, ℕ, suc, ◌+◌, ◌-◌, ◌%◌, ◌^◌, ◌≤◌, ◌<◌, ◌≡◌, refl, List, [], ◌∷◌, ◌++◌, length, length-append,
  arith, ◌==◌, if◌then◌else◌,
}
use kdbs.Sched.{
  Balanced, balanced, joins, Kind, system, session, Proc, Tree, leaf, node, Runqueue, Sched, Kernel,
  remove, rb_link,
}

abbrev pub count : ℕ → List ℕ → ℕ
count p [] = 0
count p (q ∷ qs) = (if q == p then 1 else 0) + count p qs

abbrev pub in_order : Tree → List ℕ
in_order leaf = []
in_order (node l e r) = in_order l ++ e ∷ in_order r

abbrev pub of_kind : Kind → List ℕ → List ℕ → List ℕ
of_kind system xs ys = xs
of_kind session xs ys = ys

-- How often a proc of a kind stands on a queue, and on the other list of the queue.
abbrev pub queued : Runqueue → ℕ → Kind → ℕ
queued rq p kind = count p (of_kind kind rq.system_procs (in_order rq.session_procs))

abbrev pub astray : Runqueue → ℕ → Kind → ℕ
astray rq p kind = count p (of_kind kind (in_order rq.session_procs) rq.system_procs)

abbrev pub queue_length : Runqueue → ℕ
queue_length rq = length rq.system_procs + length (in_order rq.session_procs)

-- How often a proc stands on the queue of its CPU.
abbrev pub at_home : Sched → ℕ → ℕ
at_home s p = queued (s.rqs (s.procs p).cpu) p (s.procs p).kind

pub record IsQueued (procs : ℕ → Proc) (rqs : ℕ → Runqueue) : Type 0 where
  pub counted : (c : ℕ) → (rqs c).nr_running ≡ queue_length (rqs c) % 2 ^ 32
  pub once : (p c : ℕ) → queued (rqs c) p (procs p).kind ≤ 1
  pub sorted : (p c : ℕ) → astray (rqs c) p (procs p).kind ≡ 0
  pub placed : (p c : ℕ) → 0 < queued (rqs c) p (procs p).kind → (procs p).cpu ≡ c

abbrev pub IsSched : Sched → Type 0
IsSched s = IsQueued s.procs s.rqs

-- The documented contract of the kernel's tree: balancing keeps the order of the nodes, and a node
-- that is in the tree is taken out of that order.
pub record KeepsOrder (k : Kernel) : Type 0 where
  pub balanced : (t : Tree) → in_order (k.insert_color t) ≡ in_order t
  pub erased :
      (p : ℕ) (t : Tree) → 0 < count p (in_order t) → in_order (k.erase p t) ≡ remove p (in_order t)

abbrev pub hits : ℕ → ℕ → ℕ
hits p q = if p == q then 1 else 0

pub count-append : (q : ℕ) (xs ys : List ℕ) → count q (xs ++ ys) ≡ count q xs + count q ys
count-append q [] ys = omega arith
count-append q (x ∷ xs) ys = omega (arith, count-append q xs ys)

pub count-remove : (p q : ℕ) (xs : List ℕ) → count q (remove p xs) ≡ count q xs - hits p q
count-remove p q [] = ground arith
count-remove p q (x ∷ xs) = ground (arith, count-remove p q xs)

pub length-remove : (p : ℕ) (xs : List ℕ) → 0 < count p xs → length (remove p xs) + 1 ≡ length xs
length-remove p [] h = absurd (omega arith)
length-remove p (x ∷ xs) h = ground (arith, length-remove p xs)

pub count-rb_link :
    (procs : ℕ → Proc) (t : Tree) (p q : ℕ)
    → count q (in_order (rb_link procs t p)) ≡ count q (in_order t) + hits p q
unfolding rb_link
count-rb_link procs leaf p q = omega arith
count-rb_link procs (node l e r) p q = ground (
  arith,
  count-rb_link procs l p q,
  count-rb_link procs r p q,
  count-append q (in_order l) (e ∷ in_order r),
  count-append q (in_order l) (e ∷ in_order (rb_link procs r p)),
  count-append q (in_order (rb_link procs l p)) (e ∷ in_order r),
)

pub length-rb_link :
    (procs : ℕ → Proc) (t : Tree) (p : ℕ)
    → length (in_order (rb_link procs t p)) ≡ suc (length (in_order t))
unfolding rb_link
length-rb_link procs leaf p = refl
length-rb_link procs (node l e r) p = ground (
  arith,
  length-rb_link procs l p,
  length-rb_link procs r p,
  length-append (in_order l) (e ∷ in_order r),
  length-append (in_order l) (e ∷ in_order (rb_link procs r p)),
  length-append (in_order (rb_link procs l p)) (e ∷ in_order r),
)

-- The state in which a load balance ends.
abbrev state_of : Sched → Balanced → Sched
state_of s (balanced t) = t
state_of s (joins j) = s

pub balanced-injective : (t u : Sched) → balanced t ≡ balanced u → t ≡ u
balanced-injective t u e = ap (state_of t) e
