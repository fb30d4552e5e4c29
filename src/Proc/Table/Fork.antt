-- ===== src/Proc/Table/Fork.antt =====
-- userinit, kfork and kexit on the process table. Memory and files are arguments: whether allocproc
-- finds memory and whether uvmcopy copies it. kexit's closing of files changes no other field here.
use hai_os.Base.{
  ℕ, ◌+◌, ◌≡◌, refl, ◌≢◌, ◌⊎◌, inl, inr, Bool, true, false, Option, none, some, ◌==◌, if◌then◌else◌,
  All, set_with, get_elem?, get_elem?-set_with_self, ℤ, Run, ok, panic,
}
use hai_os.Base.{map_some}
use hai_os.Proc.{unused, runnable, Proc, claim, freeproc, start_child, refill, become_zombie}
use hai_os.Proc.Table.{Table, allocproc, wakeup}
use hai_os.Proc.Table.Pids.{PidsUnique, Allocated, allocproc-Allocated}
use hai_os.Proc.Table.Family.{reparent}

-- `np->parent = p` and the end of kfork.
abbrev pub child_of : ℕ → ℕ → Proc → Proc
child_of me ticks np = start_child (record np { parent = some me }) ticks

-- kfork after allocproc.
forked : ℕ → ℕ → Bool → Table × ℕ × Option ℕ → Table × ℕ × Option ℕ
unfolding start_child
forked me ticks copied (ps, n, none) = (ps, n, none)
forked me ticks copied (ps, n, some i) =
    if copied
    then (set_with ps i (child_of me ticks), n, map_some (λ (p : Proc). p.pid) (get_elem? ps i))
    else (set_with ps i freeproc, n, none)

-- kfork by the process in slot `me`: the table, `nextpid`, and the child's pid or -1.
unfoldable pub kfork : Table → ℕ → ℕ → ℕ → Bool → Bool → Table × ℕ × Option ℕ
unfolding forked allocproc
kfork ps me nextpid ticks memory copied = forked me ticks copied (allocproc ps nextpid ticks memory)

-- userinit after allocproc, for the slot that it gave.
unfoldable pub start_first : Table → ℕ → ℕ → Table
unfolding start_child
start_first ps i ticks = set_with ps i (λ p. start_child p ticks)

-- kexit by the process in slot `me`, whose parent is in slot `parent`, up to its call of sched.
-- `chan` gives the channel of a slot.
unfoldable pub kexit : (ℕ → ℕ) → Table → ℕ → ℕ → ℕ → ℤ → ℕ → Run Table
unfolding reparent wakeup become_zombie
kexit chan ps me init parent status ticks =
    if me == init
    then panic "init exiting"
    else ok (
        set_with (wakeup (some me) (reparent me init (chan init) ticks ps) (chan parent) ticks) me
          (λ p. become_zombie p status))

-- What kfork did: a slot that was free holds a RUNNABLE child of the caller under the pid that it
-- gives, marked as killed as the free slot was; or it gives -1, because memory ran out, the copy
-- failed, or no slot is free.
abbrev pub Forked : Table → ℕ → ℕ → Bool → Bool → Table × ℕ × Option ℕ → Type 0
Forked ps me nextpid memory copied (qs, n, some pid) =
    (pid ≡ nextpid)
    × (n ≡ nextpid + 1)
    × ((i : ℕ) × (p : Proc) × (q : Proc) × (get_elem? ps i ≡ some p)
        × (p.state ≡ unused)
        × (get_elem? qs i ≡ some q)
        × (q.state ≡ runnable)
        × (q.parent ≡ some me)
        × (q.pid ≡ pid)
        × (q.killed ≡ p.killed))
Forked ps me nextpid memory copied (qs, n, none) =
    (memory ≡ false) ⊎ ((copied ≡ false) ⊎ ((qs ≡ ps) × All (λ p. p.state ≢ unused) ps))

child_fields :
    (me ticks nextpid : ℕ) (p : Proc)
    → let q = child_of me ticks (claim p nextpid ticks) in
      (q.state ≡ runnable) × (q.parent ≡ some me) × (q.pid ≡ nextpid) × (q.killed ≡ p.killed)
unfolding start_child claim refill
child_fields me ticks nextpid p = (refl, refl, refl, refl)

claim-pid : (p : Proc) (nextpid ticks : ℕ) → (claim p nextpid ticks).pid ≡ nextpid
unfolding claim
claim-pid p nextpid ticks = refl

forked-Forked :
    (ps : Table) (me nextpid ticks : ℕ) (memory copied : Bool) (out : Table × ℕ × Option ℕ)
    → Allocated ps nextpid ticks memory out
    → Forked ps me nextpid memory copied (forked me ticks copied out)
unfolding forked
forked-Forked ps me nextpid ticks memory copied (qs, n, none) (inl m) = inl m.0
forked-Forked ps me nextpid ticks memory copied (qs, n, none) (inr h) = inr (inr (h.0, h.2))
forked-Forked ps me nextpid ticks memory false (qs, n, some i) h = inr (inl refl)
forked-Forked ps me nextpid ticks memory true (qs, n, some i)
      (p, g, u, g', en, m, new_pid, now_used, rest) =
    let f = child_fields me ticks nextpid p in
    rw (g', claim-pid p nextpid ticks)
      (
        refl,
        en,
        (
          i,
          p,
          child_of me ticks (claim p nextpid ticks),
          g,
          u,
          get_elem?-set_with_self qs i (child_of me ticks) (claim p nextpid ticks) g',
          f.0,
          f.1,
          f.2,
          f.3,
        ),
      )

-- kfork on a table with unique pids: it puts a RUNNABLE child of the caller under the next pid into
-- a slot that was free, and gives that pid, and the child is marked as killed exactly if the free
-- slot was; or it gives -1, and then memory ran out, or the copy of the memory failed, or no slot was
-- free and the table is as before.
pub kfork-Forked :
    (ps : Table) (me nextpid ticks : ℕ) (memory copied : Bool)
    → PidsUnique ps nextpid
    → Forked ps me nextpid memory copied (kfork ps me nextpid ticks memory copied)
unfolding kfork
kfork-Forked ps me nextpid ticks memory copied v =
    forked-Forked ps me nextpid ticks memory copied (allocproc ps nextpid ticks memory)
      (allocproc-Allocated ps nextpid ticks memory v).1
