-- ===== src/Kalloc/Init.antt =====
-- kinit: every whole page between the kernel's end and the top of memory becomes free.
use hai_os.Base.{
  ℕ, zero, suc, ◌+◌, ◌-◌, ◌*◌, ◌/◌, ◌%◌, ◌≤◌, ◌<◌, ◌≡◌, refl, ◌↔◌, inl, inr, true, false, List, [],
  ◌∷◌, arith, ltb, leb, if◌then◌else◌, Bool-cases, length, All, ok, count, add32, update_self,
}
use hai_os.Params.{pgsize, pgroundup, phystop}
use hai_os.Kalloc.{Kmem, pa_to_idx, push_free, kfree, free_pages_from, freerange, kinit, krefcount}
use hai_os.Kalloc.Invariant.{Chain, IsPage, Inv, Chain-update}

-- freerange has freed the pages `xs`, those from `start` up to `p`.
record Sweeping (start p : ℕ) (k : Kmem) (xs : List ℕ) : Type 0 where
  chain : Chain k.next k.freelist xs
  pages : All (IsPage start) xs
  swept : (q : ℕ) → IsPage start q → count q xs ≡ (if ltb q p then 1 else 0)
  cleared : (i : ℕ) → k.refcnt i ≡ 0
  counted : k.free_pages ≡ length xs
  total : k.total_pages ≡ length xs
  reached : p ≡ start + pgsize * length xs
  top : p ≤ phystop
  unready : k.ready ≡ false

abbrev counted_page : Kmem → Kmem
counted_page k = record k { total_pages = add32 k.total_pages 1 }

-- Before `ready` a page with count 0 may be freed.
kfree_unready :
    (end p : ℕ) (k : Kmem)
    → IsPage end p
    → k.ready ≡ false
    → k.refcnt (pa_to_idx p) ≡ 0
    → kfree end k p ≡ ok (push_free k p)
unfolding kfree
kfree_unready end p k hp r z = ground arith

push_free-Sweeping :
    (start p : ℕ) (k : Kmem) (xs : List ℕ)
    → start % pgsize ≡ 0
    → p + pgsize ≤ phystop
    → Sweeping start p k xs
    → Sweeping start (p + pgsize) (push_free (counted_page k) p) (p ∷ xs)
unfolding push_free
push_free-Sweeping start p k xs al room v = record {
  chain = (
    refl,
    rw (update_self k.next p k.freelist)
        (Chain-update k.next p k.freelist k.freelist xs out v.chain),
  );
  pages = (hp, v.pages);
  swept = λ q hq. ground (arith, v.swept q hq, omega_page q hq);
  cleared = λ i. ground (arith, v.cleared i);
  counted = omega (arith, v.counted, v.reached);
  total = omega (arith, v.total, v.reached);
  reached = omega (arith, v.reached);
  top = room;
  unready = v.unready;
}
  where
    hp : IsPage start p
    hp = omega (arith, v.reached)

    out : count p xs ≡ 0
    out = ground (arith, v.swept p hp)

    omega_page : (q : ℕ) → IsPage start q → q < p + pgsize → p ≤ q → p ≡ q
    omega_page q hq a b = omega (arith, hp.0, hq.0)

sweep :
    (fuel : ℕ) (end start p : ℕ) (k : Kmem) (xs : List ℕ)
    → start % pgsize ≡ 0
    → end ≤ start
    → phystop < p + pgsize * fuel
    → Sweeping start p k xs
    → (k' : Kmem) × (ys : List ℕ) × (free_pages_from fuel end k p phystop ≡ ok k')
      × Sweeping start phystop k' ys
unfolding free_pages_from
sweep zero end start p k xs al le fuel v = absurd (omega (arith, v.top))
sweep (suc f) end start p k xs al le fuel v = elim (Bool-cases (leb (p + pgsize) phystop)) [
  | inl more ↦
      let room : p + pgsize ≤ phystop = ground arith in
      let (k', ys, e, w) =
        sweep f end start (p + pgsize) (push_free (counted_page k) p) (p ∷ xs) al le (omega arith)
          (push_free-Sweeping start p k xs al room v) in
      let freed : kfree end (counted_page k) p ≡ ok (push_free (counted_page k) p) =
        kfree_unready end p (counted_page k) (omega (arith, v.reached)) v.unready
          (v.cleared (pa_to_idx p)) in
      (k', ys, rw (more, freed) e, w)
  | inr done ↦
      let at_top : p ≡ phystop = ground (arith, v.reached, v.top) in
      (k, xs, rw done, rw at_top at v)
]

-- A page above the kernel's end lies above the end rounded up.
IsPage-pgroundup : (end p : ℕ) → end ≤ phystop → IsPage end p ↔ IsPage (pgroundup end) p
IsPage-pgroundup end p h =
    (λ hp. omega (arith, hp.0, hp.1, hp.2), λ hp. omega (arith, hp.0, hp.1, hp.2))

All-IsPage :
    (end : ℕ) (xs : List ℕ) → end ≤ phystop → All (IsPage (pgroundup end)) xs → All (IsPage end) xs
All-IsPage end [] h a = tt
All-IsPage end (x ∷ xs) h a = ((IsPage-pgroundup end x h).1 a.0, All-IsPage end xs h a.1)

Sweeping-Inv :
    (end : ℕ) (k : Kmem) (xs : List ℕ)
    → end ≤ phystop
    → Sweeping (pgroundup end) phystop k xs
    → Inv end (record k { ready = true }) xs []
unfolding krefcount
Sweeping-Inv end k xs h v = record {
  chain = v.chain;
  pages = All-IsPage end xs h v.pages;
  held_pages = tt;
  free = λ p hp.
      ground (arith, v.swept p ((IsPage-pgroundup end p h).0 hp), v.cleared (pa_to_idx p), hp.2);
  held = λ p hp. ground (arith, v.cleared (pa_to_idx p), hp.2);
  counted = v.counted;
  total = omega (arith, v.total);
  total_small = omega (arith, v.total, v.reached);
  refs_small = λ p hp. ground (arith, v.cleared (pa_to_idx p), hp.2);
}

-- kinit ends without a panic, ready, with all whole pages between the kernel's end and the top of
-- memory free, none in use, and their number as the total.
pub kinit_lem :
    (end : ℕ) (k : Kmem)
    → end ≤ phystop
    → k.freelist ≡ 0
    → ((i : ℕ) → k.refcnt i ≡ 0)
    → (k' : Kmem) × (xs : List ℕ) × (kinit end k ≡ ok k')
      × Inv end k' xs []
      × (k'.ready ≡ true)
      × (k'.total_pages ≡ (phystop - pgroundup end) / pgsize)
unfolding kinit freerange
kinit_lem end k h head clear =
    let k0 : Kmem = record k {
      total_pages = 0;
      free_pages = 0;
      low_warned = false;
      crit_warned = false;
      oom_warned = false;
      ready = false;
    } in
    let start = pgroundup end in
    let begin : Sweeping start start k0 [] = record {
      chain = head;
      pages = tt;
      swept = λ q hq. ground (arith, hq.1);
      cleared = clear;
      counted = refl;
      total = refl;
      reached = omega arith;
      top = omega arith;
      unready = refl;
    } in
    let (k', xs, e, w) =
      sweep (phystop / pgsize + 1) end start start k0 [] (omega arith) (omega arith) (omega arith)
        begin in
    (
      record k' { ready = true },
      xs,
      rw e,
      Sweeping-Inv end k' xs h w,
      refl,
      omega (arith, w.total, w.reached),
    )
