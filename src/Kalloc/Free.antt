-- ===== src/Kalloc/Free.antt =====
-- kfree: the counts it leaves, and the calls that it refuses.
use hai_os.Base.{
  ℕ, suc, ◌-◌, ◌^◌, ◌<◌, ◌≡◌, refl, inl, inr, List, ◌∷◌, arith, ◌==◌, if◌then◌else◌, ==→eq,
  Bool-cases, length, Run, ok, panic, count, erase, count-erase, length-erase, All-erase, update,
  update_self,
}
use hai_os.Kalloc.{Kmem, pa_to_idx, push_free, kfree, krefcount}
use hai_os.Kalloc.Invariant.{IsPage, Inv, Chain-update, krefcount-update}

-- What kfree makes of a page in use, by the count it had.
abbrev pub Freed : ℕ → Kmem → List ℕ → List ℕ → ℕ → Run Kmem → Type 0
Freed end k xs ys p (panic s) = ⊥
Freed end k xs ys p (ok k') =
    (if krefcount k p == 1 then Inv end k' (p ∷ xs) (erase p ys) else Inv end k' xs ys)
    × ((q : ℕ)
        → IsPage end q
        → krefcount k' q ≡ (if p == q then krefcount k p - 1 else krefcount k q))

-- kfree on a page whose count is above 1 writes the count and nothing else.
pub kfree_shared :
    (end : ℕ) (k : Kmem) (p : ℕ)
    → IsPage end p
    → 1 < krefcount k p
    → kfree end k p ≡ ok (record k { refcnt = update k.refcnt (pa_to_idx p) (krefcount k p - 1) })
unfolding kfree krefcount
kfree_shared end k p hp h = ground arith

kfree_last :
    (end : ℕ) (k : Kmem) (p : ℕ)
    → IsPage end p
    → krefcount k p ≡ 1
    → kfree end k p ≡ ok (push_free k p)
unfolding kfree krefcount
kfree_last end k p hp h = ground arith

push_free-refcnt : (k : Kmem) (p : ℕ) → (push_free k p).refcnt ≡ update k.refcnt (pa_to_idx p) 0
unfolding push_free
push_free-refcnt k p = refl

-- The page goes to the head of the list.
push_free-Inv :
    (end : ℕ) (k : Kmem) (xs ys : List ℕ) (p : ℕ)
    → IsPage end p
    → krefcount k p ≡ 1
    → ((q : ℕ) → IsPage end q → krefcount (push_free k p) q ≡ (if p == q then 0 else krefcount k q))
    → Inv end k xs ys
    → Inv end (push_free k p) (p ∷ xs) (erase p ys)
unfolding push_free
push_free-Inv end k xs ys p hp one counts v = record {
  chain = (
    refl,
    rw (update_self k.next p k.freelist)
        (Chain-update k.next p k.freelist k.freelist xs out v.chain),
  );
  pages = (hp, v.pages);
  held_pages = All-erase (IsPage end) p ys v.held_pages;
  free = λ q hq. ground (arith, v.free q hq, counts q hq, out);
  held = λ q hq. ground (arith, v.held q hq, counts q hq, count-erase p q ys);
  counted = omega (arith, v.counted, v.total, v.total_small, len);
  total = omega (arith, v.total, len);
  total_small = v.total_small;
  refs_small = λ q hq. ground (arith, v.refs_small q hq, counts q hq);
}
  where
    out : count p xs ≡ 0
    out = ground (arith, v.free p hp)

    len : suc (length (erase p ys)) ≡ length ys
    len = length-erase p ys (ground (arith, v.held p hp))

-- A count that stays positive changes nothing else.
pub recount-Inv :
    (end : ℕ) (k : Kmem) (xs ys : List ℕ) (p c : ℕ)
    → IsPage end p
    → 0 < krefcount k p
    → 0 < c
    → c < 2 ^ 16
    → Inv end k xs ys
    → Inv end (record k { refcnt = update k.refcnt (pa_to_idx p) c }) xs ys
recount-Inv end k xs ys p c hp was h small v = record {
  chain = v.chain;
  pages = v.pages;
  held_pages = v.held_pages;
  free = λ q hq. ground (arith, v.free q hq, counts q hq);
  held = λ q hq. ground (arith, v.held q hq, counts q hq);
  counted = v.counted;
  total = v.total;
  total_small = v.total_small;
  refs_small = λ q hq. ground (arith, v.refs_small q hq, counts q hq);
}
  where
    k' : Kmem
    k' = record k { refcnt = update k.refcnt (pa_to_idx p) c }

    counts : (q : ℕ) → IsPage end q → krefcount k' q ≡ (if p == q then c else krefcount k q)
    counts q hq = krefcount-update end k k' p q c refl hp hq

-- kfree on a page in use takes one from its count and from no other; the last reference puts the
-- page back on the free list.
pub kfree-Freed :
    (end : ℕ) (k : Kmem) (xs ys : List ℕ) (p : ℕ)
    → IsPage end p
    → 0 < krefcount k p
    → Inv end k xs ys
    → Freed end k xs ys p (kfree end k p)
kfree-Freed end k xs ys p hp h v = elim (Bool-cases (krefcount k p == 1)) [
  | inl e ↦
      let one : krefcount k p ≡ 1 = ==→eq _ _ e in
      let counts : (q : ℕ)
          → IsPage end q
          → krefcount (push_free k p) q ≡ (if p == q then 0 else krefcount k q) =
        λ q hq. krefcount-update end k (push_free k p) p q 0 (push_free-refcnt k p) hp hq in
      rw (kfree_last end k p hp one, one) (push_free-Inv end k xs ys p hp one counts v, counts)
  | inr e ↦
      let c = krefcount k p - 1 in
      let many : 1 < krefcount k p = ground arith in
      rw (kfree_shared end k p hp many, e)
        (
          recount-Inv end k xs ys p c hp h (omega arith) (omega (arith, v.refs_small p hp)) v,
          λ q hq. krefcount-update end k _ p q c refl hp hq,
        )
]
