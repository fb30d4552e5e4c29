-- ===== src/Pipe/Read.antt =====
-- What a pass of piperead does to the queue.
use hai_os.Base.{
  ℕ, zero, suc, ◌+◌, ◌%◌, ◌≡◌, refl, sym, ap, subst, ◌∙◌, ◌≢◌, ◌⊎◌, inl, inr, Bool, true, false,
  ◌&&◌, List, [], ◌∷◌, ◌++◌, arith, ◌==◌, if◌then◌else◌, ==→eq, Bool-cases, length, sub32,
}
use hai_os.Pipe.{Pipe, pipesize, is_empty, Ended, returns, fails, blocked, read_loop, piperead}
use hai_os.Pipe.Fifo.{contents, IsPipe, dropped, dropped-contents}

-- The copy loop of piperead from index `i`.
record Copied (left i : ℕ) (dst : ℕ → Bool) (pi : Pipe) (out : Pipe × List ℕ × Ended) : Type 0 where
  valid : IsPipe out.0
  taken : contents pi ≡ out.1 ++ contents out.0
  ended :
      (out.2 ≡ returns (i + length out.1))
        × ((length out.1 ≡ left) ⊎ (contents out.0 ≡ []) ⊎ (dst (i + length out.1) ≡ false))
      ⊎ ((out.2 ≡ fails) × (i ≡ 0) × (out.1 ≡ []) × (dst 0 ≡ false))

empty_contents : (pi : Pipe) → IsPipe pi → is_empty pi ≡ true → contents pi ≡ []
empty_contents pi v e =
    let z : sub32 pi.nwrite pi.nread ≡ 0 = let h = ==→eq _ _ e in omega arith in rw z

Copied-suc :
    (left i : ℕ) (dst : ℕ → Bool) (pi : Pipe) (out : Pipe × List ℕ × Ended)
    → IsPipe pi
    → is_empty pi ≡ false
    → Copied left (i + 1) dst (dropped pi) out
    → Copied (suc left) i dst pi (out.0, pi.bytes (pi.nread % pipesize) ∷ out.1, out.2)
Copied-suc left i dst pi out v e c =
    let at : i + suc (length out.1) ≡ i + 1 + length out.1 = omega arith in
    record {
      valid = c.valid;
      taken = (dropped-contents pi v e).1 ∙ ap (◌∷◌ (pi.bytes (pi.nread % pipesize))) c.taken;
      ended = rw at (elim c.ended [
        | inl (r, inl all) ↦ inl (r, inl (ap suc all))
        | inl (r, inr (inl none_left)) ↦ inl (r, inr (inl none_left))
        | inl (r, inr (inr stop)) ↦ inl (r, inr (inr stop))
        | inr (f, z, n, d) ↦ absurd (omega arith)
      ]);
    }

read_loop-Copied :
    (left i : ℕ) (dst : ℕ → Bool) (pi : Pipe)
    → IsPipe pi
    → Copied left i dst pi (read_loop left i dst pi)
unfolding read_loop
read_loop-Copied zero i dst pi v =
    let z : i + 0 ≡ i = omega arith in
    record { valid = v; taken = refl; ended = inl (rw z refl, inl refl) }
read_loop-Copied (suc left) i dst pi v = elim (Bool-cases (is_empty pi)) [
  | inl e ↦
      let z : i + 0 ≡ i = omega arith in
      rw e (record {
        valid = v;
        taken = refl;
        ended = inl (rw z refl, inr (inl (empty_contents pi v e)));
      })
  | inr e ↦ elim (Bool-cases (dst i)) [
    | inl d ↦
        rw (e, d, read_loop)
          (Copied-suc left i dst pi (read_loop left (i + 1) dst (dropped pi)) v e
            (read_loop-Copied left (i + 1) dst (dropped pi) (dropped-contents pi v e).0))
    | inr d ↦ rw (e, d, read_loop) (record { valid = v; taken = refl; ended = stopped d })
  ]
]
  where
    stopped :
        dst i ≡ false
        → ((if i == 0 then fails else returns i) ≡ returns (i + 0))
            × ((0 ≡ suc left) ⊎ (contents pi ≡ []) ⊎ (dst (i + 0) ≡ false))
          ⊎ (((if i == 0 then fails else returns i) ≡ fails)
              × (i ≡ 0)
              × (◌≡◌ {A = List ℕ} [] [])
              × (dst 0 ≡ false))
    stopped d = elim (Bool-cases (i == 0)) [
      | inl t ↦ inr (rw t, ==→eq i 0 t, refl, subst (λ k. dst k ≡ false) (==→eq i 0 t) d)
      | inr f ↦ let z : i + 0 ≡ i = omega arith in inl (rw (f, z), inr (inr (rw z d)))
    ]

-- What a pass of piperead did.
pub record DidRead (n : ℕ) (killed : Bool) (dst : ℕ → Bool) (pi : Pipe)
    (out : Pipe × List ℕ × Ended) : Type 0 where
  pub valid : IsPipe out.0
  pub taken : contents pi ≡ out.1 ++ contents out.0
  pub ended :
      (contents pi ≢ [] ⊎ pi.writeopen ≡ false)
        × ((out.2 ≡ returns (length out.1))
              × ((length out.1 ≡ n) ⊎ (contents out.0 ≡ []) ⊎ (dst (length out.1) ≡ false))
            ⊎ (out.2 ≡ fails) × (out.1 ≡ []) × (dst 0 ≡ false))
      ⊎ (contents pi ≡ [])
        × (pi.writeopen ≡ true)
        × (out.1 ≡ [])
        × (out.2 ≡ (if killed then fails else blocked 0))

-- When piperead does not wait.
has_bytes :
    (pi : Pipe)
    → IsPipe pi
    → (is_empty pi && pi.writeopen) ≡ false
    → contents pi ≢ [] ⊎ pi.writeopen ≡ false
has_bytes pi v go = elim (Bool-cases (is_empty pi)) [
  | inl e ↦ inr (ground arith)
  | inr e ↦ inl (λ h. let c = sym (dropped-contents pi v e).1 ∙ h in cc)
]

Copied-DidRead :
    (n : ℕ) (killed : Bool) (dst : ℕ → Bool) (pi : Pipe) (out : Pipe × List ℕ × Ended)
    → contents pi ≢ [] ⊎ pi.writeopen ≡ false
    → Copied n 0 dst pi out
    → DidRead n killed dst pi out
Copied-DidRead n killed dst pi out go c =
    let z : 0 + length out.1 ≡ length out.1 = omega arith in
    record {
      valid = c.valid;
      taken = c.taken;
      ended = inl (go, elim (rw z at c.ended) [ inl r ↦ inl r | inr (f, i, e, d) ↦ inr (f, e, d) ]);
    }

-- A pass of piperead hands out the oldest bytes of the pipe, in order, leaves the rest, and reports
-- their number: all that were asked for, or fewer because the pipe ran empty or an address cannot
-- be written; it fails when that is the first address. It does so only when the pipe has bytes or no
-- writer: on an empty pipe with a writer it sleeps, or fails if killed.
pub piperead-DidRead :
    (pi : Pipe) (n : ℕ) (killed : Bool) (dst : ℕ → Bool)
    → IsPipe pi
    → DidRead n killed dst pi (piperead pi n killed dst)
unfolding piperead
piperead-DidRead pi n killed dst v = elim (Bool-cases (is_empty pi && pi.writeopen)) [
  | inr go ↦
      rw go (Copied-DidRead n killed dst pi _ (has_bytes pi v go) (read_loop-Copied n 0 dst pi v))
  | inl wait ↦
      let e : is_empty pi ≡ true = ground arith in
      let w : pi.writeopen ≡ true = ground arith in
      rw wait
        (record { valid = v; taken = refl; ended = inr (empty_contents pi v e, w, refl, refl) })
]
