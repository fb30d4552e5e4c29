-- ===== src/Pipe/Write.antt =====
-- What a pass of pipewrite does to the queue.
use hai_os.Base.{
  ℕ, zero, suc, ◌+◌, ◌≤◌, ◌≡◌, refl, sym, ap, subst, ◌∙◌, ◌⊎◌, inl, inr, Bool, true, false, not,
  ◌||◌, Option, none, some, List, [], ◌∷◌, ◌++◌, append-nil, append_assoc, arith, Bool-cases,
  Option-cases, length,
}
use hai_os.Pipe.{
  Pipe, pipesize, is_full, put, Ended, returns, fails, blocked, write_pass, pipewrite,
}
use hai_os.Pipe.Fifo.{contents, IsPipe, full_iff, put-contents}

-- The user's bytes from index `i`, `k` of them.
abbrev pub sent : (ℕ → Option ℕ) → ℕ → ℕ → List ℕ
sent src i zero = []
sent src i (suc k) = elim (src i) [ none ↦ [] | some ch ↦ ch ∷ sent src (i + 1) k ]

-- The count of bytes that a pass has moved.
abbrev pub moved : Ended → ℕ
moved (returns n) = n
moved fails = 0
moved (blocked n) = n

-- A pass of pipewrite that began after `i` bytes with `left` to go, on a pipe that can be written.
record Wrote (left i : ℕ) (src : ℕ → Option ℕ) (pi : Pipe) (out : Pipe × Ended) : Type 0 where
  count : ℕ
  enough : count ≤ left
  valid : IsPipe out.0
  appended : contents out.0 ≡ contents pi ++ sent src i count
  total : moved out.1 ≡ i + count
  ended :
      (out.1 ≡ returns (i + count)) × ((count ≡ left) ⊎ (src (i + count) ≡ none))
      ⊎ (out.1 ≡ blocked (i + count)) × (length (contents out.0) ≡ pipesize)

write_pass_fault :
    (left i : ℕ) (killed : Bool) (src : ℕ → Option ℕ) (pi : Pipe)
    → (not pi.readopen || killed) ≡ false
    → is_full pi ≡ false
    → src i ≡ none
    → write_pass (suc left) i killed src pi ≡ (pi, returns i)
unfolding write_pass
write_pass_fault left i killed src pi up room e = rw (up, room, e, write_pass)

write_pass-put :
    (left i ch : ℕ) (killed : Bool) (src : ℕ → Option ℕ) (pi : Pipe)
    → (not pi.readopen || killed) ≡ false
    → is_full pi ≡ false
    → src i ≡ some ch
    → write_pass (suc left) i killed src pi ≡ write_pass left (i + 1) killed src (put pi ch)
unfolding write_pass
write_pass-put left i ch killed src pi up room e = rw (up, room, e, write_pass)

readopen-put : (pi : Pipe) (ch : ℕ) → (put pi ch).readopen ≡ pi.readopen
unfolding put
readopen-put pi ch = refl

sent-suc :
    (src : ℕ → Option ℕ) (i k ch : ℕ)
    → src i ≡ some ch
    → sent src i (suc k) ≡ ch ∷ sent src (i + 1) k
sent-suc src i k ch e = rw (e, sent)

-- A pass that went on after one byte.
Wrote-suc :
    (left i ch : ℕ) (src : ℕ → Option ℕ) (pi : Pipe) (out : Pipe × Ended)
    → IsPipe pi
    → is_full pi ≡ false
    → src i ≡ some ch
    → Wrote left (i + 1) src (put pi ch) out
    → Wrote (suc left) i src pi out
Wrote-suc left i ch src pi out v room e w =
    let at : i + suc w.count ≡ i + 1 + w.count = omega arith in
    record {
      count = suc w.count;
      enough = omega (arith, w.enough);
      valid = w.valid;
      appended =
          w.appended
          ∙ ap (λ xs. xs ++ sent src (i + 1) w.count) (put-contents pi ch v room).1
          ∙ append_assoc (contents pi) (ch ∷ []) (sent src (i + 1) w.count)
          ∙ ap (◌++◌ (contents pi)) (sym (sent-suc src i w.count ch e));
      total = omega (arith, w.total);
      ended = rw at (elim w.ended [
        | inl (r, inl all) ↦ inl (r, inl (omega arith))
        | inl (r, inr stop) ↦ inl (r, inr stop)
        | inr full ↦ inr full
      ]);
    }

write_pass-Wrote :
    (left i : ℕ) (killed : Bool) (src : ℕ → Option ℕ) (pi : Pipe)
    → (not pi.readopen || killed) ≡ false
    → IsPipe pi
    → Wrote left i src pi (write_pass left i killed src pi)
unfolding write_pass
write_pass-Wrote zero i killed src pi up v =
    let e : i + 0 ≡ i = omega arith in
    record {
      count = 0;
      enough = omega arith;
      valid = v;
      appended = sym (append-nil (contents pi));
      total = omega arith;
      ended = inl (rw e refl, inl refl);
    }
write_pass-Wrote (suc left) i killed src pi up v = elim (Bool-cases (is_full pi)) [
  | inl full ↦
      let e : i + 0 ≡ i = omega arith in
      rw (up, full)
        (record {
          count = 0;
          enough = omega arith;
          valid = v;
          appended = sym (append-nil (contents pi));
          total = omega arith;
          ended = inr (rw e refl, (full_iff pi v).0 full);
        })
  | inr room ↦ elim (Option-cases (src i)) [
    | inl e ↦
        let z : i + 0 ≡ i = omega arith in
        rw (write_pass_fault left i killed src pi up room e) (record {
          count = 0;
          enough = omega arith;
          valid = v;
          appended = sym (append-nil (contents pi));
          total = omega arith;
          ended = inl (rw z refl, inr (rw z e));
        })
    | inr (ch, e) ↦ rw (write_pass-put left i ch killed src pi up room e) (
        Wrote-suc left i ch src pi _ v room e (
          write_pass-Wrote left (i + 1) killed src (put pi ch) (rw (readopen-put pi ch) up)
            (put-contents pi ch v room).0))
  ]
]

-- What a pass of pipewrite did.
pub record Written (n : ℕ) (killed : Bool) (src : ℕ → Option ℕ) (pi : Pipe) (out : Pipe × Ended)
    : Type 0 where
  pub valid : IsPipe out.0
  pub appended : contents out.0 ≡ contents pi ++ sent src 0 (moved out.1)
  pub ended :
      (out.1 ≡ returns n)
      ⊎ ((k : ℕ) × (out.1 ≡ returns k) × (src k ≡ none))
      ⊎ ((k : ℕ) × (out.1 ≡ blocked k) × (length (contents out.0) ≡ pipesize))
      ⊎ ((out.1 ≡ fails) × ((pi.readopen ≡ false) ⊎ (killed ≡ true)))

-- How a pass ends that can write nothing.
abbrev down_end : ℕ → ℕ → Ended
down_end zero i = returns i
down_end (suc n) i = fails

write_pass_down :
    (n i : ℕ) (killed : Bool) (src : ℕ → Option ℕ) (pi : Pipe)
    → (not pi.readopen || killed) ≡ true
    → write_pass n i killed src pi ≡ (pi, down_end n i)
unfolding write_pass
write_pass_down zero i killed src pi down = refl
write_pass_down (suc n) i killed src pi down = rw down

Written-down :
    (n : ℕ) (killed : Bool) (src : ℕ → Option ℕ) (pi : Pipe)
    → (not pi.readopen || killed) ≡ true
    → IsPipe pi
    → Written n killed src pi (pi, down_end n 0)
Written-down zero killed src pi down v = record {
  valid = v;
  appended = sym (append-nil (contents pi));
  ended = inl refl;
}
Written-down (suc n) killed src pi down v = record {
  valid = v;
  appended = sym (append-nil (contents pi));
  ended = inr (inr (inr (refl, ground arith)));
}

Wrote-Written :
    (n : ℕ) (killed : Bool) (src : ℕ → Option ℕ) (pi : Pipe) (out : Pipe × Ended)
    → Wrote n 0 src pi out
    → Written n killed src pi out
Wrote-Written n killed src pi out w =
    let z : 0 + w.count ≡ w.count = omega arith in
    let m : moved out.1 ≡ w.count = omega (arith, w.total) in
    record {
      valid = w.valid;
      appended = rw m w.appended;
      ended = elim w.ended [
        | inl (r, inl all) ↦ inl (r ∙ ap returns (omega (arith, all)))
        | inl (r, inr stop) ↦
            inr (inl (w.count, r ∙ ap returns z, subst (λ k. src k ≡ none) z stop))
        | inr (b, full) ↦ inr (inr (inl (w.count, b ∙ ap blocked z, full)))
      ];
    }

-- A pass of pipewrite puts the user's bytes behind those in the pipe, in order and as many as it
-- reports; it ends with all of them in, at a byte that cannot be read, asleep on a full pipe, or
-- with -1, which it gives only without a reader or when killed.
pub pipewrite-Written :
    (pi : Pipe) (n : ℕ) (killed : Bool) (src : ℕ → Option ℕ)
    → IsPipe pi
    → Written n killed src pi (pipewrite pi n killed src)
unfolding pipewrite
pipewrite-Written pi n killed src v = elim (Bool-cases (not pi.readopen || killed)) [
  | inl down ↦ rw (write_pass_down n 0 killed src pi down) (Written-down n killed src pi down v)
  | inr up ↦ Wrote-Written n killed src pi _ (write_pass-Wrote n 0 killed src pi up v)
]
