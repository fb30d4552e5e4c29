-- ===== src/Log/Space.antt =====
-- The room in the log: operations that keep to MAXOPBLOCKS writes each never fill it.
use hai_os.Base.{
  ℕ, suc, ◌+◌, ◌-◌, ◌*◌, ◌≤◌, ◌≡◌, refl, sym, ap, subst, ◌∙◌, ◌↔◌, inl, inr, true, false, none,
  some, List, [], ◌∷◌, ◌++◌, arith, ltb, ◌==◌, ==→eq, ltb→le, Bool-cases, eq_of_some, length,
  length-append, All, ok, update,
}
use hai_os.Params.{maxopblocks, logblocks}
use hai_os.Log.{
  Log, Writes, write_log, write_head, write_log_from, install_trans_from, commit, begin_op,
  log_write, end_op, absorb,
}

-- The writes that each running operation may still do.
abbrev pub total : List ℕ → ℕ
total [] = 0
total (m ∷ ms) = m + total ms

-- One call by an operation. An operation may call log_write MAXOPBLOCKS times.
pub data Call : Log → List ℕ → Log → List ℕ → Type 0 where
  begins : (s s' : Log) (ms : List ℕ) → begin_op s ≡ some s' → Call s ms s' (maxopblocks ∷ ms)
  writes :
      (s s' : Log) (ms ns : List ℕ) (m b : ℕ)
      → log_write s b ≡ ok s'
      → Call s (ms ++ suc m ∷ ns) s' (ms ++ m ∷ ns)
  ends :
      (s s' : Log) (ms ns : List ℕ) (m : ℕ) (ws : Writes)
      → end_op s ≡ ok (s', ws)
      → Call s (ms ++ m ∷ ns) s' (ms ++ ns)

pub data Calls : Log → List ℕ → Log → List ℕ → Type 0 where
  start : (s : Log) (ms : List ℕ) → Calls s ms s ms
  then_call :
      (s s' s'' : Log) (ms ms' ms'' : List ℕ)
      → Calls s ms s' ms'
      → Call s' ms' s'' ms''
      → Calls s ms s'' ms''

-- The log counts the running operations, and has room for all they may still write.
pub record HasRoom (s : Log) (ms : List ℕ) : Type 0 where
  pub counted : s.outstanding ≡ length ms
  pub idle : s.committing ≡ false
  pub bounded : All (λ m. m ≤ maxopblocks) ms
  pub room : length s.lh + total ms ≤ logblocks

total-append : (ms ns : List ℕ) → total (ms ++ ns) ≡ total ms + total ns
total-append [] ns = omega arith
total-append (m ∷ ms) ns = omega (arith, total-append ms ns)

total-bounded : (ms : List ℕ) → All (λ m. m ≤ maxopblocks) ms → total ms ≤ length ms * maxopblocks
total-bounded [] h = omega arith
total-bounded (m ∷ ms) h = omega (arith, h.0, total-bounded ms h.1)

length-absorb : (b : ℕ) (bs : List ℕ) → length (absorb b bs) ≤ suc (length bs)
unfolding absorb
length-absorb b [] = omega arith
length-absorb b (x ∷ xs) = ground (arith, length-absorb b xs)

write_log_from-outstanding :
    (tail : ℕ) (bs : List ℕ) (s : Log) → (write_log_from tail bs s).0.outstanding ≡ s.outstanding
unfolding write_log_from
write_log_from-outstanding tail [] s = refl
write_log_from-outstanding tail (b ∷ bs) s =
    write_log_from-outstanding (tail + 1) bs
      (record s { view = update s.view (s.start + tail + 1) (s.view b) })

install_trans_from-outstanding :
    (tail : ℕ) (bs : List ℕ) (s : Log)
    → (install_trans_from tail bs s).0.outstanding ≡ s.outstanding
unfolding install_trans_from
install_trans_from-outstanding tail [] s = refl
install_trans_from-outstanding tail (b ∷ bs) s =
    install_trans_from-outstanding (tail + 1) bs
      (record s { view = update s.view b (s.view (s.start + tail + 1)) })

-- commit keeps the count of operations and leaves no logged block.
pub commit-empty :
    (s : Log) → ((commit s).0.outstanding ≡ s.outstanding) × (length (commit s).0.lh ≡ 0)
unfolding commit write_head
commit-empty s = elim (Bool-cases (ltb 0 (length s.lh))) [
  | inl e ↦ rw e (
    install_trans_from-outstanding 0 (write_log s).0.lh (write_head (write_log s).0).0
        ∙ write_log_from-outstanding 0 s.lh s,
    refl,
  )
  | inr e ↦ rw e (refl, ground arith)
]

All-append {ℓ κ} :
    {A : Type ℓ} (P : A → Type κ) (xs ys : List A) → All P (xs ++ ys) ↔ All P xs × All P ys
All-append P [] ys = ((λ h. (tt, h)), (λ h. h.1))
All-append P (x ∷ xs) ys = (
  (λ h. ((h.0, ((All-append P xs ys).0 h.1).0), ((All-append P xs ys).0 h.1).1)),
  (λ h. (h.0.0, (All-append P xs ys).1 (h.0.1, h.1))),
)

some-none {ℓ} : {A : Type ℓ} (a : A) → some a ≡ none → ⊥
some-none a h = cc

begins-HasRoom :
    (s s' : Log) (ms : List ℕ) → HasRoom s ms → begin_op s ≡ some s' → HasRoom s' (maxopblocks ∷ ms)
unfolding begin_op
begins-HasRoom s s' ms h e =
    elim (Bool-cases (ltb logblocks (length s.lh + (s.outstanding + 1) * maxopblocks))) [
      | inl t ↦ absurd (some-none s' (sym e ∙ rw (h.idle, t) refl))
      | inr t ↦
          let e' : begin_op s ≡ some (record s { outstanding = s.outstanding + 1 }) =
            rw (h.idle, t) refl in
          subst (λ x. HasRoom x (maxopblocks ∷ ms))
            (eq_of_some (record s { outstanding = s.outstanding + 1 }) s' (sym e' ∙ e))
            (record {
              counted = omega (arith, h.counted);
              idle = h.idle;
              bounded = (omega arith, h.bounded);
              room = omega (
                arith,
                ltb→le logblocks (length s.lh + (s.outstanding + 1) * maxopblocks) t,
                h.counted,
                total-bounded ms h.bounded,
              );
            })
    ]

log_write-ok :
    (s : Log) (ms ns : List ℕ) (m b : ℕ)
    → HasRoom s (ms ++ suc m ∷ ns)
    → log_write s b ≡ ok (record s { lh = absorb b s.lh })
unfolding log_write
log_write-ok s ms ns m b h =
    let t = total-append ms (suc m ∷ ns) in
    let l = length-append ms (suc m ∷ ns) in ground (arith, h.room, h.counted, t, l)

end_op-ok :
    (s : Log) (ms ns : List ℕ) (m : ℕ)
    → HasRoom s (ms ++ m ∷ ns)
    → (s' : Log) × (ws : Writes) × (end_op s ≡ ok (s', ws)) × HasRoom s' (ms ++ ns)
unfolding end_op
end_op-ok s ms ns m h =
    let t = total-append ms (m ∷ ns) in
    let t' = total-append ms ns in
    let l = length-append ms (m ∷ ns) in
    let l' = length-append ms ns in
    let ab = (All-append (λ x. x ≤ maxopblocks) ms (m ∷ ns)).0 h.bounded in
    let bounded = (All-append (λ x. x ≤ maxopblocks) ms ns).1 (ab.0, ab.1.1) in
    elim (Bool-cases (s.outstanding == 1)) [
      | inl e ↦
          let s1 : Log = record s { outstanding = s.outstanding - 1; committing = true } in
          let r = commit s1 in
          let one = ==→eq s.outstanding 1 e in
          let z = commit-empty s1 in
          (
            record r.0 { committing = false },
            r.1,
            rw (h.idle, e) refl,
            record {
              counted = omega (arith, z.0, h.counted, l, l', one);
              idle = refl;
              bounded = bounded;
              room = omega (arith, z.1, h.counted, l, l', one, total-bounded (ms ++ ns) bounded);
            },
          )
      | inr e ↦ (
        record s { outstanding = s.outstanding - 1 },
        [],
        rw (h.idle, e) refl,
        record {
          counted = omega (arith, h.counted, l, l');
          idle = h.idle;
          bounded = bounded;
          room = omega (arith, h.room, t, t');
        },
      )
    ]

writes-HasRoom :
    (s : Log) (ms ns : List ℕ) (m b : ℕ)
    → HasRoom s (ms ++ suc m ∷ ns)
    → HasRoom (record s { lh = absorb b s.lh }) (ms ++ m ∷ ns)
writes-HasRoom s ms ns m b h =
    let t = total-append ms (suc m ∷ ns) in
    let t' = total-append ms (m ∷ ns) in
    let l = length-append ms (suc m ∷ ns) in
    let l' = length-append ms (m ∷ ns) in
    let ab = (All-append (λ x. x ≤ maxopblocks) ms (suc m ∷ ns)).0 h.bounded in
    record {
      counted = omega (arith, h.counted, l, l');
      idle = h.idle;
      bounded =
          (All-append (λ x. x ≤ maxopblocks) ms (m ∷ ns)).1 (ab.0, (omega (arith, ab.1.0), ab.1.1));
      room = omega (arith, h.room, t, t', length-absorb b s.lh);
    }

eq_of_ok {ℓ} : {A : Type ℓ} (a b : A) → ok a ≡ ok b → a ≡ b
eq_of_ok a b h = cc

Call-HasRoom : (s s' : Log) (ms ms' : List ℕ) → HasRoom s ms → Call s ms s' ms' → HasRoom s' ms'
Call-HasRoom s s' ms ms' h (begins _ _ _ e) = begins-HasRoom s s' ms h e
Call-HasRoom s s' _ _ h (writes _ _ ms ns m b e) =
    subst (λ x. HasRoom x (ms ++ m ∷ ns))
      (eq_of_ok (record s { lh = absorb b s.lh }) s' (sym (log_write-ok s ms ns m b h) ∙ e))
      (writes-HasRoom s ms ns m b h)
Call-HasRoom s s' _ _ h (ends _ _ ms ns m ws e) =
    let (s2, ws2, e2, h2) = end_op-ok s ms ns m h in
    subst (λ x. HasRoom x (ms ++ ns)) (ap (λ r. r.0) (eq_of_ok (s2, ws2) (s', ws) (sym e2 ∙ e))) h2

pub Calls-HasRoom :
    (s s' : Log) (ms ms' : List ℕ) → HasRoom s ms → Calls s ms s' ms' → HasRoom s' ms'
Calls-HasRoom s s' ms ms' h (start _ _) = h
Calls-HasRoom s s'' ms ms'' h (then_call _ s' _ _ ms' _ cs c) =
    Call-HasRoom s' s'' ms' ms'' (Calls-HasRoom s s' ms ms' h cs) c

-- After any calls by operations of at most MAXOPBLOCKS writes each, from a log with no operation
-- running, no blocks and no commit under way: an operation that has a write left does it without a
-- panic, and an operation that is running ends without one.
pub Calls-no_panic :
    (s s' : Log) (ms' : List ℕ)
    → HasRoom s []
    → Calls s [] s' ms'
    → ((ms ns : List ℕ) (m b : ℕ) → ms' ≡ ms ++ suc m ∷ ns → (t : Log) × (log_write s' b ≡ ok t))
      × ((ms ns : List ℕ) (m : ℕ)
          → ms' ≡ ms ++ m ∷ ns
          → (t : Log) × (ws : Writes) × (end_op s' ≡ ok (t, ws)))
Calls-no_panic s s' ms' h cs =
    let h' = Calls-HasRoom s s' [] ms' h cs in
    (
      (λ ms ns m b e.
          (record s' { lh = absorb b s'.lh }, log_write-ok s' ms ns m b (subst (HasRoom s') e h'))),
      (λ ms ns m e.
          let (t, ws, e2, h2) = end_op-ok s' ms ns m (subst (HasRoom s') e h') in (t, ws, e2)),
    )
