-- ===== src/Log/Crash.antt =====
-- A crash during commit: whatever writes have reached the disk, recovery finds the transaction
-- whole or not at all.
use hai_os.Base.{
  ℕ, zero, suc, ◌+◌, ◌≤◌, ◌<◌, ◌≡◌, refl, sym, ap, ap₂, ◌∙◌, ◌⊎◌, inl, inr, false, List, [], ◌∷◌,
  ◌++◌, append-nil, append_assoc, arith, leb, if◌then◌else◌, lt→ltb, le→leb, lt→leb, Bool-cases,
  length, take, All, count, count-le-length, update, update_self, update_ne,
}
use hai_os.Params.{logblocks}
use hai_os.Log.{
  Block, Disk, Log, put_head, get_head, write_head, write_log, install_trans, clear, commit,
}
use hai_os.Log.Writes.{
  take-nil, apply, mentions, apply-append, apply_other, apply-Stores, get_head-put_head,
  mentions-take,
}
use hai_os.Log.Passes.{
  Outside, logs, homes, LogHolds, Agrees, write_log_from_lem, install_trans_from_lem, mentions-logs,
  mentions-homes, Stores-homes, LogHolds-logs, LogHolds-apply, LogHolds-update, count-Outside,
}
use hai_os.Log.Recovery.{IsRestored, IsRestored-holds}

-- The log before a commit over disk `d`: the blocks of the transaction lie outside the log and fit
-- into it, the disk's header is empty, and every other block is in the cache as on the disk.
pub record IsReady (s : Log) (d : Disk) : Type 0 where
  pub fits : length s.lh ≤ logblocks
  pub outside : All (Outside s.start) s.lh
  pub erased : get_head (d s.start) ≡ []
  pub clean : (b : ℕ) → Outside s.start b → count b s.lh ≡ 0 → s.view b ≡ d b

self-Agrees : (d : Disk) (bs : List ℕ) → Agrees d d bs
self-Agrees d [] = tt
self-Agrees d (b ∷ bs) = (refl, self-Agrees d bs)

-- The parts of commit after write_log, from a log region that holds `goal`.
finish_writes :
    (t : Log) (goal : Disk)
    → length t.lh ≤ logblocks
    → All (Outside t.start) t.lh
    → LogHolds t.start t.view goal 0 t.lh
    → let b = write_head t in
      let c = install_trans b.0 in
      let e = write_head (clear c.0).0 in
      (v : Block) × (w : Block) × (b.1 ≡ (t.start, put_head t.lh v) ∷ [])
      × (c.1 ≡ homes goal t.lh)
      × (e.1 ≡ (t.start, put_head [] w) ∷ [])
unfolding write_head
finish_writes t goal fit out holds =
    let b = (write_head t).0 in
    let c = install_trans b in
    let v = t.view t.start in
    let r = install_trans_from_lem 0 t.lh b goal (omega arith) out (
      LogHolds-update t.start t.view goal 0 t.lh t.start (put_head t.lh v) (omega arith)
        (inl (omega arith)) holds) in
    (v, c.0.view c.0.start, refl, r.0, ap (λ a. (a, put_head [] (c.0.view c.0.start)) ∷ []) r.2)

join {ℓ} :
    {A : Type ℓ} (xs xs' ys zs zs' us us' : List A) (y : A)
    → xs ≡ xs'
    → ys ≡ y ∷ []
    → zs ≡ zs'
    → us ≡ us'
    → (((xs ++ ys) ++ zs) ++ []) ++ us ≡ xs' ++ (y ∷ (zs' ++ us'))
join xs xs' ys zs zs' us us' y ex ey ez eu =
    ap (λ ws. ws ++ us) (append-nil ((xs ++ ys) ++ zs))
    ∙ append_assoc (xs ++ ys) zs us
    ∙ append_assoc xs ys (zs ++ us)
    ∙ ap₂ ◌++◌ ex (ap₂ ◌++◌ ey (ap₂ ◌++◌ ez eu))

-- The writes of commit: the copies into the log, the header, the copies home, the empty header.
commit_writes :
    (s : Log) (d : Disk)
    → IsReady s d
    → 0 < length s.lh
    → (v : Block) × (w : Block) × ((commit s).1
        ≡ logs s.start s.view 0 s.lh
          ++ ((s.start, put_head s.lh v) ∷ (homes s.view s.lh ++ ((s.start, put_head [] w) ∷ []))))
unfolding commit
commit_writes s d ready pos_n =
    let a = write_log s in
    let ra =
      write_log_from_lem 0 s.lh s s.view (omega (arith, ready.fits)) ready.outside
        (self-Agrees s.view s.lh) in
    let fit : length a.0.lh ≤ logblocks = rw (ra.3) ready.fits in
    let out : All (Outside a.0.start) a.0.lh = rw (ra.2, ra.3) ready.outside in
    let holds : LogHolds a.0.start a.0.view s.view 0 a.0.lh =
      rw (ra.1, ra.2, ra.3, ra.0) (LogHolds-logs s.start s.view s.view 0 s.lh) in
    let (v, w, eb, ec, ee) = finish_writes a.0 s.view fit out holds in
    let b = write_head a.0 in
    let c = install_trans b.0 in
    let e = write_head (clear c.0).0 in
    (
      v,
      w,
      rw (lt→ltb 0 (length s.lh) pos_n) (
          join a.1 (logs s.start s.view 0 s.lh) b.1 c.1 (homes s.view s.lh) e.1
            ((s.start, put_head [] w) ∷ []) (s.start, put_head s.lh v) ra.0
            (eb ∙ ap₂ (λ st l. (st, put_head l v) ∷ []) ra.2 ra.3) (ec ∙ ap (homes s.view) ra.3)
            (ee ∙ ap (λ st. (st, put_head [] w) ∷ []) ra.2)),
    )

restore :
    (start : ℕ) (d goal : Disk) (hs : List ℕ)
    → get_head (d start) ≡ hs
    → length hs ≤ logblocks
    → All (Outside start) hs
    → LogHolds start d goal 0 hs
    → ((b : ℕ) → Outside start b → count b hs ≡ 0 → d b ≡ goal b)
    → IsRestored start d goal
restore start d goal hs e fit out holds rest =
    IsRestored-holds start d goal (rw e fit) (rw e out) (rw e holds) (rw e rest)

logs_elsewhere :
    (s : Log) (d : Disk) (b : ℕ)
    → IsReady s d
    → (b ≤ s.start) ⊎ (s.start + logblocks < b)
    → mentions b (logs s.start s.view 0 s.lh) ≡ false
logs_elsewhere s d b ready h = mentions-logs s.start s.view 0 s.lh b (omega (arith, h, ready.fits))

-- A crash before the header is written.
early :
    (s : Log) (d : Disk) (k : ℕ)
    → IsReady s d
    → IsRestored s.start (apply (take k (logs s.start s.view 0 s.lh)) d) d
early s d k ready =
    let ws = logs s.start s.view 0 s.lh in
    let same : (b : ℕ) → (b ≤ s.start) ⊎ (s.start + logblocks < b) → apply (take k ws) d b ≡ d b =
      (λ b h. apply_other (take k ws) d b (mentions-take b k ws (logs_elsewhere s d b ready h))) in
    restore s.start (apply (take k ws) d) d []
      (ap get_head (same s.start (inl (omega arith))) ∙ ready.erased) (omega arith) tt tt
      (λ b o z. same b (omega (arith, o)))

-- The disk when the copies and the header `v` are written.
abbrev headed : Log → Disk → Block → Disk
headed s d v = update (apply (logs s.start s.view 0 s.lh) d) s.start (put_head s.lh v)

headed_other :
    (s : Log) (d : Disk) (v : Block) (b : ℕ)
    → IsReady s d
    → Outside s.start b
    → count b s.lh ≡ 0
    → headed s d v b ≡ s.view b
headed_other s d v b ready o z =
    update_ne (apply (logs s.start s.view 0 s.lh) d) s.start b (put_head s.lh v) (omega (arith, o))
    ∙ apply_other (logs s.start s.view 0 s.lh) d b (logs_elsewhere s d b ready (omega (arith, o)))
    ∙ sym (ready.clean b o z)

homes_elsewhere :
    (s : Log) (d : Disk) (i m : ℕ)
    → IsReady s d
    → s.start ≤ i
    → i ≤ s.start + logblocks
    → mentions i (take m (homes s.view s.lh)) ≡ false
homes_elsewhere s d i m ready lo hi =
    mentions-take i m (homes s.view s.lh)
      ((mentions-homes s.view s.lh i).0 (count-Outside s.start s.lh i ready.outside lo hi))

-- A crash while the blocks are copied home.
middle :
    (s : Log) (d : Disk) (v : Block) (m : ℕ)
    → IsReady s d
    → IsRestored s.start (apply (take m (homes s.view s.lh)) (headed s d v)) s.view
middle s d v m ready =
    let ws = take m (homes s.view s.lh) in
    let d2 = headed s d v in
    let away : (i : ℕ) → s.start ≤ i → i ≤ s.start + logblocks → mentions i ws ≡ false =
      (λ i lo hi. homes_elsewhere s d i m ready lo hi) in
    restore s.start (apply ws d2) s.view s.lh
      (ap get_head (
          apply_other ws d2 s.start (away s.start (omega arith) (omega arith))
          ∙ update_self (apply (logs s.start s.view 0 s.lh) d) s.start (put_head s.lh v))
        ∙ get_head-put_head s.lh v)
      ready.fits ready.outside
      (LogHolds-apply s.start d2 s.view 0 s.lh ws (omega (arith, ready.fits))
        (λ i lo hi. away i (omega (arith, lo)) hi)
        (LogHolds-update s.start (apply (logs s.start s.view 0 s.lh) d) s.view 0 s.lh s.start
          (put_head s.lh v) (omega (arith, ready.fits)) (inl (omega arith))
          (LogHolds-logs s.start d s.view 0 s.lh)))
      (λ b o z.
        apply_other ws d2 b
          (mentions-take b m (homes s.view s.lh) ((mentions-homes s.view s.lh b).0 z))
        ∙ headed_other s d v b ready o z)

-- A crash after the empty header is written.
late :
    (s : Log) (d : Disk) (v w : Block)
    → IsReady s d
    → IsRestored s.start
        (update (apply (homes s.view s.lh) (headed s d v)) s.start (put_head [] w))
        s.view
late s d v w ready =
    let d3 = apply (homes s.view s.lh) (headed s d v) in
    restore s.start (update d3 s.start (put_head [] w)) s.view []
      (ap get_head (update_self d3 s.start (put_head [] w)) ∙ get_head-put_head [] w) (omega arith)
      tt tt
      (λ b o z.
        update_ne d3 s.start b (put_head [] w) (omega (arith, o))
        ∙ apply-Stores s.view (homes s.view s.lh) (headed s d v) b (Stores-homes s.view s.lh)
            (λ m. headed_other s d v b ready o ((mentions-homes s.view s.lh b).1 m)))

length-logs :
    (start : ℕ) (goal : Disk) (tail : ℕ) (bs : List ℕ)
    → length (logs start goal tail bs) ≡ length bs
unfolding logs
length-logs start goal tail [] = refl
length-logs start goal tail (b ∷ bs) = ap suc (length-logs start goal (tail + 1) bs)

-- The first writes of a list with one more at its end.
take_two {ℓ} :
    {A : Type ℓ} (zs : List A) (u : A) (k : ℕ)
    → ((m : ℕ) × (take k (zs ++ (u ∷ [])) ≡ take m zs)) ⊎ (take k (zs ++ (u ∷ [])) ≡ zs ++ (u ∷ []))
take_two zs u zero = inl (0, refl)
take_two [] u (suc k) = inr (ap (◌∷◌ u) (take-nil k))
take_two (z ∷ zs) u (suc k) = elim (take_two zs u k) [
  | inl (m, e) ↦ inl (suc m, ap (◌∷◌ z) e)
  | inr e ↦ inr (ap (◌∷◌ z) e)
]

-- The writes of a commit by where they stop: among the copies, among the homes, or at the end.
take_three {ℓ} :
    {A : Type ℓ} (xs : List A) (y : A) (zs : List A) (u : A) (k : ℕ)
    → let all = xs ++ (y ∷ (zs ++ (u ∷ []))) in
      ((k ≤ length xs) × (take k all ≡ take k xs))
      ⊎ ((length xs < k) × (((m : ℕ) × (take k all ≡ xs ++ (y ∷ take m zs))) ⊎ (take k all ≡ all)))
take_three [] y zs u zero = inl (omega arith, refl)
take_three (x ∷ xs) y zs u zero = inl (omega arith, refl)
take_three [] y zs u (suc k) = elim (take_two zs u k) [
  | inl (m, e) ↦ inr (omega arith, inl (m, ap (◌∷◌ y) e))
  | inr e ↦ inr (omega arith, inr (ap (◌∷◌ y) e))
]
take_three (x ∷ xs) y zs u (suc k) = elim (take_three xs y zs u k) [
  | inl (h, e) ↦ inl (omega (arith, h), ap (◌∷◌ x) e)
  | inr (h, inl (m, e)) ↦ inr (omega (arith, h), inl (m, ap (◌∷◌ x) e))
  | inr (h, inr e) ↦ inr (omega (arith, h), inr (ap (◌∷◌ x) e))
]

-- The disk after the first `k` writes of a commit.
abbrev pub crashed : Log → ℕ → Disk → Disk
crashed s k d = apply (take k (commit s).1) d

-- What the disk should hold after recovery from it: the old blocks up to the write of the header,
-- the transaction's from it on.
abbrev pub outcome : Log → ℕ → Disk → Disk
outcome s k d = if leb k (length s.lh) then d else s.view

crash_nonempty :
    (s : Log) (d : Disk) (k : ℕ)
    → IsReady s d
    → 0 < length s.lh
    → IsRestored s.start (crashed s k d) (outcome s k d)
unfolding apply
crash_nonempty s d k ready pos_n =
    let (v, w, e) = commit_writes s d ready pos_n in
    let n = length s.lh in
    let xs = logs s.start s.view 0 s.lh in
    let zs = homes s.view s.lh in
    let hd : ℕ × Block = (s.start, put_head s.lh v) in
    let last : ℕ × Block = (s.start, put_head [] w) in
    let en = length-logs s.start s.view 0 s.lh in
    rw e (elim (take_three xs hd zs last k) [
      | inl (h, et) ↦ rw (et, le→leb k n (omega (arith, h, en))) (early s d k ready)
      | inr (h, inl (m, et)) ↦
          rw (et, lt→leb k n (omega (arith, h, en)), apply-append xs (hd ∷ take m zs) d)
            (middle s d v m ready)
      | inr (h, inr et) ↦
          rw (et, lt→leb k n (omega (arith, h, en)), apply-append xs (hd ∷ (zs ++ (last ∷ []))) d)
            (rw (apply-append zs (last ∷ []) (headed s d v)) (late s d v w ready))
    ])

crash_empty :
    (s : Log) (d : Disk) (k : ℕ)
    → IsReady s d
    → length s.lh ≡ 0
    → IsRestored s.start (crashed s k d) (outcome s k d)
unfolding apply commit
crash_empty s d k ready z =
    let none_left : (b : ℕ) → count b s.lh ≡ 0 = (λ b. omega (arith, count-le-length b s.lh, z)) in
    rw (z, take-nil {A = ℕ × Block} k)
      (restore s.start d (if leb k 0 then d else s.view) [] ready.erased (omega arith) tt tt
        (λ b o c. elim (Bool-cases (leb k 0)) [
          | inl e ↦ rw e refl
          | inr e ↦ rw e (sym (ready.clean b o (none_left b)))
        ]))

zero_or_positive : (n : ℕ) → (n ≡ 0) ⊎ (0 < n)
zero_or_positive n = omega arith

-- If the machine stops after any number `k` of the writes of a commit, the next boot's recovery
-- gives outside the log either the disk from before the commit, where the header has not been
-- written yet, or all the blocks of the transaction, and it leaves an empty header.
pub commit-crash :
    (s : Log) (d : Disk) (k : ℕ) → IsReady s d → IsRestored s.start (crashed s k d) (outcome s k d)
commit-crash s d k ready = elim (zero_or_positive (length s.lh)) [
  | inl z ↦ crash_empty s d k ready z
  | inr p ↦ crash_nonempty s d k ready p
]
