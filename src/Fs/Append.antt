-- ===== src/Fs/Append.antt =====
-- extent_append adds a block at the end of a file, or says that it cannot.
use hai_os.Base.{
  ◌or_else◌, map_some, ℕ, suc, ◌+◌, ◌^◌, ◌≤◌, ◌<◌, ◌≡◌, refl, sym, ap, ap₂, ◌∙◌, ◌≢◌, inl, inr,
  Option, none, some, List, [], ◌∷◌, ◌++◌, append-nil, append_assoc, arith, ◌==◌, ==→eq, Bool-cases,
  eq_of_some, length, All, add32,
}
use hai_os.Fs.{Extent, fill_slot, grow_last, extent_append}
use hai_os.Fs.Extents.{range, blocks, Packed, Within, range-last, blocks-empty}

-- `es'` is `es` with the block `b` at the end.
abbrev pub Added : ℕ → List Extent → ℕ → List Extent → Type 0
Added size es b es' =
    (blocks es' ≡ blocks es ++ b ∷ []) × Packed es' × Within size es' × (length es' ≡ length es)

-- The block after the last slot.
abbrev pub next_block : List Extent → Option ℕ
next_block [] = none
next_block (e ∷ []) = some (e.start + e.len)
next_block (e ∷ e' ∷ es) = next_block (e' ∷ es)

abbrev pub AllUsed : List Extent → Type 0
AllUsed = All (λ e. 0 < e.len)

-- What extent_append gives: the block at the end, or a failure, where every slot is in use and the
-- block does not follow the last one.
abbrev pub AppendResult : ℕ → List Extent → ℕ → Option (List Extent) → Type 0
AppendResult size es b none = AllUsed es × (next_block es ≢ some b)
AppendResult size es b (some es') = Added size es b es'

abbrev FillResult : ℕ → List Extent → ℕ → Option (List Extent) → Type 0
FillResult size es b none = AllUsed es
FillResult size es b (some es') = Added size es b es'

Packed-empty : (es : List Extent) → All (λ x. x.len ≡ 0) es → Packed es
Packed-empty [] h = tt
Packed-empty (e ∷ es) h = inr h

Added-cons :
    (size : ℕ) (e : Extent) (es es' : List Extent) (b : ℕ)
    → 0 < e.len
    → e.start + e.len ≤ size
    → Added size es b es'
    → Added size (e ∷ es) b (e ∷ es')
Added-cons size e es es' b pos_len w h = (
  ap (λ xs. range e.start e.len ++ xs) h.0
      ∙ sym (append_assoc (range e.start e.len) (blocks es) (b ∷ [])),
  inl (pos_len, h.1),
  (w, h.2),
  ap suc h.3,
)

Packed-tail : (e : Extent) (es : List Extent) → Packed (e ∷ es) → Packed es
Packed-tail e es (inl h) = h.1
Packed-tail e es (inr h) = Packed-empty es h.1

fill_slot-FillResult :
    (size : ℕ) (es : List Extent) (b : ℕ)
    → b < size
    → Within size es
    → Packed es
    → FillResult size es b (fill_slot es b)
unfolding fill_slot
fill_slot-FillResult size [] b hb w pk = tt
fill_slot-FillResult size (e ∷ es) b hb w pk = elim (Bool-cases (e.len == 0)) [
  | inl z ↦
      let ez = ==→eq e.len 0 z in
      let rest : All (λ x. x.len ≡ 0) es = none_after pk ez in
      rw z (
        rw ez (
            ap (◌∷◌ b) (blocks-empty es rest)
            ∙ ap (λ xs. xs ++ b ∷ []) (sym (blocks-empty es rest))),
        inl (omega arith, Packed-empty es rest),
        (omega (arith, hb), w.1),
        refl,
      )
  | inr z ↦
      let p : 0 < e.len = ground arith in
      rw z (lift p (fill_slot es b) (fill_slot-FillResult size es b hb w.1 (Packed-tail e es pk)))
]
  where
    none_after : Packed (e ∷ es) → e.len ≡ 0 → All (λ x. x.len ≡ 0) es
    none_after (inl h) ez = absurd (omega (arith, h.0, ez))
    none_after (inr h) ez = h.1

    lift :
        0 < e.len
        → (o : Option (List Extent)) → FillResult size es b o
        → FillResult size (e ∷ es) b (map_some (◌∷◌ e) o)
    lift p none r = (p, r)
    lift p (some es') r = Added-cons size e es es' b p w.0 r

Packed-AllUsed : (es : List Extent) → AllUsed es → Packed es
Packed-AllUsed [] h = tt
Packed-AllUsed (e ∷ es) h = inl (h.0, Packed-AllUsed es h.1)

grow_last-AppendResult :
    (size : ℕ) (es : List Extent) (b : ℕ)
    → size < 2 ^ 32
    → b < size
    → Within size es
    → AllUsed es
    → AppendResult size es b (grow_last es b)
unfolding grow_last
grow_last-AppendResult size [] b hs hb w used = (tt, (λ q. some_none b (sym q)))
  where
    some_none : (a : ℕ) → some a ≡ none → ⊥
    some_none a q = cc
grow_last-AppendResult size (e ∷ []) b hs hb w used =
    let ea : add32 e.start e.len ≡ e.start + e.len = omega (arith, w.0, hs) in
    elim (Bool-cases (e.start + e.len == b)) [
      | inl q ↦
          let eb = ==→eq (e.start + e.len) b q in
          let e1 : add32 e.len 1 ≡ e.len + 1 = omega (arith, hs, hb, eb) in
          rw (ea, q, e1)
            (
              ap (λ xs. xs ++ []) (range-last e.start e.len)
                  ∙ append-nil (range e.start e.len ++ (e.start + e.len) ∷ [])
                  ∙ ap₂ (λ xs c. xs ++ c ∷ []) (sym (append-nil (range e.start e.len))) eb,
              inl (omega arith, tt),
              (omega (arith, hb, eb), tt),
              refl,
            )
      | inr q ↦ rw (ea, q) (used, (λ r. absurd (ground (arith, eq_of_some (e.start + e.len) b r))))
    ]
grow_last-AppendResult size (e ∷ e' ∷ es) b hs hb w used =
    lift (grow_last (e' ∷ es) b) (grow_last-AppendResult size (e' ∷ es) b hs hb w.1 used.1)
  where
    lift :
        (o : Option (List Extent))
        → AppendResult size (e' ∷ es) b o
        → AppendResult size (e ∷ e' ∷ es) b (map_some (◌∷◌ e) o)
    lift none r = (used, r.1)
    lift (some es') r = Added-cons size e (e' ∷ es) es' b used.0 w.0 r

-- extent_append on a list whose slots in use come first, with extents within a disk of fewer than
-- 2 ^ 32 blocks: the file's blocks are the old ones with the new block behind them; or it fails,
-- and then every slot is in use and the block does not follow the last of the file.
pub extent_append_lem :
    (size : ℕ) (es : List Extent) (b : ℕ)
    → size < 2 ^ 32
    → b < size
    → Within size es
    → Packed es
    → AppendResult size es b (extent_append es b)
unfolding extent_append
extent_append_lem size es b hs hb w pk =
    choose (fill_slot es b) (fill_slot-FillResult size es b hb w pk)
  where
    choose :
        (o : Option (List Extent))
        → FillResult size es b o
        → AppendResult size es b (o or_else grow_last es b)
    choose none used = grow_last-AppendResult size es b hs hb w used
    choose (some es') r = r
