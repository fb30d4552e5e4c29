-- ===== src/Log/Passes.antt =====
-- The writes of write_log and install_trans as lists, and what the log region holds in between.
use hai_os.Base.{
  ℕ, ◌+◌, ◌≤◌, ◌<◌, ◌≡◌, refl, ap, ap₂, ◌∙◌, ◌≢◌, ◌↔◌, ◌⊎◌, inl, false, List, [], ◌∷◌, arith,
  length, All, count, update, update_self, update_ne,
}
use hai_os.Params.{logblocks}
use hai_os.Log.{Block, Disk, Writes, Log, write_log_from, install_trans_from}
use hai_os.Log.Writes.{apply, mentions, apply_other, Stores}

-- A block that is neither the log's header nor one of its LOGBLOCKS data blocks.
abbrev pub Outside : ℕ → ℕ → Type 0
Outside start b = (b < start) ⊎ (start + logblocks < b)

-- The log's copies of the blocks `bs`, from data block `tail` on.
unfoldable pub logs : ℕ → Disk → ℕ → List ℕ → Writes
logs start goal tail [] = []
logs start goal tail (b ∷ bs) = (start + tail + 1, goal b) ∷ logs start goal (tail + 1) bs

-- The blocks at their homes.
unfoldable pub homes : Disk → List ℕ → Writes
homes goal [] = []
homes goal (b ∷ bs) = (b, goal b) ∷ homes goal bs

-- The log region of `d` holds what `goal` says of the blocks `bs`.
abbrev pub LogHolds : ℕ → Disk → Disk → ℕ → List ℕ → Type 0
LogHolds start d goal tail [] = Unit {0}
LogHolds start d goal tail (b ∷ bs) =
    (d (start + tail + 1) ≡ goal b) × LogHolds start d goal (tail + 1) bs

-- `d` says of the blocks `bs` what `goal` says.
abbrev pub Agrees : Disk → Disk → List ℕ → Type 0
Agrees d goal = All (λ b. d b ≡ goal b)

Agrees-update :
    (start : ℕ) (d goal : Disk) (bs : List ℕ) (i : ℕ) (v : Block)
    → start ≤ i
    → i ≤ start + logblocks
    → All (Outside start) bs
    → Agrees d goal bs
    → Agrees (update d i v) goal bs
Agrees-update start d goal [] i v lo hi out h = tt
Agrees-update start d goal (b ∷ bs) i v lo hi out h = (
  update_ne d i b v (omega (arith, out.0)) ∙ h.0,
  Agrees-update start d goal bs i v lo hi out.1 h.1,
)

-- write_log copies each logged block into the log and keeps the list of them.
pub write_log_from_lem :
    (tail : ℕ) (bs : List ℕ) (s : Log) (goal : Disk)
    → tail + length bs ≤ logblocks
    → All (Outside s.start) bs
    → Agrees s.view goal bs
    → let (s', ws) = write_log_from tail bs s in
      (ws ≡ logs s.start goal tail bs)
      × (s'.view ≡ apply ws s.view)
      × (s'.start ≡ s.start)
      × (s'.lh ≡ s.lh)
unfolding write_log_from logs apply
write_log_from_lem tail [] s goal fit out h = (refl, refl, refl, refl)
write_log_from_lem tail (b ∷ bs) s goal fit out h =
    let at = s.start + tail + 1 in
    let r =
      write_log_from_lem (tail + 1) bs (record s { view = update s.view at (s.view b) }) goal
        (omega (arith, fit)) out.1
        (Agrees-update s.start s.view goal bs at (s.view b) (omega arith) (omega (arith, fit)) out.1
          h.1) in
    (ap₂ ◌∷◌ (ap (λ (v : Block). (at, v)) h.0) r.0, r.1, r.2, r.3)

pub LogHolds-update :
    (start : ℕ) (d goal : Disk) (tail : ℕ) (bs : List ℕ) (i : ℕ) (v : Block)
    → tail + length bs ≤ logblocks
    → (i ≤ start) ⊎ (start + logblocks < i)
    → LogHolds start d goal tail bs
    → LogHolds start (update d i v) goal tail bs
LogHolds-update start d goal tail [] i v fit out h = tt
LogHolds-update start d goal tail (b ∷ bs) i v fit out h = (
  update_ne d i (start + tail + 1) v (omega arith) ∙ h.0,
  LogHolds-update start d goal (tail + 1) bs i v (omega arith) out h.1,
)

-- install_trans writes each block home with what the log holds of it.
pub install_trans_from_lem :
    (tail : ℕ) (bs : List ℕ) (s : Log) (goal : Disk)
    → tail + length bs ≤ logblocks
    → All (Outside s.start) bs
    → LogHolds s.start s.view goal tail bs
    → let (s', ws) = install_trans_from tail bs s in
      (ws ≡ homes goal bs) × (s'.view ≡ apply ws s.view) × (s'.start ≡ s.start)
unfolding install_trans_from homes apply
install_trans_from_lem tail [] s goal fit out h = (refl, refl, refl)
install_trans_from_lem tail (b ∷ bs) s goal fit out h =
    let v = s.view (s.start + tail + 1) in
    let r =
      install_trans_from_lem (tail + 1) bs (record s { view = update s.view b v }) goal
        (omega (arith, fit)) out.1
        (LogHolds-update s.start s.view goal (tail + 1) bs b v (omega (arith, fit))
          (omega (arith, out.0)) h.1) in
    (ap₂ ◌∷◌ (ap (λ (v : Block). (b, v)) h.0) r.0, r.1, r.2)

pub mentions-logs :
    (start : ℕ) (goal : Disk) (tail : ℕ) (bs : List ℕ) (i : ℕ)
    → (i ≤ start + tail) ⊎ (start + tail + length bs < i)
    → mentions i (logs start goal tail bs) ≡ false
unfolding mentions logs
mentions-logs start goal tail [] i h = refl
mentions-logs start goal tail (b ∷ bs) i h =
    ground (arith, mentions-logs start goal (tail + 1) bs i)

-- After the copies are written the log region holds them.
pub LogHolds-logs :
    (start : ℕ) (d goal : Disk) (tail : ℕ) (bs : List ℕ)
    → LogHolds start (apply (logs start goal tail bs) d) goal tail bs
unfolding apply logs
LogHolds-logs start d goal tail [] = tt
LogHolds-logs start d goal tail (b ∷ bs) =
    let at = start + tail + 1 in
    let d' = update d at (goal b) in
    (
      apply_other (logs start goal (tail + 1) bs) d' at
            (mentions-logs start goal (tail + 1) bs at (inl (omega arith)))
          ∙ update_self d at (goal b),
      LogHolds-logs start d' goal (tail + 1) bs,
    )

-- Writes elsewhere leave the log region.
pub LogHolds-apply :
    (start : ℕ) (d goal : Disk) (tail : ℕ) (bs : List ℕ) (ws : Writes)
    → tail + length bs ≤ logblocks
    → ((i : ℕ) → start < i → i ≤ start + logblocks → mentions i ws ≡ false)
    → LogHolds start d goal tail bs
    → LogHolds start (apply ws d) goal tail bs
LogHolds-apply start d goal tail [] ws fit away h = tt
LogHolds-apply start d goal tail (b ∷ bs) ws fit away h = (
  apply_other ws d (start + tail + 1) (away (start + tail + 1) (omega arith) (omega arith)) ∙ h.0,
  LogHolds-apply start d goal (tail + 1) bs ws (omega arith) away h.1,
)

pub mentions-homes :
    (goal : Disk) (bs : List ℕ) (i : ℕ) → (count i bs ≡ 0) ↔ (mentions i (homes goal bs) ≡ false)
unfolding mentions homes
mentions-homes goal [] i = ((λ h. refl), (λ h. refl))
mentions-homes goal (b ∷ bs) i = (
  (λ h. ground (arith, (mentions-homes goal bs i).0)),
  (λ h. ground (arith, (mentions-homes goal bs i).1)),
)

-- No block of the log stands among the blocks outside it.
pub count-Outside :
    (start : ℕ) (bs : List ℕ) (i : ℕ)
    → All (Outside start) bs
    → start ≤ i
    → i ≤ start + logblocks
    → count i bs ≡ 0
count-Outside start [] i h lo hi = refl
count-Outside start (b ∷ bs) i h lo hi =
    let ne : b ≢ i = omega (arith, h.0) in ground (arith, count-Outside start bs i h.1 lo hi)

pub Stores-homes : (goal : Disk) (bs : List ℕ) → Stores goal (homes goal bs)
unfolding homes
Stores-homes goal [] = tt
Stores-homes goal (b ∷ bs) = (refl, Stores-homes goal bs)
