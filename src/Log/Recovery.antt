-- ===== src/Log/Recovery.antt =====
-- What initlog makes of a disk: it installs the header's blocks and erases the header.
use hai_os.Base.{
  ℕ, ◌≤◌, ◌≡◌, ap, ap₂, ◌∙◌, false, [], ◌∷◌, ◌++◌, append-nil, arith, length, All, count, update,
  update_self, update_ne,
}
use hai_os.Params.{logblocks}
use hai_os.Log.{Block, Disk, Writes, Log, put_head, get_head, install_trans_from, initlog}
use hai_os.Log.Writes.{apply, apply-append, apply-Stores, get_head-put_head}
use hai_os.Log.Passes.{
  Outside, homes, LogHolds, install_trans_from_lem, mentions-homes, Stores-homes,
}

-- The disk after initlog has run on `d`.
unfoldable pub recovered : ℕ → Disk → Disk
unfolding initlog apply
recovered start d = apply (initlog start d).1 d

-- Recovery writes the header's blocks home, and then an empty header.
initlog_writes :
    (start : ℕ) (d goal : Disk)
    → length (get_head (d start)) ≤ logblocks
    → All (Outside start) (get_head (d start))
    → LogHolds start d goal 0 (get_head (d start))
    → (v : Block) × ((initlog start d).1
        ≡ homes goal (get_head (d start)) ++ (start, put_head [] v) ∷ [])
unfolding initlog
initlog_writes start d goal fit out holds =
    let hs = get_head (d start) in
    let s : Log = record {
      start = start;
      outstanding = 0;
      committing = false;
      lh = hs;
      view = d;
    } in
    let done = install_trans_from 0 hs s in
    let r = install_trans_from_lem 0 hs s goal (omega arith) out holds in
    let v = done.0.view done.0.start in
    (v, ap₂ ◌++◌ (append-nil done.1 ∙ r.0) (ap (λ a. (a, put_head [] v) ∷ []) r.2))

-- What recovery gives: the disk says what `goal` says outside the log, and the header is empty.
abbrev pub IsRestored : ℕ → Disk → Disk → Type 0
IsRestored start d goal =
    ((b : ℕ) → Outside start b → recovered start d b ≡ goal b)
    × (get_head (recovered start d start) ≡ [])

apply-last :
    (ws : Writes) (d : Disk) (i : ℕ) (v : Block)
    → apply (ws ++ (i, v) ∷ []) d ≡ update (apply ws d) i v
unfolding apply
apply-last ws d i v = apply-append ws ((i, v) ∷ []) d

-- A disk whose header lists blocks that the log region holds for `goal`, and that says what `goal`
-- says of all others, is restored to `goal`.
pub IsRestored-holds :
    (start : ℕ) (d goal : Disk)
    → length (get_head (d start)) ≤ logblocks
    → All (Outside start) (get_head (d start))
    → LogHolds start d goal 0 (get_head (d start))
    → ((b : ℕ) → Outside start b → count b (get_head (d start)) ≡ 0 → d b ≡ goal b)
    → IsRestored start d goal
unfolding recovered
IsRestored-holds start d goal fit out holds rest =
    let hs = get_head (d start) in
    let (v, e) = initlog_writes start d goal fit out holds in
    let e' : recovered start d ≡ update (apply (homes goal hs) d) start (put_head [] v) =
      ap (λ ws. apply ws d) e ∙ apply-last (homes goal hs) d start (put_head [] v) in
    (
      (λ b o.
          ap (λ f. f b) e'
          ∙ update_ne (apply (homes goal hs) d) start b (put_head [] v) (omega (arith, o))
          ∙ apply-Stores goal (homes goal hs) d b (Stores-homes goal hs)
              (λ m. rest b o ((mentions-homes goal hs b).1 m))),
      ap (λ f. get_head (f start)) e'
          ∙ ap get_head (update_self (apply (homes goal hs) d) start (put_head [] v))
          ∙ get_head-put_head [] v,
    )
