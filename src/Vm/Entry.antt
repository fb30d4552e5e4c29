-- ===== src/Vm/Entry.antt =====
-- The 64-bit word of a page-table entry, as the hardware reads it.
use hai_os.Base.{ℕ, ◌+◌, ◌*◌, ◌/◌, ◌%◌, ◌^◌, ◌≡◌, refl, Bool, true, false, arith, ◌==◌}
use hai_os.Vm.{Pte}

abbrev pub bit : Bool → ℕ → ℕ
bit true n = 2 ^ n
bit false n = 0

abbrev pub has_bit : ℕ → ℕ → Bool
has_bit w n = w / 2 ^ n % 2 == 1

-- `PA2PTE(pa) | flags`, with PTE_V, PTE_R, PTE_W, PTE_X, PTE_U and PTE_COW.
unfoldable pub to_word : Pte → ℕ
to_word p =
    p.pa / 2 ^ 12 * 2 ^ 10
    + (bit p.v 0
        + bit p.flags.r 1
        + bit p.flags.w 2
        + bit p.flags.x 3
        + bit p.flags.u 4
        + bit p.flags.cow 8)

-- `PTE2PA` and the bits of `PTE_FLAGS`.
unfoldable pub from_word : ℕ → Pte
from_word w = record {
  v = has_bit w 0;
  pa = w / 2 ^ 10 * 2 ^ 12;
  flags = record {
    r = has_bit w 1;
    w = has_bit w 2;
    x = has_bit w 3;
    u = has_bit w 4;
    cow = has_bit w 8;
  };
}

abbrev low : Bool → Bool → Bool → Bool → Bool → Bool → ℕ
low v r w x u cow = bit v 0 + bit r 1 + bit w 2 + bit x 3 + bit u 4 + bit cow 8

-- The six bits of a word whose upper part is `n`.
bits_back :
    (n : ℕ) (v r w x u cow : Bool)
    → let k = n * 2 ^ 10 + low v r w x u cow in
      (has_bit k 0 ≡ v)
      × (has_bit k 1 ≡ r)
      × (has_bit k 2 ≡ w)
      × (has_bit k 3 ≡ x)
      × (has_bit k 4 ≡ u)
      × (has_bit k 8 ≡ cow)
      × (k / 2 ^ 10 ≡ n)
bits_back n v r w x u cow = ground arith

-- An entry for a page is read back from its word.
pub from_word-to_word : (p : Pte) → p.pa % 4096 ≡ 0 → from_word (to_word p) ≡ p
unfolding from_word to_word
from_word-to_word p al =
    let b = bits_back (p.pa / 2 ^ 12) p.v p.flags.r p.flags.w p.flags.x p.flags.u p.flags.cow in
    let page : p.pa / 2 ^ 12 * 2 ^ 12 ≡ p.pa = omega (arith, al) in
    rw (b.0, b.1, b.2, b.3, b.4, b.5, b.6, page) refl
