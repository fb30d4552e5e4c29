-- ===== src/Vm/UserCopy/Text.antt =====
-- copyinstr goes page by page and finds what a byte-by-byte read finds.
use hai_os.Base.{
  ℕ, zero, suc, ◌+◌, ◌-◌, ◌*◌, ◌/◌, ◌%◌, ◌≤◌, ◌<◌, min, ◌≡◌, refl, sym, ap, ap₂, subst, ◌∙◌, ◌≢◌,
  ◌⊎◌, inl, inr, Bool, true, false, none, some, List, [], ◌∷◌, ◌++◌, arith, ◌==◌, if◌then◌else◌,
  eq→==, ne→==, ==→eq, Bool-cases,
}
use hai_os.Params.{pgsize}
use hai_os.Str.{Bytes}
use hai_os.Vm.{pgrounddown, Root, walkaddr}
use hai_os.Vm.UserCopy.{copy_run, copyinstr_from, copyinstr, user_byte, string_step, user_string}

-- What was read, and what follows if there was no NUL in it.
abbrev glue : List ℕ × Bool → List ℕ × Bool → List ℕ × Bool
glue r s = if r.1 then (r.0, true) else (r.0 ++ s.0, s.1)

byte_in_page :
    (t : Root) (b : Bytes) (va0 off pa0 : ℕ)
    → va0 % 4096 ≡ 0
    → off < 4096
    → walkaddr t va0 ≡ pa0
    → pa0 ≢ 0
    → user_byte t b (va0 + off) ≡ some (b (pa0 + off))
unfolding user_byte
byte_in_page t b va0 off pa0 al lt w nz =
    let e : (va0 + off) / 4096 * 4096 ≡ va0 = omega (arith, al, lt) in
    let d : va0 + off - va0 ≡ off = omega arith in rw (e, w, ne→== pa0 0 nz, d) refl

glue_step :
    (c : ℕ) (r : List ℕ × Bool) (s : List ℕ × Bool)
    → string_step (some c) (glue r s) ≡ glue (if c == 0 then (0 ∷ [], true) else (c ∷ r.0, r.1)) s
unfolding string_step
glue_step c r s = elim (Bool-cases (c == 0)) [
  | inl y ↦ rw (y) refl
  | inr n ↦ rw (n) (elim (Bool-cases r.1) [ inl y ↦ rw (y) refl | inr n' ↦ rw (n') refl ])
]

string_cons :
    (n : ℕ) (t : Root) (b : Bytes) (va c : ℕ)
    → user_byte t b va ≡ some c
    → user_string (suc n) t b va ≡ string_step (some c) (user_string n t b (va + 1))
unfolding user_string
string_cons n t b va c e = ap (λ o. string_step o (user_string n t b (va + 1))) e

string_none :
    (n : ℕ) (t : Root) (b : Bytes) (va : ℕ)
    → user_byte t b va ≡ none
    → user_string (suc n) t b va ≡ ([], false)
unfolding user_string string_step
string_none n t b va e = ap (λ o. string_step o (user_string n t b (va + 1))) e

run_page :
    (k rest : ℕ) (t : Root) (b : Bytes) (va0 off pa0 : ℕ)
    → va0 % 4096 ≡ 0
    → off + k ≤ 4096
    → walkaddr t va0 ≡ pa0
    → pa0 ≢ 0
    → user_string (k + rest) t b (va0 + off)
      ≡ glue (copy_run b (pa0 + off) k) (user_string rest t b (va0 + off + k))
unfolding copy_run
run_page zero rest t b va0 off pa0 al fit w nz =
    let e1 : zero + rest ≡ rest = omega arith in
    let e2 : va0 + off ≡ va0 + off + zero = omega arith in ap₂ (λ n v. user_string n t b v) e1 e2
run_page (suc k) rest t b va0 off pa0 al fit w nz =
    let ih = run_page k rest t b va0 (off + 1) pa0 al (omega (arith, fit)) w nz in
    let en : suc k + rest ≡ suc (k + rest) = omega arith in
    let e1 : va0 + (off + 1) ≡ va0 + off + 1 = omega arith in
    let e2 : pa0 + (off + 1) ≡ pa0 + off + 1 = omega arith in
    let e3 : va0 + off + 1 + k ≡ va0 + off + suc k = omega arith in
    let go : user_string (k + rest) t b (va0 + off + 1)
        ≡ glue (copy_run b (pa0 + off + 1) k) (user_string rest t b (va0 + off + suc k)) =
      subst
        (λ x.
          user_string (k + rest) t b (va0 + off + 1)
          ≡ glue (copy_run b (pa0 + off + 1) k) (user_string rest t b x))
        e3
        (subst
          (λ x.
            user_string (k + rest) t b (va0 + off + 1)
            ≡ glue (copy_run b x k) (user_string rest t b (va0 + off + 1 + k)))
          e2
          (subst
            (λ x.
              user_string (k + rest) t b x
              ≡ glue (copy_run b (pa0 + (off + 1)) k) (user_string rest t b (x + k)))
            e1 ih)) in
    ap (λ n. user_string n t b (va0 + off)) en
    ∙ string_cons (k + rest) t b (va0 + off) (b (pa0 + off))
        (byte_in_page t b va0 off pa0 al (omega (arith, fit)) w nz)
    ∙ ap (string_step (some (b (pa0 + off)))) go
    ∙ glue_step (b (pa0 + off)) (copy_run b (pa0 + off + 1) k)
        (user_string rest t b (va0 + off + suc k))

no_page :
    (n : ℕ) (t : Root) (b : Bytes) (va : ℕ)
    → walkaddr t (pgrounddown va) ≡ 0
    → user_string n t b va ≡ ([], false)
unfolding user_byte user_string
no_page zero t b va e = refl
no_page (suc n) t b va e = string_none n t b va (rw (e) refl)

no_bytes :
    (n : ℕ) (t : Root) (b : Bytes) (va va' : ℕ)
    → n ≡ 0
    → user_string n t b va ≡ user_string n t b va'
unfolding user_string
no_bytes zero t b va va' e = refl
no_bytes (suc n) t b va va' e = ground (arith, e)

page_lem :
    (fuel max : ℕ) (t : Root) (b : Bytes) (va k : ℕ)
    → (k ≡ suc max) ⊎ (k ≤ suc max × k ≡ 4096 - va % 4096)
    → va % 4096 + k ≤ 4096
    → walkaddr t (pgrounddown va) ≢ 0
    → ((v : ℕ) → copyinstr_from fuel t b v (suc max - k) ≡ user_string (suc max - k) t b v)
    → user_string (suc max) t b va
      ≡ glue
          (copy_run b (walkaddr t (pgrounddown va) + (va - pgrounddown va)) k)
          (copyinstr_from fuel t b (pgrounddown va + pgsize) (suc max - k))
page_lem fuel max t b va k h fit nz ih =
    let va0 : ℕ = pgrounddown va in
    let off : ℕ = va - va0 in
    let rest : ℕ = suc max - k in
    let ev : va0 + off ≡ va = omega arith in
    let ek : k + rest ≡ suc max = omega (arith, h) in
    let al : va0 % 4096 ≡ 0 = omega arith in
    let run = run_page k rest t b va0 off (walkaddr t va0) al (omega (arith, fit)) refl nz in
    let next : user_string rest t b (va0 + off + k) ≡ user_string rest t b (va0 + 4096) = elim h [
      | inl full ↦ no_bytes rest t b (va0 + off + k) (va0 + 4096) (omega (arith, full))
      | inr end ↦ ap (user_string rest t b) (omega (arith, end.1))
    ] in
    ap₂ (λ n v. user_string n t b v) (sym ek) (sym ev)
    ∙ run
    ∙ ap (glue (copy_run b (walkaddr t va0 + off) k)) (next ∙ sym (ih (va0 + 4096)))

no_text : (t : Root) (b : Bytes) (va : ℕ) → user_string 0 t b va ≡ ([], false)
unfolding user_string
no_text t b va = refl

min-cases :
    (max va : ℕ)
    → let k = min (suc max) (4096 - (va - va / 4096 * 4096)) in
      (k ≡ suc max) ⊎ (k ≤ suc max × k ≡ 4096 - va % 4096)
min-cases max va = omega arith

from_lem :
    (fuel : ℕ) (t : Root) (b : Bytes) (va max : ℕ)
    → max ≤ fuel
    → copyinstr_from fuel t b va max ≡ user_string max t b va
unfolding copyinstr_from
from_lem zero t b va zero le = sym (no_text t b va)
from_lem zero t b va (suc max) le = ground (arith, le)
from_lem (suc fuel) t b va zero le = sym (no_text t b va)
from_lem (suc fuel) t b va (suc max) le =
    let some_left : (suc max == 0) ≡ false = ne→== (suc max) 0 (omega arith) in
    elim (Bool-cases (walkaddr t (pgrounddown va) == 0)) [
      | inl y ↦ rw (some_left, y) (sym (no_page (suc max) t b va (==→eq _ 0 y)))
      | inr n ↦
          rw (some_left, n)
            (sym (
              page_lem fuel max t b va _ (min-cases max va) (omega arith)
                (λ e. ground (arith, eq→== _ 0 e, n))
                (λ v. from_lem fuel t b v _ (omega (arith, le)))))
    ]

-- When copyinstr is called with at most `max` bytes to copy, what it puts into the kernel's buffer,
-- and whether it returns 0, is what a byte-by-byte read of the process's memory gives up to the first
-- NUL, the first page without a user mapping or the end of the buffer.
pub copyinstr_lem :
    (t : Root) (b : Bytes) (va max : ℕ) → copyinstr t b va max ≡ user_string max t b va
unfolding copyinstr
copyinstr_lem t b va max = from_lem max t b va max (omega arith)
