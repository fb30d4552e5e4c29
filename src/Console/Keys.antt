-- ===== src/Console/Keys.antt =====
-- consoleintr against the lists.
use hai_os.Base.{
  ℕ, ◌+◌, ◌%◌, ◌^◌, ◌≤◌, ◌<◌, ◌≡◌, refl, sym, ap, ap₂, subst, ◌∙◌, ◌≢◌, Bool, true, false, ◌||◌,
  List, [], ◌∷◌, ◌++◌, arith, leb, ◌==◌, if◌then◌else◌, eq→==, ==→eq, leb→lt, length, All,
  All-append, add32, sub32, update, update_self,
}
use hai_os.Console.{
  ctrl_d, ctrl_h, newline, ctrl_p, ctrl_u, delete, backspace, Cons, consputc, store_char,
  return_key, consoleintr,
}
use hai_os.Console.Line.{
  Input, view, input, IsConsole, but_last, type_char, press, length-view, view-append, view-wrap,
  view-update,
}
use hai_os.Console.Erase.{distances, view-last, erased, Pressed, erase_lem, kill_line-Pressed}

if-Pressed :
    (b : Bool) (x y : Cons) (p q : Input)
    → (b ≡ true → Pressed x p)
    → (b ≡ false → Pressed y q)
    → Pressed (if b then x else y) (if b then p else q)
if-Pressed true x y p q h k = h refl
if-Pressed false x y p q h k = k refl

-- The same with what a key echoes.
key-Pressed :
    (b : Bool) (x y : Cons × List ℕ) (p q : Input)
    → (b ≡ true → Pressed x.0 p)
    → (b ≡ false → Pressed y.0 q)
    → Pressed (if b then x else y).0 (if b then p else q)
key-Pressed true x y p q h k = h refl
key-Pressed false x y p q h k = k refl

-- Two places of the ring.
apart : (r t k : ℕ) → k < t → t < 128 → (r + t) % 128 ≢ (r + k) % 128
apart r t k lt room e = omega (arith, lt, room, e)

-- The ring after a store of the next character.
stored-ready :
    (c : ℕ) (s : Cons)
    → IsConsole s
    → sub32 s.w s.r + sub32 s.e s.w < 128
    → view (update s.buf (s.e % 128) c) s.r (sub32 s.w s.r) ≡ view s.buf s.r (sub32 s.w s.r)
stored-ready c s h room =
    let words = h.words in
    let d = distances s.r s.w s.e words.0 words.1 words.2 h.fits in
    view-update s.buf s.r (sub32 s.w s.r) (s.e % 128) c
      (λ k l e. apart s.r (sub32 s.w s.r + sub32 s.e s.w) k (omega (arith, l)) room (sym d.2 ∙ e))

stored-line :
    (c : ℕ) (s : Cons)
    → IsConsole s
    → sub32 s.w s.r + sub32 s.e s.w < 128
    → view (update s.buf (s.e % 128) c) s.w (sub32 s.e s.w + 1)
      ≡ view s.buf s.w (sub32 s.e s.w) ++ c ∷ []
stored-line c s h room =
    let words = h.words in
    let L : ℕ = sub32 s.e s.w in
    let d = distances s.r s.w s.e words.0 words.1 words.2 h.fits in
    view-last (update s.buf (s.e % 128) c) s.w L
    ∙ ap₂ (λ l x. l ++ x ∷ [])
        (view-update s.buf s.w L (s.e % 128) c
          (λ k l e. apart s.w L k l (omega (arith, room)) (sym d.1 ∙ e)))
        (ap (update s.buf (s.e % 128) c) (sym d.1) ∙ update_self s.buf (s.e % 128) c)

store_char-Pressed :
    (c : ℕ) (s : Cons)
    → IsConsole s
    → sub32 s.w s.r + sub32 s.e s.w < 128
    → Pressed (store_char c s) (type_char c (input s))
unfolding store_char input
store_char-Pressed c s h room =
    let words = h.words in
    let R : ℕ = sub32 s.w s.r in
    let L : ℕ = sub32 s.e s.w in
    let e' : ℕ = add32 s.e 1 in
    let buf' : ℕ → ℕ = update s.buf (s.e % 128) c in
    let d = distances s.r s.w s.e words.0 words.1 words.2 h.fits in
    let er : sub32 e' s.r ≡ R + (L + 1) = omega (arith, words, room) in
    let ew : sub32 e' s.w ≡ L + 1 = omega (arith, words, room) in
    let ee : sub32 e' e' ≡ 0 = omega arith in
    let len : length (view s.buf s.r R) + length (view s.buf s.w L) + 1 ≡ sub32 e' s.r =
      omega (arith, length-view s.buf s.r R, length-view s.buf s.w L, er) in
    let ready = stored-ready c s h room in
    let line = stored-line c s h room in
    let all : view buf' s.r (sub32 e' s.r) ≡ view s.buf s.r R ++ (view s.buf s.w L ++ c ∷ []) =
      ap (view buf' s.r) er
      ∙ view-append buf' s.r R (L + 1)
      ∙ ap₂ ◌++◌ ready (view-wrap buf' (s.r + R) s.w (L + 1) (sym d.0) ∙ line) in
    let empty : view buf' e' (sub32 e' e') ≡ [] = ap (view buf' e') ee in
    let next : e' < 2 ^ 32 = omega arith in
    subst
      (λ n. Pressed (store_char c s) (
        if c == newline || (c == ctrl_d || (n == 128))
        then record { ready = view s.buf s.r R ++ (view s.buf s.w L ++ c ∷ []); line = [] }
        else record { ready = view s.buf s.r R; line = view s.buf s.w L ++ c ∷ [] }))
      (sym len)
      (if-Pressed (c == newline || (c == ctrl_d || (sub32 e' s.r == 128))) _ _ _ _
        (λ q. (
          ap₂ (λ x y. record { ready = x; line = y }) all empty,
          record {
            words = (words.0, next, next);
            fits = omega (arith, er, ee, room);
            open_line = subst (All (λ c. c ≢ newline)) (sym empty) tt;
          },
        ))
        (λ q. (
          ap₂ (λ x y. record { ready = x; line = y }) ready (ap (view buf' s.w) ew ∙ line),
          record {
            words = (words.0, words.1, next);
            fits = omega (arith, ew, room);
            open_line = subst (All (λ c. c ≢ newline)) (sym (ap (view buf' s.w) ew ∙ line)) (
                All-append _ (view s.buf s.w L) (c ∷ []) h.open_line
                  (λ e. ground (arith, e, q), tt));
          },
        )))

length-input :
    (s : Cons) → length (input s).ready + length (input s).line ≡ sub32 s.w s.r + sub32 s.e s.w
unfolding input
length-input s =
    ap₂ ◌+◌ (length-view s.buf s.r (sub32 s.w s.r)) (length-view s.buf s.w (sub32 s.e s.w))

abbrev rubbed : Cons → List ℕ → Bool → Cons × List ℕ
rubbed s out b = if b then (s, []) else (erased s, out)

rubout-Pressed :
    (s : Cons) (out : List ℕ) (b : Bool)
    → IsConsole s
    → (s.e == s.w) ≡ b
    → Pressed
        (rubbed s out b).0
        (record { ready = (input s).ready; line = but_last (input s).line })
unfolding input
rubout-Pressed s out true h q =
    let z : sub32 s.e s.w ≡ 0 = omega (arith, ==→eq s.e s.w q, h.words) in
    (
      ap (λ l. record { ready = (input s).ready; line = l })
          (ap (view s.buf s.w) z ∙ sym (ap but_last (ap (view s.buf s.w) z))),
      h,
    )
rubout-Pressed s out false h q =
    let l = erase_lem s h (λ e. ground (arith, eq→== s.e s.w e, q)) in (l.1, l.0)

-- A key does to the buffer what it means for the text: it adds to the line being typed, takes its last
-- character or all of it away, or hands it over, at a newline, at ^D or when the buffer is full; a key
-- that does not fit in is lost. The counters stay in order through their wrapping, and nothing that
-- is waiting to be read is overwritten.
pub consoleintr-press :
    (c : ℕ) (s : Cons)
    → IsConsole s
    → (input (consoleintr c s).0 ≡ press c (input s)) × IsConsole (consoleintr c s).0
unfolding consoleintr
consoleintr-press c s h =
    let words = h.words in
    let d = distances s.r s.w s.e words.0 words.1 words.2 h.fits in
    let len : length (input s).ready + length (input s).line ≡ sub32 s.e s.r =
      length-input s ∙ sym d.3 in
    let few : sub32 s.e s.w ≤ 128 = omega (arith, h.fits) in
    subst
      (λ n. Pressed (consoleintr c s).0 (
        if c == ctrl_p
        then input s
        else if c == ctrl_u
        then record { ready = (input s).ready; line = [] }
        else if c == ctrl_h || c == delete
        then record { ready = (input s).ready; line = but_last (input s).line }
        else if c == 0 || leb 128 n
        then input s
        else type_char (return_key c) (input s)))
      (sym len)
      (key-Pressed (c == ctrl_p) _ _ _ _ (λ _. (refl, h))
        (λ _.
          key-Pressed (c == ctrl_u) _ _ _ _ (λ _. kill_line-Pressed 128 s h few)
            (λ _.
              key-Pressed (c == ctrl_h || c == delete) _ _ _ _
                (λ _. rubout-Pressed s (consputc backspace) (s.e == s.w) h refl)
                (λ _.
                  key-Pressed (c == 0 || leb 128 (sub32 s.e s.r)) _ _ _ _ (λ _. (refl, h))
                    (λ q.
                      store_char-Pressed (return_key c) s h (
                        omega (arith, sym d.3, leb→lt 128 (sub32 s.e s.r) (ground (arith, q)))))))))
