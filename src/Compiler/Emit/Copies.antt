-- ===== src/Compiler/Emit/Copies.antt =====
-- src/compiler/parser.rs: the copies of a loop's body.
use mathlib.Core.Path.{subst}
use mathlib.Core.List.{append-nil}
use hr_os.Prelude.{
  ℕ, zero, suc, ◌+◌, ◌≤◌, ◌<◌, ◌≡◌, refl, ap, ◌∙◌, Bool-cases, inl, inr, List, [], ◌∷◌, ◌++◌, ltb,
  arith, length, get_or, take, drop,
}
use hr_os.Compiler.Stream.{Compiler, ◌>>◌, max_stream_words}
use hr_os.Compiler.Stream.Programs.{emitted}
use hr_os.Compiler.Fns.Calls.{drop-cons}
use hr_os.Compiler.Emit.{copy_word, copy_range, need_room, unroll}
use hr_os.Compiler.Emit.Writes.{
  Sized, Writes, Same-refl, length-emitted, Emits-len, Emits-nothing, bind-Writes,
  stream_push-Writes,
}

-- A slice of what was in the stream is still there when more is written.
slice-append :
    (xs ys : List ℕ) (i n : ℕ) → i + n ≤ length xs → take n (drop i (xs ++ ys)) ≡ take n (drop i xs)
slice-append xs ys zero zero h = refl
slice-append [] ys zero (suc n) h = absurd (omega arith)
slice-append (x ∷ xs) ys zero (suc n) h = ap (λ t. x ∷ t) (slice-append xs ys zero n (omega arith))
slice-append [] ys (suc i) zero h = refl
slice-append [] ys (suc i) (suc n) h = absurd (omega arith)
slice-append (x ∷ xs) ys (suc i) n h = slice-append xs ys i n (omega arith)

get_or-take : (xs : List ℕ) (n i : ℕ) → i < n → get_or (take n xs) i 0 ≡ get_or xs i 0
get_or-take xs zero i h = absurd (omega arith)
get_or-take [] (suc n) i h = refl
get_or-take (x ∷ xs) (suc n) zero h = refl
get_or-take (x ∷ xs) (suc n) (suc i) h = get_or-take xs n i (omega arith)

pub copy_range-Writes :
    (left i : ℕ) (c : Compiler)
    → Sized c
    → i + left ≤ c.stream_len
    → Writes c (take left (drop i (emitted c))) (copy_range left i c)
unfolding copy_range copy_word
copy_range-Writes zero i c s inside = Emits-nothing c s
copy_range-Writes (suc left) i c s inside =
    let x = get_or c.stream i 0 in
    let here : get_or (emitted c) i 0 ≡ x = get_or-take c.stream c.stream_len i (omega arith) in
    let len = length-emitted c s in
    rw (drop-cons (emitted c) i (omega arith), here)
      (bind-Writes (x ∷ []) (take left (drop (i + 1) (emitted c))) (copy_word i)
        (λ _. copy_range left (i + 1)) c (stream_push-Writes x c s)
        (λ _ c' e.
          subst (λ ws. Writes c' ws (copy_range left (i + 1) c'))
            (ap (λ t. take left (drop (i + 1) t)) e.words
              ∙ slice-append (emitted c) (x ∷ []) (i + 1) left (omega arith))
            (copy_range-Writes left (i + 1) c' e.same.sized
              (omega (arith, Emits-len c (x ∷ []) c' s e)))))

unfoldable pub repeat : ℕ → List ℕ → List ℕ
repeat zero ws = []
repeat (suc n) ws = ws ++ repeat n ws

need_room-Writes : (len : ℕ) (c : Compiler) → Sized c → Writes c [] (need_room len c)
unfolding need_room
need_room-Writes len c s = elim (Bool-cases (ltb max_stream_words (c.stream_len + len))) [
  | inl e ↦ rw e (Same-refl c s)
  | inr e ↦ rw e (Emits-nothing c s)
]

pub unroll-Writes :
    (rounds start len : ℕ) (c : Compiler)
    → Sized c
    → start + len ≤ c.stream_len
    → Writes c (repeat rounds (take len (drop start (emitted c)))) (unroll rounds start len c)
unfolding unroll repeat
unroll-Writes zero start len c s inside = Emits-nothing c s
unroll-Writes (suc rounds) start len c s inside =
    let body = take len (drop start (emitted c)) in
    bind-Writes [] (body ++ repeat rounds body) (need_room len)
      (λ _. copy_range len start >> unroll rounds start len) c (need_room-Writes len c s)
      (λ _ c' e.
        let same : emitted c' ≡ emitted c = e.words ∙ append-nil (emitted c) in
        let here = Emits-len c [] c' s e in
        bind-Writes body (repeat rounds body) (copy_range len start) (λ _. unroll rounds start len)
          c'
          (subst (λ t. Writes c' (take len (drop start t)) (copy_range len start c')) same
            (copy_range-Writes len start c' e.same.sized (omega (arith, here))))
          (λ _ c'' e'.
            subst (λ t. Writes c'' (repeat rounds t) (unroll rounds start len c''))
              (ap (λ t. take len (drop start t)) (e'.words ∙ ap (λ t. t ++ body) same)
                ∙ slice-append (emitted c) body start len (omega (arith, length-emitted c s)))
              (unroll-Writes rounds start len c'' e'.same.sized
                (omega (arith, here, Emits-len c' body c'' e.same.sized e')))))
