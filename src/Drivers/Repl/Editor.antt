-- ===== src/Drivers/Repl/Editor.antt =====
-- src/drivers/repl.rs: the line that is edited is the line that the terminal shows.
use mathlib.Core.List.{append_assoc, append-nil}
use hr_os.Prelude.{
  ℕ, zero, suc, ◌-◌, ◌≤◌, ◌<◌, ◌≡◌, ◌≢◌, refl, ap, sym, ◌∙◌, inl, inr, true, false, ◌||◌, ◌&&◌,
  Bool-cases, List, [], ◌∷◌, ◌++◌, ltb, leb, ◌==◌, if◌then◌else◌, arith, codes, length, get_or,
  take, take-append, length-set, length-take, length-append,
}
use hr_os.Compiler.Stream.Programs.{take-set}
use hr_os.Drivers.Repl.{
  State, evaluating, line_max, Line, prompt, rubout, rubouts, backspace, typed, feed_byte, feed,
}

pub record IsValid (l : Line) : Type 0 where
  pub size : length l.line_buf ≡ line_max
  pub fits : l.line_len ≤ line_max

-- The text typed so far.
abbrev pub text : Line → List ℕ
text l = take l.line_len l.line_buf

-- What a byte does to a text: the specification of the editor.
unfoldable pub edit_byte : ℕ → List ℕ → List ℕ
edit_byte byte t =
    if leb 0x20 byte && leb byte 0x7E
    then if ltb (length t) line_max then t ++ byte ∷ [] else t
    else if byte == 0x08 || byte == 0x7F
    then take (length t - 1) t
    else if byte == 0x15 || byte == 0x03
    then []
    else t

unfoldable pub edit : ℕ → List ℕ → List ℕ
unfolding edit_byte
edit byte t = edit_byte (if byte == 0x09 then 0x20 else byte) t

-- A terminal shows the characters left of its cursor; a backspace moves the cursor, a carriage
-- return and a line feed begin a line.
unfoldable pub show : List ℕ → List ℕ → List ℕ
show line [] = line
show line (b ∷ out) =
    show
      (if b == 0x08
        then take (length line - 1) line
        else if b == 0x0D || b == 0x0A
        then []
        else line ++ b ∷ [])
      out

take_last : (xs : List ℕ) (b : ℕ) → take (length (xs ++ b ∷ []) - 1) (xs ++ b ∷ []) ≡ xs
take_last xs b =
    ap (λ n. take n (xs ++ b ∷ [])) {x = length (xs ++ b ∷ []) - 1} {y = length xs}
      (omega (arith, length-append xs (b ∷ [])))
    ∙ take-append xs (b ∷ [])

take-take : (xs : List ℕ) (m n : ℕ) → m ≤ n → take m (take n xs) ≡ take m xs
take-take xs zero n h = refl
take-take xs (suc m) zero h = absurd (omega arith)
take-take [] (suc m) (suc n) h = refl
take-take (x ∷ xs) (suc m) (suc n) h = ap (λ t. x ∷ t) (take-take xs m n (omega arith))

take_snoc :
    (xs : List ℕ) (n : ℕ) → n < length xs → take (suc n) xs ≡ take n xs ++ get_or xs n 0 ∷ []
take_snoc [] n h = absurd (omega arith)
take_snoc (x ∷ xs) zero h = refl
take_snoc (x ∷ xs) (suc n) h = ap (λ t. x ∷ t) (take_snoc xs n (omega arith))

-- A rub-out takes the last character away.
show-rubout : (line out : List ℕ) (b : ℕ) → show (line ++ b ∷ []) (rubout ++ out) ≡ show line out
unfolding show
show-rubout line out b =
    ap (λ t. show (take (length (t ++ 0x20 ∷ []) - 1) (t ++ 0x20 ∷ [])) out) (take_last line b)
    ∙ ap (λ t. show t out) (take_last line 0x20)

show-rubouts :
    (front xs : List ℕ) (n : ℕ) → n ≤ length xs → show (front ++ take n xs) (rubouts n) ≡ front
unfolding rubouts show
show-rubouts front xs zero h = append-nil front
show-rubouts front xs (suc n) h =
    ap (λ t. show t (rubouts (suc n)))
      (ap (λ t. front ++ t) (take_snoc xs n (omega arith))
        ∙ sym (append_assoc front (take n xs) (get_or xs n 0 ∷ [])))
    ∙ show-rubout (front ++ take n xs) (rubouts n) (get_or xs n 0)
    ∙ show-rubouts front xs n (omega arith)

show-typed :
    (line : List ℕ) (b : ℕ) → leb 0x20 b && leb b 0x7E ≡ true → show line (b ∷ []) ≡ line ++ b ∷ []
unfolding show
show-typed line b h = ground (arith, h)

show_nothing : (line : List ℕ) → show line [] ≡ line
unfolding show
show_nothing line = refl

erased :
    (front xs : List ℕ) (n m : ℕ)
    → n ≡ suc m
    → n ≤ length xs
    → show (front ++ take n xs) rubout ≡ front ++ take m xs
unfolding show
erased front xs n m e h =
    ap (λ t. show (front ++ t) rubout) (ap (λ k. take k xs) e ∙ take_snoc xs m (omega arith))
    ∙ ap (λ t. show t rubout) (sym (append_assoc front (take m xs) (get_or xs m 0 ∷ [])))
    ∙ show-rubout (front ++ take m xs) [] (get_or xs m 0)

record Edited (t : List ℕ) (l : Line) (r : State × Line × List ℕ) : Type 0 where
  valid : IsValid r.1
  same : text r.1 ≡ t
  shown : r.0 ≢ evaluating → show (prompt ++ text l) r.2 ≡ prompt ++ text r.1

length-text : (l : Line) → IsValid l → length (text l) ≡ l.line_len
length-text l v = length-take l.line_len l.line_buf ∙ omega (arith, v.size, v.fits)

backspace-Edited :
    (l : Line) → IsValid l → Edited (take (length (text l) - 1) (text l)) l (backspace l)
unfolding backspace
backspace-Edited l v = elim (Bool-cases (ltb 0 l.line_len)) [
  | inl e ↦ rw e (record {
    valid = record { size = v.size; fits = omega (arith, v.fits) };
    same =
        sym (take-take l.line_buf (l.line_len - 1) l.line_len (omega arith))
        ∙ ap (λ n. take (n - 1) (text l)) (sym (length-text l v));
    shown = λ _.
        erased prompt l.line_buf l.line_len (l.line_len - 1) (ground (arith, e))
          (omega (arith, v.size, v.fits));
  })
  | inr e ↦ rw e (record {
    valid = v;
    same =
        let z : l.line_len ≡ 0 = ground (arith, e) in
        let nothing : text l ≡ [] = ap (λ k. take k l.line_buf) z in
        nothing ∙ sym (ap (λ t. take (length t - 1) t) nothing);
    shown = λ _. show_nothing (prompt ++ text l);
  })
]

typed-Edited :
    (byte : ℕ) (l : Line)
    → IsValid l
    → leb 0x20 byte && leb byte 0x7E ≡ true
    → Edited
        (if ltb (length (text l)) line_max then text l ++ byte ∷ [] else text l)
        l
        (typed byte l)
unfolding typed
typed-Edited byte l v printable = elim (Bool-cases (ltb l.line_len line_max)) [
  | inl e ↦
      rw (length-text l v, e)
        (record {
          valid = record {
            size = length-set l.line_buf l.line_len byte ∙ v.size;
            fits = ground (arith, e);
          };
          same = take-set l.line_buf l.line_len byte (ground (arith, e, v.size));
          shown = λ _.
              show-typed (prompt ++ text l) byte printable
              ∙ ap (λ t. prompt ++ t)
                  (sym (take-set l.line_buf l.line_len byte (ground (arith, e, v.size))));
        })
  | inr e ↦
      rw (length-text l v, e)
        (record { valid = v; same = refl; shown = λ _. show_nothing (prompt ++ text l) })
]

show_cancel : (line : List ℕ) → show line (codes "^C" ++ 0x0D ∷ 0x0A ∷ prompt) ≡ prompt
unfolding show
show_cancel line = refl

-- Each test of `feed_byte` in turn, with what the specification says then.
byte-Edited :
    (byte : ℕ) (l : Line) → IsValid l → Edited (edit_byte byte (text l)) l (feed_byte byte l)
unfolding feed_byte edit_byte
byte-Edited byte l v = elim (Bool-cases (byte == 0x0D || byte == 0x0A)) [
  | inl e ↦
      let plain : (leb 0x20 byte && leb byte 0x7E) ≡ false = ground (arith, e) in
      let kept : (byte == 0x08 || byte == 0x7F) ≡ false = ground (arith, e) in
      let still : (byte == 0x15 || byte == 0x03) ≡ false = ground (arith, e) in
      rw (e, plain, kept, still) (record { valid = v; same = refl; shown = λ ne. absurd (ne refl) })
  | inr e₁ ↦ elim (Bool-cases (byte == 0x08 || byte == 0x7F)) [
    | inl e ↦
        let plain : (leb 0x20 byte && leb byte 0x7E) ≡ false = ground (arith, e) in
        rw (e₁, e, plain) (backspace-Edited l v)
    | inr e₂ ↦ elim (Bool-cases (byte == 0x15)) [
      | inl e ↦
          let plain : (leb 0x20 byte && leb byte 0x7E) ≡ false = ground (arith, e) in
          rw (e₁, e₂, e, plain)
            (record {
              valid = record { size = v.size; fits = omega arith };
              same = refl;
              shown =
                  λ _. show-rubouts prompt l.line_buf l.line_len (omega (arith, v.size, v.fits));
            })
      | inr e₃ ↦ elim (Bool-cases (byte == 0x03)) [
        | inl e ↦
            let plain : (leb 0x20 byte && leb byte 0x7E) ≡ false = ground (arith, e) in
            rw (e₁, e₂, e₃, e, plain)
              (record {
                valid = record { size = v.size; fits = omega arith };
                same = refl;
                shown = λ _. show_cancel (prompt ++ text l);
              })
        | inr e₄ ↦ elim (Bool-cases (leb 0x20 byte && leb byte 0x7E)) [
          | inl e ↦ rw (e₁, e₂, e₃, e₄, e) (typed-Edited byte l v e)
          | inr e ↦
              rw (e₁, e₂, e₃, e₄, e)
                (record { valid = v; same = refl; shown = λ _. show_nothing (prompt ++ text l) })
        ]
      ]
    ]
  ]
]

-- On a valid line, every byte edits the text as the specification says and leaves the line valid;
-- and unless it ends the line, a terminal that showed the prompt and the text shows the prompt and
-- the edited text once the echo has been written to it.
pub feed-edits :
    (byte : ℕ) (l : Line)
    → IsValid l
    → let (state, l', out) = feed byte l in
      IsValid l'
      × (text l' ≡ edit byte (text l))
      × (state ≢ evaluating → show (prompt ++ text l) out ≡ prompt ++ text l')
unfolding feed edit
feed-edits byte l v =
    let done = byte-Edited (if byte == 0x09 then 0x20 else byte) l v in
    (done.valid, done.same, done.shown)
