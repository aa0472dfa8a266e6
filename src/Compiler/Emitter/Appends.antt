-- ===== src/Compiler/Emitter/Appends.antt =====
-- src/compiler/emitter.rs: what an emission that succeeds puts in the buffer.

use mathlib.Core.List.{append_assoc, append-nil}
use hr_os.Prelude.{
  ℕ, ◌+◌, ◌≤◌, ◌<◌, ◌≡◌, refl, ap, sym, ◌∙◌, false, List, [], ◌∷◌, ◌++◌, Result, ok, err, leb,
  arith, length, take, set, length-set, length-append,
}
use hr_os.Compiler.Stream.Programs.{take-set}
use hr_os.Compiler.Emitter.{EmitError, Emitter, E, ◌>>◌, write_unit, push16}
use hr_os.Compiler.Emitter.Thumb2.{push_pair, done}
use hr_os.Compiler.Emitter.Bounds.{IsValid, next_call}

-- The units in the buffer.
abbrev pub code : Emitter → List ℕ
code em = take em.len_words em.buffer

-- The emission succeeds, and its units are behind those of before.
pub record Appends (em : Emitter) (ws : List ℕ) (r : Emitter × Result EmitError (Unit {0}))
    : Type 0 where
  pub succeeds : r.1 ≡ ok tt
  pub valid : IsValid r.0
  pub cap : r.0.cap_words ≡ em.cap_words
  pub len : r.0.len_words ≡ em.len_words + length ws
  pub words : code r.0 ≡ code em ++ ws

write_unit-Appends :
    (unit : ℕ) (em : Emitter)
    → IsValid em
    → em.len_words < em.cap_words
    → Appends em (unit ∷ []) (write_unit unit em, ok tt)
unfolding write_unit
write_unit-Appends unit em v lt = record {
  succeeds = refl;
  valid = record {
    size = length-set em.buffer em.cursor unit ∙ v.size;
    lockstep = omega (arith, v.lockstep);
    fits = omega arith;
  };
  cap = refl;
  len = omega arith;
  words =
      ap (λ k. take (em.len_words + 1) (set em.buffer k unit)) v.lockstep
      ∙ take-set em.buffer em.len_words unit (omega (arith, v.size));
}

pub push16-Appends :
    (hw : ℕ) (em : Emitter)
    → IsValid em
    → em.len_words < em.cap_words
    → Appends em (hw ∷ []) (push16 hw em)
unfolding push16
push16-Appends hw em v lt =
    let room : leb em.cap_words em.len_words ≡ false = ground arith in
    rw room (write_unit-Appends hw em v lt)

next-Appends :
    (em : Emitter) (r : Emitter × Result EmitError (Unit {0})) (n : E) (ws vs : List ℕ)
    → Appends em ws r
    → Appends r.0 vs (n r.0)
    → Appends em (ws ++ vs) (next_call n r)
next-Appends em (em', ok _) n ws vs a b = record {
  succeeds = b.succeeds;
  valid = b.valid;
  cap = b.cap ∙ a.cap;
  len = omega (arith, a.len, b.len, length-append ws vs);
  words = b.words ∙ ap (λ t. t ++ vs) a.words ∙ append_assoc (code em) ws vs;
}
next-Appends em (em', err e) n ws vs a b = absurd (let e' = a.succeeds in cc)

pub then-Appends :
    (em : Emitter) (m n : E) (ws vs : List ℕ)
    → Appends em ws (m em)
    → ((em' : Emitter)
        → IsValid em'
        → em'.len_words ≡ em.len_words + length ws
        → em'.cap_words ≡ em.cap_words
        → Appends em' vs (n em'))
    → Appends em (ws ++ vs) ((m >> n) em)
then-Appends em m n ws vs a k = next-Appends em (m em) n ws vs a (k (m em).0 a.valid a.len a.cap)

pub push_pair-Appends :
    (hws : ℕ × ℕ) (em : Emitter)
    → IsValid em
    → em.len_words + 2 ≤ em.cap_words
    → Appends em (hws.0 ∷ hws.1 ∷ []) (push_pair hws em)
unfolding push_pair
push_pair-Appends (a, b) em v room =
    then-Appends em (push16 a) (push16 b) (a ∷ []) (b ∷ []) (push16-Appends a em v (omega arith))
      (λ em' v' len cap. push16-Appends b em' v' (omega (arith, len, cap)))

pub done-Appends : (em : Emitter) → IsValid em → Appends em [] (done em)
done-Appends em v = record {
  succeeds = refl;
  valid = v;
  cap = refl;
  len = omega arith;
  words = sym (append-nil (code em));
}
