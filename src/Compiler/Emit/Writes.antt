-- ===== src/Compiler/Emit/Writes.antt =====
-- src/compiler/parser.rs: the words that an action writes behind those in the stream.

use mathlib.Core.List.{append_assoc, append-nil}
use hr_os.Prelude.{
  ℕ, zero, suc, ◌+◌, ◌≤◌, ◌≡◌, refl, ap, sym, ◌∙◌, Bool-cases, inl, inr, List, [], ◌∷◌, ◌++◌,
  Result, ok, err, leb, arith, length, get_or, take, drop, length-set, length-take, length-append,
}
use hr_os.Vm.{Linkage, lit_prim, write_reg_prim, load_reg_prim}
use hr_os.Compiler.Names.{ParseError}
use hr_os.Compiler.Stream.{Compiler, M, ◌>>=◌, ◌>>◌, max_stream_words, stream_push, stream_push_lit}
use hr_os.Compiler.Stream.Programs.{emitted, take-set}
use hr_os.Compiler.Fns.{push_body}
use hr_os.Compiler.Fns.Calls.{drop-cons}
use hr_os.Compiler.Emit.{emit_poke, emit_peek}

-- The stream is as long as its buffer, and holds no more.
pub record Sized (c : Compiler) : Type 0 where
  pub size : length c.stream ≡ max_stream_words
  pub full : c.stream_len ≤ max_stream_words

-- The functions are as they were, and the stream keeps its size.
pub record Same (c c' : Compiler) : Type 0 where
  pub names : c'.fn_names ≡ c.fn_names
  pub bodies : c'.fn_bodies ≡ c.fn_bodies
  pub lens : c'.fn_body_lens ≡ c.fn_body_lens
  pub sized : Sized c'

pub record Emits (c : Compiler) (ws : List ℕ) (c' : Compiler) : Type 0 where
  pub same : Same c c'
  pub words : emitted c' ≡ emitted c ++ ws

-- On success the words are behind those of before; on an error the tables are kept.
abbrev pub Writes : {A : Type 0} → Compiler → List ℕ → Compiler × Result ParseError A → Type 0
Writes c ws (c', ok a) = Emits c ws c'
Writes c ws (c', err e) = Same c c'

pub Same-refl : (c : Compiler) → Sized c → Same c c
Same-refl c s = record { names = refl; bodies = refl; lens = refl; sized = s }

pub Same-trans : {a b c : Compiler} → Same a b → Same b c → Same a c
Same-trans s t = record {
  names = t.names ∙ s.names;
  bodies = t.bodies ∙ s.bodies;
  lens = t.lens ∙ s.lens;
  sized = t.sized;
}

pub Emits-trans :
    {a b c : Compiler} {ws vs : List ℕ} → Emits a ws b → Emits b vs c → Emits a (ws ++ vs) c
Emits-trans {a} {b} {c} {ws} {vs} s t = record {
  same = Same-trans s.same t.same;
  words = t.words ∙ ap (λ l. l ++ vs) s.words ∙ append_assoc (emitted a) ws vs;
}

pub length-emitted : (c : Compiler) → Sized c → length (emitted c) ≡ c.stream_len
length-emitted c s = length-take c.stream_len c.stream ∙ omega (arith, s.size, s.full)

pub Emits-len :
    (c : Compiler) (ws : List ℕ) (c' : Compiler)
    → Sized c
    → Emits c ws c'
    → c'.stream_len ≡ c.stream_len + length ws
Emits-len c ws c' s e =
    sym (length-emitted c' e.same.sized)
    ∙ ap length e.words
    ∙ length-append (emitted c) ws
    ∙ ap (λ n. n + length ws) (length-emitted c s)

pub Emits-nothing : (c : Compiler) → Sized c → Emits c [] c
Emits-nothing c s = record { same = Same-refl c s; words = sym (append-nil (emitted c)) }

abbrev pub then_m :
    {A B : Type 0} → (A → M B) → Compiler × Result ParseError A → Compiler × Result ParseError B
then_m f (c, ok a) = f a c
then_m f (c, err e) = (c, err e)

later :
    {B : Type 0} {a b : Compiler} (ws vs : List ℕ) (r : Compiler × Result ParseError B)
    → Emits a ws b
    → Writes b vs r
    → Writes a (ws ++ vs) r
later ws vs (c, ok x) s p = Emits-trans s p
later ws vs (c, err e) s p = Same-trans s.same p

bind_result :
    {A B : Type 0} {c : Compiler} (ws vs : List ℕ) (r : Compiler × Result ParseError A)
    (f : A → M B)
    → Writes c ws r
    → ((a : A) (c' : Compiler) → Emits c ws c' → Writes c' vs (f a c'))
    → Writes c (ws ++ vs) (then_m f r)
bind_result ws vs (c', ok a) f p k = later ws vs (f a c') p (k a c' p)
bind_result ws vs (c', err e) f p k = p

pub bind-Writes :
    {A B : Type 0} (ws vs : List ℕ) (m : M A) (f : A → M B) (c : Compiler)
    → Writes c ws (m c)
    → ((a : A) (c' : Compiler) → Emits c ws c' → Writes c' vs (f a c'))
    → Writes c (ws ++ vs) ((m >>= f) c)
bind-Writes ws vs m f c p k = bind_result ws vs (m c) f p k

pub stream_push-Writes :
    (word : ℕ) (c : Compiler) → Sized c → Writes c (word ∷ []) (stream_push word c)
unfolding stream_push
stream_push-Writes word c s = elim (Bool-cases (leb max_stream_words c.stream_len)) [
  | inl e ↦ rw e (Same-refl c s)
  | inr e ↦ rw e (record {
    same = record {
      names = refl;
      bodies = refl;
      lens = refl;
      sized = record {
        size = length-set c.stream c.stream_len word ∙ s.size;
        full = ground (arith, e);
      };
    };
    words = take-set c.stream c.stream_len word (ground (arith, e, s.size));
  })
]

module _ (link : Linkage) where
  abbrev lit : ℕ → List ℕ
  lit value = link.word_of lit_prim ∷ value ∷ []

  stream_push_lit-Writes :
      (value : ℕ) (c : Compiler)
      → Sized c
      → Writes c (link.word_of lit_prim ∷ value ∷ []) (stream_push_lit link value c)
  unfolding stream_push_lit
  stream_push_lit-Writes value c s =
      bind-Writes (link.word_of lit_prim ∷ []) (value ∷ []) (stream_push (link.word_of lit_prim))
        (λ _. stream_push value) c (stream_push-Writes (link.word_of lit_prim) c s)
        (λ _ c' e. stream_push-Writes value c' e.same.sized)

  pub emit_poke-Writes :
      (addr val : ℕ) (c : Compiler)
      → Sized c
      → Writes c
          (link.word_of lit_prim
            ∷ addr
            ∷ link.word_of lit_prim
            ∷ val
            ∷ link.word_of write_reg_prim
            ∷ [])
          (emit_poke link addr val c)
  unfolding emit_poke
  emit_poke-Writes addr val c s =
      bind-Writes (lit addr) (lit val ++ link.word_of write_reg_prim ∷ [])
        (stream_push_lit link addr)
        (λ _. stream_push_lit link val >> stream_push (link.word_of write_reg_prim)) c
        (stream_push_lit-Writes addr c s)
        (λ _ c' e.
          bind-Writes (lit val) (link.word_of write_reg_prim ∷ []) (stream_push_lit link val)
            (λ _. stream_push (link.word_of write_reg_prim)) c'
            (stream_push_lit-Writes val c' e.same.sized)
            (λ _ c'' e'. stream_push-Writes (link.word_of write_reg_prim) c'' e'.same.sized))

  pub emit_peek-Writes :
      (addr : ℕ) (c : Compiler)
      → Sized c
      → Writes c
          (link.word_of lit_prim ∷ addr ∷ link.word_of load_reg_prim ∷ [])
          (emit_peek link addr c)
  unfolding emit_peek
  emit_peek-Writes addr c s =
      bind-Writes (lit addr) (link.word_of load_reg_prim ∷ []) (stream_push_lit link addr)
        (λ _. stream_push (link.word_of load_reg_prim)) c (stream_push_lit-Writes addr c s)
        (λ _ c' e. stream_push-Writes (link.word_of load_reg_prim) c' e.same.sized)

pub push_body-Writes :
    (left w : ℕ) (body : List ℕ) (c : Compiler)
    → Sized c
    → w + left ≤ length body
    → Writes c (take left (drop w body)) (push_body left w body c)
unfolding push_body
push_body-Writes zero w body c s inside = Emits-nothing c s
push_body-Writes (suc left) w body c s inside = rw (drop-cons body w (omega arith)) (
    bind-Writes (get_or body w 0 ∷ []) (take left (drop (w + 1) body))
      (stream_push (get_or body w 0)) (λ _. push_body left (w + 1) body) c
      (stream_push-Writes (get_or body w 0) c s)
      (λ _ c' e. push_body-Writes left (w + 1) body c' e.same.sized (omega arith)))
