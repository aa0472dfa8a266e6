-- ===== src/Compiler/Command/Keeps.antt =====
-- src/compiler/parser.rs: what an invariant has to bear: a push, a reset and a binding.
use hr_os.Prelude.{
  ℕ, zero, suc, ◌+◌, ◌-◌, inl, inr, Bool, true, false, Bool-cases, Option, none, some, List, [],
  Result, ok, err, ltb, get_or,
}
use hr_os.Vm.{lit_prim, halt_prim, write_reg_prim, load_reg_prim}
use hr_os.Compiler.Names.{ParseError, NameBuf}
use hr_os.Compiler.Cursor.{Cur}
use hr_os.Compiler.Stream.{
  Compiler, M, ◌>>=◌, max_stream_words, stream_reset, stream_push, stream_push_lit, stream_halt,
  take_program, build_value_program,
}
use hr_os.Compiler.Fns.{find_fn, push_body, push_fn, need_fn, build_call_program}
use hr_os.Compiler.Fns.Calls.{need_from}
use hr_os.Compiler.Emit.{
  emit_poke, emit_peek, copy_word, copy_range, need_room, unroll, unroll_from,
}
use hr_os.Compiler.Emit.Writes.{then_m}
use hr_os.Compiler.Action.{Env, insert}
use hr_os.Compiler.Action.Safe.{Keeps}
use hr_os.Compiler.Body.Safe.{Stable}
use hr_os.Compiler.Body.{define_body}

bind-Keeps :
    {A B : Type 0} {I : Compiler → Type 0} (m : M A) (f : A → M B)
    → Keeps I m
    → ((a : A) → Keeps I (f a))
    → Keeps I (m >>= f)
bind-Keeps {A = A} {I = I} m f k l c i = go (m c) (k c i)
  where
    go : (r : Compiler × Result ParseError A) → I r.0 → I (then_m f r).0
    go (c', ok a) j = l a c' j
    go (c', err e) j = j

-- What keeps an invariant that a push and a reset keep.
module _ {I : Compiler → Type 0} (push : (word : ℕ) → Keeps I (stream_push word))
    (reset : Keeps I stream_reset) where
  copy_range-Keeps : (left i : ℕ) → Keeps I (copy_range left i)
  unfolding copy_range copy_word
  copy_range-Keeps zero i = λ c k. k
  copy_range-Keeps (suc left) i =
      bind-Keeps (copy_word i) (λ _. copy_range left (i + 1)) (λ c. push (get_or c.stream i 0) c)
        (λ _. copy_range-Keeps left (i + 1))

  need_room-Keeps : (len : ℕ) → Keeps I (need_room len)
  unfolding need_room
  need_room-Keeps len c k = elim (Bool-cases (ltb max_stream_words (c.stream_len + len))) [
    | inl e ↦ rw e k
    | inr e ↦ rw e k
  ]

  unroll-Keeps : (rounds start len : ℕ) → Keeps I (unroll rounds start len)
  unfolding unroll
  unroll-Keeps zero start len = λ c k. k
  unroll-Keeps (suc rounds) start len =
      bind-Keeps (need_room len) (λ _. copy_range len start >>= (λ _. unroll rounds start len))
        (need_room-Keeps len)
        (λ _.
          bind-Keeps (copy_range len start) (λ _. unroll rounds start len)
            (copy_range-Keeps len start) (λ _. unroll-Keeps rounds start len))

  push_body-Keeps : (left w : ℕ) (body : List ℕ) → Keeps I (push_body left w body)
  unfolding push_body
  push_body-Keeps zero w body = λ c k. k
  push_body-Keeps (suc left) w body =
      bind-Keeps (stream_push (get_or body w 0)) (λ _. push_body left (w + 1) body)
        (push (get_or body w 0)) (λ _. push_body-Keeps left (w + 1) body)

  need_fn-Keeps : (name : List ℕ) → Keeps I (need_fn name)
  unfolding need_fn
  need_fn-Keeps name c k = go (find_fn name c)
    where
      go : (r : Option ℕ) → I (need_from c r).0
      go (some i) = k
      go none = k

  module _ (env : Env) where
    stream_push_lit-Keeps : (value : ℕ) → Keeps I (stream_push_lit env.link value)
    unfolding stream_push_lit
    stream_push_lit-Keeps value =
        bind-Keeps (stream_push (env.link.word_of lit_prim)) (λ _. stream_push value)
          (push (env.link.word_of lit_prim)) (λ _. push value)

    stream_halt-Keeps : Keeps I (stream_halt env.link)
    unfolding stream_halt
    stream_halt-Keeps = push (env.link.word_of halt_prim)

    take_program-Keeps : (y : Bool) → Keeps I (take_program y)
    unfolding take_program
    take_program-Keeps y c k = k

    emit_poke-Keeps : (addr val : ℕ) → Keeps I (emit_poke env.link addr val)
    unfolding emit_poke
    emit_poke-Keeps addr val =
        bind-Keeps (stream_push_lit env.link addr)
          (λ _.
            stream_push_lit env.link val >>= (λ _. stream_push (env.link.word_of write_reg_prim)))
          (stream_push_lit-Keeps addr)
          (λ _.
            bind-Keeps (stream_push_lit env.link val)
              (λ _. stream_push (env.link.word_of write_reg_prim)) (stream_push_lit-Keeps val)
              (λ _. push (env.link.word_of write_reg_prim)))

    emit_peek-Keeps : (addr : ℕ) → Keeps I (emit_peek env.link addr)
    unfolding emit_peek
    emit_peek-Keeps addr =
        bind-Keeps (stream_push_lit env.link addr)
          (λ _. stream_push (env.link.word_of load_reg_prim)) (stream_push_lit-Keeps addr)
          (λ _. push (env.link.word_of load_reg_prim))

    halted-Keeps : (y : Bool) → Keeps I (stream_halt env.link >>= (λ _. take_program y))
    halted-Keeps y =
        bind-Keeps (stream_halt env.link) (λ _. take_program y) stream_halt-Keeps
          (λ _. take_program-Keeps y)

    build_value_program-Keeps : (value : ℕ) → Keeps I (build_value_program env.link value)
    unfolding build_value_program
    build_value_program-Keeps value =
        bind-Keeps stream_reset
          (λ _.
            stream_push_lit env.link value
            >>= (λ _. stream_halt env.link >>= (λ _. take_program true)))
          reset
          (λ _.
            bind-Keeps (stream_push_lit env.link value)
              (λ _. stream_halt env.link >>= (λ _. take_program true)) (stream_push_lit-Keeps value)
              (λ _. halted-Keeps true))

    push_fn-Keeps : (index : ℕ) → Keeps I (push_fn index)
    unfolding push_fn
    push_fn-Keeps index c k =
        push_body-Keeps (get_or c.fn_body_lens index 0) 0 (get_or c.fn_bodies index []) c k

    build_call_program-Keeps : (name : List ℕ) → Keeps I (build_call_program env.link name)
    unfolding build_call_program
    build_call_program-Keeps name =
        bind-Keeps (need_fn name)
          (λ index.
            stream_reset
            >>= (λ _. push_fn index >>= (λ _. stream_halt env.link >>= (λ _. take_program false))))
          (need_fn-Keeps name)
          (λ index.
            bind-Keeps stream_reset
              (λ _. push_fn index >>= (λ _. stream_halt env.link >>= (λ _. take_program false)))
              reset
              (λ _.
                bind-Keeps (push_fn index) (λ _. stream_halt env.link >>= (λ _. take_program false))
                  (push_fn-Keeps index) (λ _. halted-Keeps false)))

    pub stable :
        ((name : NameBuf) (v : ℕ) → Keeps I (insert name v))
        → ((name : NameBuf) (c : Compiler) (cur : Cur) → I c → I (define_body env name c cur).0)
        → Stable env I
    unfolding unroll_from
    stable binding body = record {
      poke_word = emit_poke-Keeps;
      peek_word = emit_peek-Keeps;
      copies = λ count c k. unroll-Keeps (count - 1) 0 (c.stream_len - 0) c k;
      reset = reset;
      halt = stream_halt-Keeps;
      program = take_program-Keeps;
      value = build_value_program-Keeps;
      call = build_call_program-Keeps;
      binding = binding;
      body = body;
    }
