-- ===== src/Agent/Stream/Replay.antt =====
-- The loop at the end of a file: how the reads cut the stream does not matter, if it does not matter
-- to what is done with their bytes.
use mathlib.Core.Path.{fun_ext}
use grok.Base.{
  ◌≡◌, refl, sym, ap, ◌∙◌, false, List, [], ◌∷◌, ◌++◌, append-nil, length, length-append, arith,
  Bytes, Result, ok, err,
}
use grok.Agent.Output.{Failure, Outputs, Io, pure, and_then}
use grok.Agent.Stream.{
  ReadEvent, read, interrupted, failed, Ending, ended, run_loop, emit_list, received, IsFlowing,
}

pub and_then_assoc :
    {A B C : Type 0} (f : A → Io B) (g : B → Io C) (r : Result Failure A × Outputs)
    → and_then g (and_then f r) ≡ and_then (λ a out. and_then g (f a out)) r
unfolding and_then
and_then_assoc f g (ok a, out) = refl
and_then_assoc f g (err e, out) = refl

-- What is kept by an action and by what follows it.
pub and_then-keeps :
    {A B : Type 0} (P : Outputs → Type 0) (f : A → Io B) (r : Result Failure A × Outputs)
    → P r.1
    → ((a : A) (o : Outputs) → P o → P (f a o).1)
    → P (and_then f r).1
unfolding and_then
and_then-keeps P f (ok a, o) h k = k a o h
and_then-keeps P f (err e, o) h k = h

-- What is done with the bytes of a read, as the emission of what they produce.
pub record Produces {S F : Type 0} (emit : F → Io (Unit {0})) (handle : S → Bytes → Io S)
    : Type 0 where
  pub produced : S → Bytes → List F
  pub next : S → Bytes → S
  pub handled :
      (s : S) (bytes : Bytes)
      → handle s bytes ≡ λ out.
          and_then (λ (_ : Unit {0}). pure (next s bytes)) (emit_list emit (produced s bytes) out)
  pub cut :
      (s : S) (xs ys : Bytes) → produced s (xs ++ ys) ≡ produced s xs ++ produced (next s xs) ys

eq_nil_of_append : {F : Type 0} (xs ys : List F) → xs ≡ xs ++ ys → ys ≡ []
eq_nil_of_append xs [] h = refl
eq_nil_of_append xs (y ∷ ys) h = absurd (omega (arith, length-append xs (y ∷ ys), ap length h))

-- Behind some bytes, nothing is left to be produced.
pub settled :
    {S F : Type 0} {emit : F → Io (Unit {0})} {handle : S → Bytes → Io S}
    (law : Produces emit handle) (s : S) (bytes : Bytes)
    → law.produced (law.next s bytes) [] ≡ []
settled law s bytes =
    eq_nil_of_append (law.produced s bytes) _
      (ap (law.produced s) (sym (append-nil bytes)) ∙ law.cut s bytes [])

module _ {F : Type 0} (emit : F → Io (Unit {0})) where
  pub emit_list-append :
      (fs gs : List F) (out : Outputs)
      → emit_list emit (fs ++ gs) out
        ≡ and_then (λ (_ : Unit {0}). emit_list emit gs) (emit_list emit fs out)
  unfolding emit_list
  emit_list-append [] gs out = unfold and_then in refl
  emit_list-append (f ∷ fs) gs out =
      ap (λ (m : Io (Unit {0})). and_then (λ (_ : Unit {0}). m) (emit f out))
        (fun_ext (emit_list-append fs gs))
      ∙ sym (
          and_then_assoc (λ (_ : Unit {0}). emit_list emit fs) (λ _. emit_list emit gs)
            (emit f out))

  -- What every emission keeps of the outputs.
  pub emit_list-keeps :
      (P : Outputs → Type 0) (fs : List F) (out : Outputs)
      → ((f : F) (o : Outputs) → P o → P (emit f o).1)
      → P out
      → P (emit_list emit fs out).1
  unfolding emit_list
  emit_list-keeps P [] out keeps h = h
  emit_list-keeps P (f ∷ fs) out keeps h =
      and_then-keeps P (λ (_ : Unit {0}). emit_list emit fs) (emit f out) (keeps f out h)
        (λ _ o k. emit_list-keeps P fs o keeps k)

pub and_then-cong :
    {A B : Type 0} (f g : A → Io B) (r : Result Failure A × Outputs)
    → ((a : A) → f a r.1 ≡ g a r.1)
    → and_then f r ≡ and_then g r
unfolding and_then
and_then-cong f g (ok a, out) h = h a
and_then-cong f g (err e, out) h = refl

-- `P` is what the outputs are while nothing is recorded: the raw write leaves such outputs alone,
-- and the emissions keep them so.
module _ {S F : Type 0} {emit : F → Io (Unit {0})} {handle : S → Bytes → Io S}
    (record_raw : Bytes → Io (Unit {0})) (law : Produces emit handle) (P : Outputs → Type 0)
    (idle : (bytes : Bytes) (out : Outputs) → P out → record_raw bytes out ≡ (ok tt, out))
    (keeps : (f : F) (out : Outputs) → P out → P (emit f out).1) where
  -- A read of some bytes, when the rest of the run is known.
  run-read :
      (bytes : Bytes) (later_items : List F) (s : S) (out : Outputs) (go : S → Io Ending)
      (later : (o : Outputs)
        → P o
        → go (law.next s bytes) o
          ≡ and_then (λ (_ : Unit {0}). pure ended) (emit_list emit later_items o))
      → P out
      → and_then (λ (_ : Unit {0}) o. and_then go (handle s bytes o)) (record_raw bytes out)
        ≡ and_then
            (λ (_ : Unit {0}). pure ended)
            (emit_list emit (law.produced s bytes ++ later_items) out)
  run-read bytes gs s out go later p = rw (idle bytes out p) (
      opened
      ∙ ap (λ (m : Io S). and_then go (m out)) (law.handled s bytes)
      ∙ and_then_assoc (λ (_ : Unit {0}). pure (law.next s bytes)) go done
      ∙ and_then-cong (λ (_ : Unit {0}) o. and_then go (pure (law.next s bytes) o))
          (λ (_ : Unit {0}) o. and_then finish (emit_list emit gs o)) done (λ _. rest)
      ∙ sym (and_then_assoc (λ (_ : Unit {0}). emit_list emit gs) finish done)
      ∙ ap (and_then finish) (sym (emit_list-append emit (law.produced s bytes) gs out)))
    where
      finish : Unit {0} → Io Ending
      finish _ = pure ended

      done : Result Failure (Unit {0}) × Outputs
      done = emit_list emit (law.produced s bytes) out

      opened :
          and_then (λ (_ : Unit {0}) o. and_then go (handle s bytes o)) (ok tt, out)
          ≡ and_then go (handle s bytes out)
      opened = unfold and_then in refl

      rest :
          and_then go (pure (law.next s bytes) done.1) ≡ and_then finish (emit_list emit gs done.1)
      rest =
          unfold and_then in
          later done.1 (emit_list-keeps emit P (law.produced s bytes) out keeps p)

  -- What is emitted up to the end is what the whole stream produces.
  pub run_loop-replay :
      (events rest : List ReadEvent) (s : S) (out : Outputs)
      → IsFlowing events
      → law.produced s [] ≡ []
      → P out
      → run_loop record_raw handle false (events ++ (read [] ∷ rest)) s out
        ≡ and_then (λ _. pure ended) (emit_list emit (law.produced s (received events)) out)
  unfolding run_loop
  run_loop-replay [] rest s out h n p = unfold emit_list and_then in rw n
  run_loop-replay (read [] ∷ events) rest s out h n p = absurd h
  run_loop-replay (interrupted ∷ events) rest s out h n p = run_loop-replay events rest s out h n p
  run_loop-replay (failed e ∷ events) rest s out h n p = absurd h
  run_loop-replay (read (b ∷ bs) ∷ events) rest s out h n p =
      run-read (b ∷ bs) _ s out (run_loop record_raw handle false (events ++ (read [] ∷ rest)))
        (λ o. run_loop-replay events rest _ o h (settled law s (b ∷ bs))) p
      ∙ ap (λ items. and_then (λ (_ : Unit {0}). pure ended) (emit_list emit items out))
          (sym (law.cut s (b ∷ bs) (received events)))
