-- ===== src/Agent/Stream/Live.antt =====
-- A live session with a raw capture: the bytes that it records, and what it emits.
use grok.Base.{
  ◌≡◌, refl, sym, ap, ◌∙◌, true, none, some, List, [], ◌∷◌, ◌++◌, append-nil, append_assoc, Bytes,
  ok, arith,
}
use grok.Agent.Output.{Env, Outputs, Io, pure, and_then, write_raw}
use grok.Agent.Output.Sending.{and_then-eq-ok}
use grok.Agent.Output.Separate.{set_raw, IgnoresRaw, >>=-IgnoresRaw}
use grok.Agent.Stream.{ReadEvent, read, interrupted, failed, Ending, run_loop, emit_list, received}
use grok.Agent.Stream.Replay.{Produces, settled, emit_list-append}

emit_list-IgnoresRaw :
    {F : Type 0} (emit : F → Io (Unit {0})) (fs : List F)
    → ((f : F) → IgnoresRaw (emit f))
    → IgnoresRaw (emit_list emit fs)
unfolding emit_list
emit_list-IgnoresRaw emit [] h = λ raw out. refl
emit_list-IgnoresRaw emit (f ∷ fs) h =
    >>=-IgnoresRaw (emit f) _ (h f) (λ _. emit_list-IgnoresRaw emit fs h)

module _ {S F : Type 0} (env : Env) {emit : F → Io (Unit {0})} {handle : S → Bytes → Io S}
    (law : Produces emit handle) (free : (f : F) → IgnoresRaw (emit f)) where
  write_raw-some :
      (bytes old : Bytes) (out out' : Outputs)
      → out.raw ≡ some old
      → write_raw env bytes out ≡ (ok tt, out')
      → (out'.raw ≡ some (old ++ bytes)) × (set_raw none out' ≡ set_raw none out)
  unfolding write_raw
  write_raw-some bytes old out out' h e = ground arith

  -- The bytes of a read, handled without an error.
  record Handled (s : S) (bytes : Bytes) (out : Outputs) (s' : S) (out' : Outputs) : Type 0 where
    next : s' ≡ law.next s bytes
    emitted : emit_list emit (law.produced s bytes) (set_raw none out) ≡ (ok tt, set_raw none out')
    same_raw : out'.raw ≡ out.raw

  handle-Handled :
      (s : S) (bytes : Bytes) (out : Outputs) (s' : S) (out' : Outputs)
      → handle s bytes out ≡ (ok s', out')
      → Handled s bytes out s' out'
  handle-Handled s bytes out s' out' e =
      let run : and_then (λ (_ : Unit {0}). pure (law.next s bytes))
            (emit_list emit (law.produced s bytes) out)
          ≡ (ok s', out') =
        sym (ap (λ (m : Io S). m out) (law.handled s bytes)) ∙ e in
      let c = and_then-eq-ok _ (emit_list emit (law.produced s bytes) out) s' out' run in
      let free_all = emit_list-IgnoresRaw emit (law.produced s bytes) free in
      let first : emit_list emit (law.produced s bytes) out ≡ (ok tt, out') =
        c.first ∙ ap (λ o. (ok tt, o)) (ap (λ r. r.1) c.then_) in
      record {
        next = let same = ap (λ r. r.0) c.then_ in cc;
        emitted = free_all none out ∙ ap (λ r. (r.0, set_raw none r.1)) first;
        same_raw = sym (ap (λ r. r.1.raw) first) ∙ ap (λ r. r.1.raw) (free_all out.raw out);
      }

  -- The emission of what some bytes produce, and of what those behind them do.
  emitted-append :
      (s s' : S) (bytes behind : Bytes) (out middle after : Outputs)
      → s' ≡ law.next s bytes
      → emit_list emit (law.produced s bytes) out ≡ (ok tt, middle)
      → emit_list emit (law.produced s' behind) middle ≡ (ok tt, after)
      → emit_list emit (law.produced s (bytes ++ behind)) out ≡ (ok tt, after)
  unfolding and_then
  emitted-append s s' bytes behind out middle after n first second =
      ap (λ fs. emit_list emit fs out) (law.cut s bytes behind)
      ∙ emit_list-append emit (law.produced s bytes) (law.produced (law.next s bytes) behind) out
      ∙ ap (and_then (λ (_ : Unit {0}). emit_list emit (law.produced (law.next s bytes) behind)))
          first
      ∙ ap (λ x. emit_list emit (law.produced x behind) middle) (sym n)
      ∙ second

  -- As long as nothing fails, the raw capture grows by the bytes that are read, and the other outputs
  -- are as the emission of what these produce leaves them.
  pub run_loop-live :
      (events : List ReadEvent) (s : S) (old : Bytes) (e : Ending) (out out' : Outputs)
      → law.produced s [] ≡ []
      → out.raw ≡ some old
      → run_loop (write_raw env) handle true events s out ≡ (ok e, out')
      → (out'.raw ≡ some (old ++ received events))
        × (emit_list emit (law.produced s (received events)) (set_raw none out)
            ≡ (ok tt, set_raw none out'))
  unfolding run_loop
  run_loop-live [] s old e out out' n r q =
      let same : out ≡ out' = ap (λ r. r.1) q in
      (
        sym (ap (λ o. o.raw) same) ∙ r ∙ ap some (sym (append-nil old)),
        ap (λ fs. emit_list emit fs (set_raw none out)) n
            ∙ unfold emit_list in ap (λ o. (ok tt, set_raw none o)) same,
      )
  run_loop-live (read [] ∷ events) s old e out out' n r q =
      run_loop-live events s old e out out' n r q
  run_loop-live (interrupted ∷ events) s old e out out' n r q =
      run_loop-live events s old e out out' n r q
  run_loop-live (failed x ∷ events) s old e out out' n r q = absurd (cc)
  run_loop-live (read (b ∷ bs) ∷ events) s old e out out' n r q =
      let c = and_then-eq-ok _ (write_raw env (b ∷ bs) out) e out' q in
      let d = and_then-eq-ok _ (handle s (b ∷ bs) c.middle) e out' c.then_ in
      let (raw1, kept) = write_raw-some (b ∷ bs) old out c.middle r (ground (arith, c.first)) in
      let h = handle-Handled s (b ∷ bs) c.middle d.value d.middle d.first in
      let later =
        run_loop-live events d.value (old ++ (b ∷ bs)) e d.middle out'
          (ap (λ x. law.produced x []) h.next ∙ settled law s (b ∷ bs)) (h.same_raw ∙ raw1)
          d.then_ in
      (
        later.0 ∙ ap some (append_assoc old (b ∷ bs) (received events)),
        emitted-append s d.value (b ∷ bs) (received events) (set_raw none out) _ _ h.next
            (ap (emit_list emit (law.produced s (b ∷ bs))) (sym kept) ∙ h.emitted) later.1,
      )
