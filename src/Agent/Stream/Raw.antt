-- ===== src/Agent/Stream/Raw.antt =====
-- The loop with a raw capture: what it holds in the end.
use grok.Base.{
  ◌≡◌, sym, ap, ◌∙◌, Bool, some, List, [], ◌∷◌, ◌++◌, append-nil, append_assoc, Bytes, ok, arith,
}
use grok.Agent.Output.{Env, Outputs, Io, write_raw}
use grok.Agent.Output.Sending.{and_then-eq-ok}
use grok.Agent.Output.Quiet.{KeepsRaw}
use grok.Agent.Stream.{ReadEvent, read, interrupted, failed, Ending, run_loop, received, IsFlowing}

module _ {S : Type 0} (env : Env) (handle : S → Bytes → Io S)
    (quiet : (s : S) (bytes : Bytes) → KeepsRaw (handle s bytes)) where
  write_raw-some :
      (bytes old : Bytes) (out out' : Outputs)
      → out.raw ≡ some old
      → write_raw env bytes out ≡ (ok tt, out')
      → out'.raw ≡ some (old ++ bytes)
  unfolding write_raw
  write_raw-some bytes old out out' h e = ground arith

  -- As long as nothing fails, it is what it was, and all bytes that were read.
  pub run_loop-raw :
      (live : Bool) (events : List ReadEvent) (s : S) (old : Bytes) (e : Ending)
      (out out' : Outputs)
      → IsFlowing events
      → out.raw ≡ some old
      → run_loop (write_raw env) handle live events s out ≡ (ok e, out')
      → out'.raw ≡ some (old ++ received events)
  unfolding run_loop
  run_loop-raw live [] s old e out out' h r q = rw append-nil (ground arith)
  run_loop-raw live (read [] ∷ events) s old e out out' h r q = absurd h
  run_loop-raw live (interrupted ∷ events) s old e out out' h r q =
      run_loop-raw live events s old e out out' h r q
  run_loop-raw live (failed x ∷ events) s old e out out' h r q = absurd h
  run_loop-raw live (read (b ∷ bs) ∷ events) s old e out out' h r q =
      let c = and_then-eq-ok _ (write_raw env (b ∷ bs) out) e out' q in
      let d = and_then-eq-ok _ (handle s (b ∷ bs) c.middle) e out' c.then_ in
      let raw1 = write_raw-some (b ∷ bs) old out c.middle r (ground (arith, c.first)) in
      let raw2 : d.middle.raw ≡ c.middle.raw =
        sym (ap (λ t. t.1.raw) d.first) ∙ quiet s (b ∷ bs) c.middle in
      run_loop-raw live events d.value (old ++ (b ∷ bs)) e d.middle out' h (raw2 ∙ raw1) d.then_
      ∙ ap some (append_assoc old (b ∷ bs) (received events))
