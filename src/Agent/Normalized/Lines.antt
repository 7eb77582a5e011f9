-- ===== src/Agent/Normalized/Lines.antt =====
-- The lines of a file that was written line by line.
use grok.Base.{
  ◌≡◌, refl, sym, ap, ◌∙◌, ◌≢◌, false, List, [], ◌∷◌, ◌++◌, append-nil, append_assoc, ◌==◌, All,
  Bytes, arith,
}
use grok.Agent.Normalized.{drop_return, last_line, lines_from}

-- No byte of a line is a newline or a carriage return.
abbrev pub IsLine : Bytes → Type 0
IsLine line = All (λ b. (b ≢ b'\n') × (b ≢ b'\r')) line

-- Some lines as `write_all(b"\n")` behind each leaves them.
abbrev pub lines_of : List Bytes → Bytes
lines_of [] = []
lines_of (line ∷ lines) = line ++ (b'\n' ∷ lines_of lines)

drop_return-IsLine : (line : Bytes) → IsLine line → drop_return line ≡ line
unfolding drop_return
drop_return-IsLine [] h = refl
drop_return-IsLine (b ∷ []) ((n, r), h) = let e : (b == b'\r') ≡ false = ground arith in rw e refl
drop_return-IsLine (b ∷ c ∷ bs) (n, h) = ap (◌∷◌ b) (drop_return-IsLine (c ∷ bs) h)

lines_from-newline :
    (line text rest : Bytes)
    → IsLine text
    → lines_from line (text ++ (b'\n' ∷ rest)) ≡ drop_return (line ++ text) ∷ lines_from [] rest
unfolding lines_from
lines_from-newline line [] rest h =
    ap (λ l. drop_return l ∷ lines_from [] rest) (sym (append-nil line))
lines_from-newline line (b ∷ text) rest ((n, r), h) =
    let e : (b == b'\n') ≡ false = ground arith in
    rw (lines_from, e)
      (lines_from-newline (line ++ (b ∷ [])) text rest h
        ∙ ap (λ l. drop_return l ∷ lines_from [] rest) (append_assoc line (b ∷ []) text))

-- The lines of such a file are read back.
pub lines_from-lines_of :
    (lines : List Bytes) → All IsLine lines → lines_from [] (lines_of lines) ≡ lines
unfolding lines_from
lines_from-lines_of [] h = unfold last_line in refl
lines_from-lines_of (line ∷ lines) (l, h) =
    lines_from-newline [] line (lines_of lines) l
    ∙ ap (λ first. first ∷ lines_from [] (lines_of lines)) (drop_return-IsLine line l)
    ∙ ap (◌∷◌ line) (lines_from-lines_of lines h)
