-- ===== src/Syntax/Lexer/Positions.antt =====
-- What a position of the lexer counts.
use cgpipe.Prelude.{ℕ, suc, ◌+◌, [], ◌∷◌, nat_eq, if◌then◌else◌, ◌==◌, length, ◌≡◌, ap, ◌∙◌, arith}
use cgpipe.Text.{Str}
use cgpipe.Syntax.Token
use cgpipe.Syntax.Lexer.{start_of, moved}
use cgpipe.Syntax.Lexer.Reads.{moved_over}
use cgpipe.Syntax.Lexer.Places.{IsPlace}

-- The lines behind a text, and the bytes of its last line.
unfoldable pub newlines : Str → ℕ
newlines [] = 0
newlines (c ∷ s) = if c == 10 then suc (newlines s) else newlines s

unfoldable pub column_behind : Str → ℕ → ℕ
column_behind [] col = col
column_behind (c ∷ s) col = column_behind s (if c == 10 then 1 else suc col)

moved_over_lem :
    (s : Str) (p : Token.Pos)
    → moved_over s p ≡ record {
      file = p.file;
      line = p.line + newlines s;
      col = column_behind s p.col;
      off = p.off + length s;
    }
unfolding moved_over newlines column_behind
moved_over_lem [] p = ground arith
moved_over_lem (c ∷ s) p = moved_over_lem s (moved c p) ∙ ground arith

-- A place of a source has the offset of the bytes before it, its line counts the newlines among
-- them from 1, and its column counts from 1 behind the last newline.
pub IsPlace_lem :
    {src file : Str} {p : Token.Pos} (h : IsPlace src file p)
    → (p.file ≡ file)
      × (p.off ≡ length h.before)
      × (p.line ≡ suc (newlines h.before))
      × (p.col ≡ column_behind h.before 1)
IsPlace_lem {src} {file} h =
    let e = h.place ∙ moved_over_lem h.before (start_of file) in
    (
      ap (λ (q : Token.Pos). q.file) e,
      ap (λ (q : Token.Pos). q.off) e ∙ omega arith,
      ap (λ (q : Token.Pos). q.line) e ∙ omega arith,
      ap (λ (q : Token.Pos). q.col) e,
    )
