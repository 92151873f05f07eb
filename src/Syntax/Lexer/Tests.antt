-- ===== src/Syntax/Lexer/Tests.antt =====
-- The theorems on the lexer at a small pipeline.
use cgpipe.Prelude.{suc, List, [], ◌∷◌, Option, some, ◌≡◌, refl, length, All}
use cgpipe.Text.{Str, codes}
use cgpipe.Syntax.Token
use cgpipe.Syntax.Lexer.{tokenize, start_of}
use cgpipe.Syntax.Lexer.Reads.{moved_over}
use cgpipe.Syntax.Lexer.Places.{IsPlace}
use cgpipe.Syntax.Lexer.Stream.{EndsAtEof, Stands, tokenize_lem}
use cgpipe.Syntax.Lexer.Positions.{newlines, column_behind, IsPlace_lem}

abbrev sample : Str
sample = codes "n = 1..3 # count\nif n >= 2 {\n a: b {{\n  echo ${n}\n}}\n}\n"

kinds_of : List Token.Token → List Token.Kind
kinds_of [] = []
kinds_of (t ∷ ts) = t.kind ∷ kinds_of ts

abbrev kinds_or : Option (List Token.Token) → List Token.Kind
kinds_or (some ts) = kinds_of ts
kinds_or _ = []

sample_kinds :
    kinds_or (tokenize sample (codes "f"))
    ≡ Token.ident ∷ Token.assign ∷ Token.int ∷ Token.dot_dot ∷ Token.int ∷ Token.newline
      ∷ Token.kw_if ∷ Token.ident ∷ Token.ge ∷ Token.int ∷ Token.l_brace ∷ Token.newline
      ∷ Token.ident ∷ Token.colon ∷ Token.ident ∷ Token.l_body ∷ Token.body ∷ Token.r_body
      ∷ Token.r_brace ∷ Token.newline ∷ Token.eof ∷ []
unfolding tokenize kinds_of
sample_kinds = refl

tokenize_lem_example :
    (ts : List Token.Token) × (tokenize sample (codes "f") ≡ some ts)
    × All (Stands sample (codes "f")) ts
    × EndsAtEof sample (codes "f") ts
tokenize_lem_example = tokenize_lem sample (codes "f")

abbrev second_line :
    IsPlace (codes "a\nbc") (codes "f") (moved_over (codes "a\nb") (start_of (codes "f")))
second_line = record { before = codes "a\nb"; after = codes "c"; split = refl; place = refl }

IsPlace_lem_example :
    ((moved_over (codes "a\nb") (start_of (codes "f"))).file ≡ codes "f")
    × ((moved_over (codes "a\nb") (start_of (codes "f"))).off ≡ length (codes "a\nb"))
    × ((moved_over (codes "a\nb") (start_of (codes "f"))).line ≡ suc (newlines (codes "a\nb")))
    × ((moved_over (codes "a\nb") (start_of (codes "f"))).col ≡ column_behind (codes "a\nb") 1)
IsPlace_lem_example = IsPlace_lem second_line
