-- ===== src/Text.antt =====
-- Go strings as lists of bytes, and the functions of package `strings` that the program calls.
pub mod Laws
use Prim.Native.Char.{code}
use Prim.Native.String.{String}
use mathlib.Core.Option
use mathlib.Core.List.{reverse}
use cgpipe.Prelude.{
  ℕ, suc, ◌-◌, List, [], ◌∷◌, ◌++◌, Bool, true, false, ◌&&◌, ◌||◌, Option, none, some, ◌==◌, nat_eq,
  list_eq, if◌then◌else◌, take, drop, leb,
}

abbrev pub Str : Type 0
Str = List ℕ

abbrev pub codes : String → Str
codes String.[] = []
codes (String.◌∷◌ c s) = code c ∷ codes s

-- strings.HasPrefix(s, prefix)
unfoldable pub has_prefix : Str → Str → Bool
has_prefix s [] = true
has_prefix [] (p ∷ ps) = false
has_prefix (c ∷ s) (p ∷ ps) = c == p && has_prefix s ps

-- strings.HasSuffix(s, suffix)
unfoldable pub has_suffix : Str → Str → Bool
has_suffix [] p = [] == p
has_suffix (c ∷ s) p = (c ∷ s) == p || has_suffix s p

-- strings.Contains(s, sub)
unfoldable pub contains_text : Str → Str → Bool
unfolding has_prefix
contains_text [] sub = has_prefix [] sub
contains_text (c ∷ s) sub = has_prefix (c ∷ s) sub || contains_text s sub

-- strings.IndexByte(s, c), with `none` for -1
unfoldable pub index_byte : Str → ℕ → Option ℕ
index_byte [] c = none
index_byte (d ∷ s) c = if d == c then some 0 else Option.map suc (index_byte s c)

-- s[from:to]
abbrev pub slice : Str → ℕ → ℕ → Str
slice s from to = take (to - from) (drop from s)

-- strings.ReplaceAll(s, c, with) for a text `c` of one byte
unfoldable pub replace_byte : Str → ℕ → Str → Str
replace_byte [] c with_text = []
replace_byte (d ∷ s) c with_text =
    if d == c then with_text ++ replace_byte s c with_text else d ∷ replace_byte s c with_text

-- strings.Join(parts, sep)
unfoldable pub join : List Str → Str → Str
join [] sep = []
join (p ∷ []) sep = p
join (p ∷ q ∷ ps) sep = p ++ (sep ++ join (q ∷ ps) sep)

-- strings.Split(text, "\n")
abbrev onto_line : ℕ → List Str → List Str
onto_line c [] = (c ∷ []) ∷ []
onto_line c (l ∷ ls) = (c ∷ l) ∷ ls

unfoldable pub split_lines : Str → List Str
split_lines [] = [] ∷ []
split_lines (c ∷ s) = let more = split_lines s in if c == 10 then [] ∷ more else onto_line c more

-- strings.TrimLeft(line, " \t")
abbrev pub trim_left : Str → Str
trim_left [] = []
trim_left (c ∷ s) = if c == 32 || c == 9 then trim_left s else c ∷ s

-- unicode.IsSpace of a rune of one, two or three bytes of UTF-8
abbrev is_space : ℕ → Bool
is_space c = c == 32 || (leb 9 c && leb c 13)

abbrev is_space2 : ℕ → ℕ → Bool
is_space2 c d = c == 0xc2 && (d == 0x85 || d == 0xa0)

abbrev is_space3 : ℕ → ℕ → ℕ → Bool
is_space3 c d e =
    (c == 0xe1 && (d == 0x9a && e == 0x80))
    || ((c == 0xe2
          && (d == 0x80 && ((leb 0x80 e && leb e 0x8a) || (e == 0xa8 || (e == 0xa9 || e == 0xaf)))))
        || ((c == 0xe2 && (d == 0x81 && e == 0x9f)) || (c == 0xe3 && (d == 0x80 && e == 0x80))))

-- The text without the spaces at its front, by tests of the runes.
trim_front : (ℕ → ℕ → Bool) → (ℕ → ℕ → ℕ → Bool) → Str → Str
trim_front two three [] = []
trim_front two three (c ∷ []) = if is_space c then [] else c ∷ []
trim_front two three (c ∷ d ∷ []) =
    let one = trim_front two three (d ∷ []) in
    if is_space c then one else if two c d then [] else c ∷ d ∷ []
trim_front two three (c ∷ d ∷ e ∷ s) =
    let one = trim_front two three (d ∷ e ∷ s) in
    let behind_two = trim_front two three (e ∷ s) in
    let behind_three = trim_front two three s in
    if is_space c
    then one
    else if two c d
    then behind_two
    else if three c d e
    then behind_three
    else c ∷ d ∷ e ∷ s

-- strings.TrimSpace, the back by the runes in reverse
unfoldable pub trim_space : Str → Str
unfolding trim_front
trim_space s = reverse (
    trim_front (λ d c. is_space2 c d) (λ e d c. is_space3 c d e)
      (reverse (trim_front is_space2 is_space3 s)))
