-- ===== src/Text.antt =====
-- Python's `str` as the list of its code points, with the methods that the paths go through.
pub mod Laws
use Prim.Native.Char.{code}
use Prim.Native.String.{String}
use django_fsspec.Prelude.{
  Option, none, some, ℕ, zero, suc, ◌+◌, ◌/◌, ◌%◌, ◌||◌, ltb, Bool, true, false, ◌&&◌, List, [],
  ◌∷◌, ◌++◌, ◌==◌, if◌then◌else◌,
}

abbrev pub Text : Type 0
Text = List ℕ

-- A literal.
abbrev pub text : String → Text
text String.[] = []
text (String.◌∷◌ c s) = code c ∷ text s

abbrev pub slash : ℕ
slash = b'/'

abbrev pub text_eq : Text → Text → Bool
text_eq [] [] = true
text_eq [] (y ∷ ys) = false
text_eq (x ∷ xs) [] = false
text_eq (x ∷ xs) (y ∷ ys) = x == y && text_eq xs ys

-- `not s`
abbrev pub is_empty : Text → Bool
is_empty [] = true
is_empty (x ∷ xs) = false

-- `s.startswith(prefix)`, with the prefix first
abbrev pub starts_with : Text → Text → Bool
starts_with [] s = true
starts_with (p ∷ ps) [] = false
starts_with (p ∷ ps) (c ∷ s) = p == c && starts_with ps s

-- `s.endswith("/")`
abbrev pub ends_with_slash : Text → Bool
ends_with_slash [] = false
ends_with_slash (c ∷ []) = c == slash
ends_with_slash (c ∷ d ∷ s) = ends_with_slash (d ∷ s)

-- `s.rstrip("/")`: a slash goes when nothing but slashes follows it.
abbrev pub rstrip_slash : Text → Text
rstrip_slash [] = []
rstrip_slash (c ∷ s) =
    let rest = rstrip_slash s in if c == slash && is_empty rest then [] else c ∷ rest

-- `s.lstrip("/")`
abbrev pub lstrip_slash : Text → Text
lstrip_slash [] = []
lstrip_slash (c ∷ s) = if c == slash then lstrip_slash s else c ∷ s

-- `s.strip("/")`
abbrev pub strip_slash : Text → Text
strip_slash s = rstrip_slash (lstrip_slash s)

-- puts a character before the first part
abbrev pub onto_first : ℕ → List Text → List Text
onto_first c [] = (c ∷ []) ∷ []
onto_first c (p ∷ ps) = (c ∷ p) ∷ ps

-- `s.split("/")`
abbrev pub split_slash : Text → List Text
split_slash [] = [] ∷ []
split_slash (c ∷ s) =
    let parts = split_slash s in if c == slash then [] ∷ parts else onto_first c parts

-- `"/".join(parts)`
abbrev pub join_slash : List Text → Text
join_slash [] = []
join_slash (p ∷ []) = p
join_slash (p ∷ q ∷ ps) = p ++ slash ∷ join_slash (q ∷ ps)

-- `slash in s`
abbrev pub has_slash : Text → Bool
has_slash [] = false
has_slash (c ∷ s) = if c == slash then true else has_slash s

-- `s.rsplit("/", 1)[0]`: what stands before the last slash, or all of `s` without one
abbrev pub before_last_slash : Text → Text
before_last_slash [] = []
before_last_slash (c ∷ s) =
    let rest = before_last_slash s in
    if has_slash s then c ∷ rest else if c == slash then [] else c ∷ rest

-- `<=` on texts, by code points
abbrev pub text_le : Text → Text → Bool
text_le [] s = true
text_le (c ∷ s) [] = false
text_le (c ∷ s) (d ∷ t) = ltb c d || (c == d && text_le s t)

-- `str(n)`: the decimal digits, of which there are at most n + 1
unfoldable digits : ℕ → ℕ → Text → Text
digits zero n after = after
digits (suc fuel) n after =
    let rest = digits fuel (n / 10) in
    let here = (b'0' + n % 10) ∷ after in if ltb n 10 then here else rest here

unfoldable pub show : ℕ → Text
unfolding digits
show n = digits (n + 1) n []

-- `s.rsplit("/", 1)[-1]`: what stands after the last slash, or all of `s` without one
abbrev pub after_last_slash : Text → Text
after_last_slash [] = []
after_last_slash (c ∷ s) =
    let rest = after_last_slash s in if has_slash s then rest else if c == slash then s else c ∷ s

-- What stands before the first slash, or all of a text without one.
abbrev pub first_part : Text → Text
first_part [] = []
first_part (c ∷ s) = let rest = first_part s in if c == slash then [] else c ∷ rest

-- what stands after the first slash, or nothing at all without one
abbrev pub after_first_slash : Text → Option Text
after_first_slash [] = none
after_first_slash (c ∷ s) = let rest = after_first_slash s in if c == slash then some s else rest

-- `s.count("/")`
abbrev pub count_slashes : Text → ℕ
count_slashes [] = 0
count_slashes (c ∷ s) = let rest = count_slashes s in if c == slash then rest + 1 else rest
