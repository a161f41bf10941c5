-- ===== src/FileSystem/Find/Implied.antt =====
-- fs.py: which directories the paths below a prefix imply in `find`.
use django_fsspec.Prelude.{
  ℕ, ◌+◌, ◌≡◌, refl, ap, sym, ◌∙◌, Bool, true, false, ◌&&◌, List, [], ◌∷◌, ◌++◌, Option, none, some,
  map, filter, any, any-append, length, drop, leb, ◌==◌, arith, inl, inr, Bool-cases,
}
use django_fsspec.Text.{
  Text, text, text_eq, slash, starts_with, split_slash, join_slash, onto_first, count_slashes,
}
use django_fsspec.Text.Laws.{text_eq_sound}
use django_fsspec.Models.{FileNode}
use django_fsspec.Models.Query.{below_prefix}
use django_fsspec.FileSystem.Find.{within_maxdepth, proper_prefixes, dirs_of, implicit_dirs}

-- At most `maxdepth` parts.
abbrev pub is_within : Option ℕ → Text → Bool
is_within none relative = true
is_within (some maxdepth) relative = leb (length (split_slash relative)) maxdepth

-- A row of the namespace whose path goes on below `name`.
abbrev pub goes_below : ℕ → Text → FileNode → Bool
goes_below namespace name n = n.namespace_id == namespace && starts_with (name ++ text "/") n.path

split-cons : (s : Text) → (q : Text) × (qs : List Text) × (split_slash s ≡ q ∷ qs)
split-cons [] = ([], [], refl)
split-cons (c ∷ s) = elim (Bool-cases (c == slash)) [
  | inl here ↦ ([], split_slash s, rw here refl)
  | inr there ↦ let (q, qs, e) = split-cons s in (c ∷ q, qs, rw there (ap (onto_first c) e))
]

length-split_slash : (s : Text) → length (split_slash s) ≡ count_slashes s + 1
length-split_slash [] = refl
length-split_slash (c ∷ s) =
    let (q, qs, e) = split-cons s in
    ground (arith, length-split_slash s, ap length e, ap (λ ps. length (onto_first c ps)) e)

pub within-parts :
    (maxdepth : Option ℕ) (prefix name : Text)
    → within_maxdepth maxdepth prefix name ≡ is_within maxdepth (drop (length prefix) name)
within-parts none prefix name = refl
within-parts (some d) prefix name = ground (arith, length-split_slash (drop (length prefix) name))

-- The proper prefixes of the parts, joined.
abbrev joined : List Text → List Text
joined parts = map join_slash (proper_prefixes parts)

join-onto_first : (c : ℕ) (ps : List Text) → join_slash (onto_first c ps) ≡ c ∷ join_slash ps
join-onto_first c [] = refl
join-onto_first c (p ∷ []) = refl
join-onto_first c (p ∷ q ∷ ps) = refl

joins-onto_first :
    (c : ℕ) (p : Text) (xs : List (List Text))
    → map join_slash (map (λ qs. (c ∷ p) ∷ qs) xs)
      ≡ map (λ t. c ∷ t) (map join_slash (map (λ qs. p ∷ qs) xs))
joins-onto_first c p [] = refl
joins-onto_first c p (x ∷ xs) =
    ap (λ t. t ∷ map join_slash (map (λ qs. (c ∷ p) ∷ qs) xs)) (join-onto_first c (p ∷ x))
    ∙ ap (λ ts. (c ∷ join_slash (p ∷ x)) ∷ ts) (joins-onto_first c p xs)

joined-onto_first :
    (c : ℕ) (ps : List Text) → joined (onto_first c ps) ≡ map (λ t. c ∷ t) (joined ps)
joined-onto_first c [] = refl
joined-onto_first c (p ∷ []) = refl
joined-onto_first c (p ∷ q ∷ ps) =
    ap (λ ts. (c ∷ p) ∷ ts) (joins-onto_first c p (proper_prefixes (q ∷ ps)))

joins-after :
    (q : Text) (xs : List (List Text))
    → map join_slash (map (λ qs. [] ∷ qs) (map (λ qs. q ∷ qs) xs))
      ≡ map (λ t. slash ∷ t) (map join_slash (map (λ qs. q ∷ qs) xs))
joins-after q [] = refl
joins-after q (x ∷ xs) = ap (λ ts. (slash ∷ join_slash (q ∷ x)) ∷ ts) (joins-after q xs)

joined-after :
    (q : Text) (ps : List Text) → joined ([] ∷ q ∷ ps) ≡ [] ∷ map (λ t. slash ∷ t) (joined (q ∷ ps))
joined-after q [] = refl
joined-after q (r ∷ ps) =
    ap (λ ts. [] ∷ (slash ∷ q) ∷ ts) (joins-after q (proper_prefixes (r ∷ ps)))

any-under : (c : ℕ) (ts : List Text) → any (text_eq []) (map (λ t. c ∷ t) ts) ≡ false
any-under c [] = refl
any-under c (t ∷ ts) = any-under c ts

any-shifted :
    (d : ℕ) (rel : Text) (c : ℕ) (ts : List Text)
    → any (text_eq (d ∷ rel)) (map (λ t. c ∷ t) ts) ≡ (d == c && any (text_eq rel) ts)
any-shifted d rel c [] = ground arith
any-shifted d rel c (t ∷ ts) = ground (arith, any-shifted d rel c ts)

-- The parts that come before another part are those with a slash after them.
any-joined :
    (rel s : Text) → any (text_eq rel) (joined (split_slash s)) ≡ starts_with (rel ++ text "/") s
any-joined [] [] = refl
any-joined (d ∷ rel) [] = refl
any-joined [] (c ∷ s) = elim (Bool-cases (c == slash)) [
  | inl here ↦
      let (q, qs, e) = split-cons s in
      ground (arith, here, ap (λ ps. any (text_eq []) (joined ([] ∷ ps))) e, joined-after q qs)
  | inr there ↦ ground (
    arith,
    there,
    ap (any (text_eq [])) (joined-onto_first c (split_slash s)),
    any-under c (joined (split_slash s)),
  )
]
any-joined (d ∷ rel) (c ∷ s) = elim (Bool-cases (c == slash)) [
  | inl here ↦
      let (q, qs, e) = split-cons s in
      let shown =
        ap (λ ps. any (text_eq (d ∷ rel)) (joined ([] ∷ ps))) e
        ∙ ap (any (text_eq (d ∷ rel))) (joined-after q qs)
        ∙ any-shifted d rel slash (joined (q ∷ qs))
        ∙ ap (λ ps. d == slash && any (text_eq rel) (joined ps)) (sym e) in
      ground (arith, here, shown, any-joined rel s)
  | inr there ↦
      let shown =
        ap (any (text_eq (d ∷ rel))) (joined-onto_first c (split_slash s))
        ∙ any-shifted d rel c (joined (split_slash s)) in
      ground (arith, there, shown, any-joined rel s)
]

text_eq-append :
    (name prefix x : Text)
    → text_eq name (prefix ++ x)
      ≡ (starts_with prefix name && text_eq (drop (length prefix) name) x)
text_eq-append name [] x = refl
text_eq-append [] (p ∷ prefix) x = refl
text_eq-append (c ∷ name) (p ∷ prefix) x = ground (arith, text_eq-append name prefix x)

any-prefixed :
    (name prefix : Text) (xs : List (List Text))
    → any (text_eq name) (map (λ parts. prefix ++ join_slash parts) xs)
      ≡ (starts_with prefix name && any (text_eq (drop (length prefix) name)) (map join_slash xs))
any-prefixed name prefix [] = ground arith
any-prefixed name prefix (x ∷ xs) =
    ground (arith, any-prefixed name prefix xs, text_eq-append name prefix (join_slash x))

any-filter :
    (w : Text → Bool) (name : Text) (xs : List Text)
    → any (text_eq name) (filter w xs) ≡ (w name && any (text_eq name) xs)
any-filter w name [] = ground arith
any-filter w name (x ∷ xs) =
    ground
      (arith, any-filter w name xs, λ (h : text_eq name x ≡ true). ap w (text_eq_sound name x h))

drop_prefix :
    (prefix name s : Text)
    → starts_with prefix s ≡ true
    → (starts_with prefix name
        && starts_with (drop (length prefix) name ++ text "/") (drop (length prefix) s))
      ≡ (starts_with prefix name && starts_with (name ++ text "/") s)
drop_prefix [] name s h = refl
drop_prefix (p ∷ prefix) [] s h = refl
drop_prefix (p ∷ prefix) (c ∷ name) [] h = ground arith
drop_prefix (p ∷ prefix) (c ∷ name) (d ∷ s) h = ground (arith, drop_prefix prefix name s)

starts_below :
    (prefix name s : Text)
    → starts_with prefix name ≡ true
    → starts_with (name ++ text "/") s ≡ true
    → starts_with prefix s ≡ true
starts_below [] name s h i = refl
starts_below (p ∷ prefix) [] s h i = ground arith
starts_below (p ∷ prefix) (c ∷ name) [] h i = ground arith
starts_below (p ∷ prefix) (c ∷ name) (d ∷ s) h i = ground (arith, starts_below prefix name s)

any-dirs_of :
    (maxdepth : Option ℕ) (prefix name : Text) (n : FileNode)
    → starts_with prefix n.path ≡ true
    → any (text_eq name) (dirs_of maxdepth prefix n) ≡ (
        is_within maxdepth (drop (length prefix) name)
        && starts_with prefix name
        && starts_with (name ++ text "/") n.path)
any-dirs_of maxdepth prefix name n below =
    let rest = drop (length prefix) n.path in
    let shown = proper_prefixes (split_slash rest) in
    ground (
      arith,
      any-filter (within_maxdepth maxdepth prefix) name
          (map (λ parts. prefix ++ join_slash parts) shown),
      within-parts maxdepth prefix name,
      any-prefixed name prefix shown,
      any-joined (drop (length prefix) name) rest,
      drop_prefix prefix name n.path below,
    )

pub any-implicit_dirs :
    (namespace : ℕ) (maxdepth : Option ℕ) (prefix name : Text) (nodes : List FileNode)
    → any
        (text_eq name)
        (implicit_dirs maxdepth prefix (filter (below_prefix namespace prefix) nodes))
      ≡ (is_within maxdepth (drop (length prefix) name)
          && starts_with prefix name
          && any (goes_below namespace name) nodes)
any-implicit_dirs namespace maxdepth prefix name [] = ground arith
any-implicit_dirs namespace maxdepth prefix name (n ∷ nodes) =
    let later = filter (below_prefix namespace prefix) nodes in
    ground (
      arith,
      any-append (text_eq name) (dirs_of maxdepth prefix n) (implicit_dirs maxdepth prefix later),
      any-dirs_of maxdepth prefix name n,
      any-implicit_dirs namespace maxdepth prefix name nodes,
      starts_below prefix name n.path,
    )
