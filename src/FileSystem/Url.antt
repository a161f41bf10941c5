-- ===== src/FileSystem/Url.antt =====
-- fs.py: the paths and URLs that callers give. `int()` on text is a parameter.
pub mod Laws
use django_fsspec.Prelude.{
  ℕ, zero, suc, Bool, true, false, List, [], ◌∷◌, ◌++◌, Option, none, some, map, length, drop,
  if◌then◌else◌,
}
use django_fsspec.Prelude.Int.{ℤ, pos, negsuc}
use django_fsspec.Errors.{Error, Result, ok, err}
use django_fsspec.Text.{
  Text, text, slash, is_empty, starts_with, rstrip_slash, first_part, after_first_slash,
}

abbrev pub protocol : Text
protocol = text "django://"

abbrev pub chained : Text
chained = text "django::"

-- what follows the protocol, without the namespace
abbrev pub url_path : Text → Text
url_path rest =
    if is_empty rest
    then text "/"
    else if starts_with (text "/") rest
    then rest
    else elim (after_first_slash rest) [ none ↦ text "/" | some remainder ↦ slash ∷ remainder ]

abbrev pub without_protocol : Text → Text
without_protocol path =
    if starts_with protocol path
    then url_path (drop (length protocol) path)
    else if starts_with chained path
    then drop (length chained) path
    else path

-- `_strip_protocol` of one path
unfoldable pub strip_protocol : Text → Text
strip_protocol path =
    let stripped = rstrip_slash (without_protocol path) in
    if is_empty stripped then text "/" else stripped

-- `_strip_protocol` of a list
abbrev pub strip_protocols : List Text → List Text
strip_protocols = map strip_protocol

-- the checks of the number of the namespace
abbrev pub positive_id : Option ℤ → Result (Option ℕ)
positive_id none = err Error.value_error
positive_id (some (pos zero)) = err Error.value_error
positive_id (some (pos (suc n))) = ok (some (suc n))
positive_id (some (negsuc n)) = err Error.value_error

-- `_get_kwargs_from_urls`: the `namespace_id`, or nothing
unfoldable pub get_kwargs_from_urls : (Text → Option ℤ) → Text → Result (Option ℕ)
get_kwargs_from_urls int path =
    if starts_with protocol path
    then (let rest = drop (length protocol) path in
        if is_empty rest
        then ok none
        else if starts_with (text "/") rest
        then ok none
        else positive_id (int (first_part rest)))
    else ok none
