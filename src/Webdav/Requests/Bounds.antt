-- ===== src/Webdav/Requests/Bounds.antt =====
-- webdav/views.py: the bounds that a Range header gives.
use django_fsspec.Prelude.{ℕ, ◌<◌, ◌≤◌, ◌≡◌, some, length, drop, arith, Option-cases, inl, inr}
use django_fsspec.Prelude.Int.{ℤ, pos, negsuc}
use django_fsspec.Text.{Text}
use django_fsspec.Webdav.Requests.{
  Http, parse_range_header, bounds_within, parse_spec, range_bounds, range_end, after_first,
  before_first, byte_unit,
}

abbrev pub AreWithin : ℕ → ℕ → ℕ → Type 0
AreWithin size s t = (s < t) × (t ≤ size)

bounds_within-AreWithin :
    (size : ℕ) (a b : ℤ) (s t : ℕ) → bounds_within size a b ≡ some (s, t) → AreWithin size s t
bounds_within-AreWithin size (negsuc a) b s t h = ground arith
bounds_within-AreWithin size (pos a) (negsuc b) s t h = ground arith
bounds_within-AreWithin size (pos a) (pos b) s t h = ground arith

range_bounds-AreWithin :
    (http : Http) (size : ℕ) (start_str end_str : Text) (s t : ℕ)
    → range_bounds http size start_str end_str ≡ some (s, t)
    → AreWithin size s t
range_bounds-AreWithin http size start_str end_str s t h =
    elim (Option-cases (http.int start_str)) [
      | inl none_read ↦ ground arith
      | inr (a, read) ↦ elim (Option-cases (range_end http size end_str)) [
        | inl no_end ↦ ground arith
        | inr (b, at_end) ↦
            bounds_within-AreWithin size a b s t (rw (read, at_end, range_bounds) at h)
      ]
    ]

parse_spec-AreWithin :
    (http : Http) (size : ℕ) (spec : Text) (s t : ℕ)
    → parse_spec http size spec ≡ some (s, t)
    → AreWithin size s t
parse_spec-AreWithin http size spec s t h = elim (Option-cases (after_first b'-' spec)) [
  | inl no_dash ↦ ground arith
  | inr (end_str, dash) ↦
      ground (arith, range_bounds-AreWithin http size (before_first b'-' spec) end_str s t)
]

-- Where `_parse_range_header` returns bounds for a size, whatever `int` and `strip` do, the first
-- is below the second and the second is at most the size.
pub parse_range_header-AreWithin :
    (http : Http) (header : Text) (size s t : ℕ)
    → parse_range_header http header size ≡ some (s, t)
    → AreWithin size s t
unfolding parse_range_header
parse_range_header-AreWithin http header size s t h =
    ground (arith, parse_spec-AreWithin http size (http.strip (drop (length byte_unit) header)) s t)
