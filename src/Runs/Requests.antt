-- ===== src/Runs/Requests.antt =====
-- A request for a part of a file, and for a page of a listing.
use blobcast.Prelude.{ℕ, ◌≡◌, refl, some, List, [], ◌∷◌, replicate, length, ◌<◌, ◌≤◌}
use blobcast.Gateway.Range.{
  Served, partial, invalid_range, IsRight, cut, digits, parse_int, range_start, range_stop,
  serve_between, serve_parts, serve_range, serve_range-IsRight, split_minus, before_first,
}
use blobcast.Types.Text.{has_prefix, trim_prefix}
use blobcast.Gateway.Page.{
  listed_page, listed_page-within, page_slice, page_within, paged_files, pages_from, requested_page,
  total_pages,
}

abbrev toy_bytes : List ℕ
toy_bytes = 10 ∷ 11 ∷ 12 ∷ 13 ∷ 14 ∷ []

-- "bytes=1-3"
abbrev toy_header : List ℕ
toy_header = b'b' ∷ b'y' ∷ b't' ∷ b'e' ∷ b's' ∷ b'=' ∷ b'1' ∷ b'-' ∷ b'3' ∷ []

serve_range_test : serve_range toy_bytes toy_header ≡ some (partial 3 1 3 5 (11 ∷ 12 ∷ 13 ∷ []))
unfolding serve_range serve_parts serve_between range_start range_stop cut split_minus parse_int
    digits before_first has_prefix trim_prefix
serve_range_test = refl

-- "bytes=-2" is answered with the first three bytes.
serve_range_suffix :
    serve_range toy_bytes (b'b' ∷ b'y' ∷ b't' ∷ b'e' ∷ b's' ∷ b'=' ∷ b'-' ∷ b'2' ∷ [])
    ≡ some (partial 3 0 2 5 (10 ∷ 11 ∷ 12 ∷ []))
unfolding serve_range serve_parts serve_between range_start range_stop cut split_minus parse_int
    digits before_first has_prefix trim_prefix
serve_range_suffix = refl

serve_range_empty :
    serve_range [] (b'b' ∷ b'y' ∷ b't' ∷ b'e' ∷ b's' ∷ b'=' ∷ b'0' ∷ b'-' ∷ []) ≡ some invalid_range
unfolding serve_range serve_parts serve_between range_start range_stop cut split_minus parse_int
    digits before_first has_prefix trim_prefix
serve_range_empty = refl

serve_range-IsRight_example :
    (r : Served) × (serve_range toy_bytes toy_header ≡ some r) × IsRight toy_bytes r
serve_range-IsRight_example = serve_range-IsRight toy_bytes toy_header

abbrev toy_files : List ℕ
toy_files = replicate 150 7

listed_page_test : listed_page toy_files (b'9' ∷ []) ≡ some (replicate 50 7)
unfolding listed_page paged_files page_slice page_within requested_page total_pages parse_int digits
listed_page_test = refl

listed_page-within_example :
    (pages_from toy_files 1 (total_pages (length toy_files)) ≡ some toy_files)
    × ((page : ℕ) × (part : List ℕ) × (1 ≤ page)
        × (page ≤ total_pages (length toy_files))
        × (listed_page toy_files (b'2' ∷ []) ≡ paged_files toy_files page)
        × (paged_files toy_files page ≡ some part)
        × (length part ≤ 100)
        × (0 < length toy_files → 0 < length part))
listed_page-within_example = listed_page-within toy_files (b'2' ∷ [])
