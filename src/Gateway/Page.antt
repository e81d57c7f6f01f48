-- ===== src/Gateway/Page.antt =====
-- The pages of a directory listing, as `directoryHandler` in cmd/gateway/start.go makes them.
use blobcast.Prelude.{
  ℕ, zero, suc, ◌+◌, ◌-◌, ◌*◌, ◌/◌, ◌<◌, ◌≤◌, ◌≡◌, refl, sym, ap, ◌∙◌, Option, none, some,
  Option-cases, List, [], ◌++◌, Bool-cases, inl, inr, ◌&&◌, ◌==◌, true, ltb, leb, min,
  if◌then◌else◌, length, take, drop, drop-drop, drop-long, take-add, take-long, take-min,
  length-take, length-drop, arith,
}
use blobcast.Gateway.Range.{parse_int}

abbrev pub files_per_page : ℕ
files_per_page = 100

-- The `page` parameter, empty if it is not given. A minus sign makes it none or not positive, either
-- of which leaves the first page.
unfoldable pub requested_page : List ℕ → ℕ
requested_page text = elim (parse_int text) [
  | none ↦ 1
  | some parsed ↦ if ltb 0 parsed then parsed else 1
]

unfoldable pub total_pages : ℕ → ℕ
total_pages total_files =
    let pages = (total_files + files_per_page - 1) / files_per_page in
    if pages == 0 then 1 else pages

unfoldable pub page_within : ℕ → ℕ → ℕ
page_within page pages = if ltb pages page then pages else page

module _ {A : Type 0} where
  -- `files[startIndex:endIndex]`, if there is anything from startIndex on; `none` is a panic.
  unfoldable pub page_slice : List A → ℕ → ℕ → Option (List A)
  page_slice files start end =
      if ltb start (length files)
      then if leb start end && leb end (length files)
        then some (take (end - start) (drop start files))
        else none
      else some []

  unfoldable pub paged_files : List A → ℕ → Option (List A)
  paged_files files page =
      let start = (page - 1) * files_per_page in
      page_slice files start (min (start + files_per_page) (length files))

  unfoldable pub listed_page : List A → List ℕ → Option (List A)
  listed_page files text =
      paged_files files (page_within (requested_page text) (total_pages (length files)))

  -- The pages from `page` on, `n` of them, one after the other.
  unfoldable pub pages_from : List A → ℕ → ℕ → Option (List A)
  pages_from files page zero = some []
  pages_from files page (suc n) = elim (paged_files files page) [
    | none ↦ none
    | some here ↦ elim (pages_from files (page + 1) n) [
      | none ↦ none
      | some rest ↦ some (here ++ rest)
    ]
  ]

requested_page-le : (text : List ℕ) → 1 ≤ requested_page text
unfolding requested_page
requested_page-le text = elim (Option-cases (parse_int text)) [
  | inl bad ↦ rw (requested_page, bad) (omega arith)
  | inr (n, good) ↦ rw (requested_page, good) (ground arith)
]

total_pages-le : (n : ℕ) → (1 ≤ total_pages n) × (n ≤ total_pages n * 100)
unfolding total_pages
total_pages-le n = (ground arith, ground arith)

-- The last page is not empty.
total_pages-lt : (n : ℕ) → 0 < n → (total_pages n - 1) * 100 < n
unfolding total_pages
total_pages-lt n h = ground (arith, h)

page_within-le :
    (page pages : ℕ)
    → 1 ≤ page
    → 1 ≤ pages
    → (1 ≤ page_within page pages) × (page_within page pages ≤ pages)
unfolding page_within
page_within-le page pages p q = (ground (arith, p, q), ground (arith, p, q))

module _ {A : Type 0} where
  paged_files-take :
      (files : List A) (k : ℕ)
      → paged_files files (k + 1) ≡ some (take files_per_page (drop (k * files_per_page) files))
  unfolding paged_files page_slice
  paged_files-take files k =
      let start = k * 100 in
      let e : (k + 1 - 1) * 100 ≡ start = omega arith in
      let rest = drop start files in
      rw e (elim (Bool-cases (ltb start (length files))) [
        | inl in_list ↦
            let p : start < length files = ground arith in
            let f : min (start + 100) (length files) - start ≡ min 100 (length rest) =
              omega (arith, length-drop start files) in
            let low : leb start (min (start + 100) (length files)) ≡ true = ground arith in
            let high : leb (min (start + 100) (length files)) (length files) ≡ true =
              ground arith in
            rw (in_list, low, high, f) (ap some (take-min 100 rest))
        | inr past ↦ rw past (rw (drop-long start files (ground arith)) refl)
      ])

  pages_from-take :
      (files : List A) (k n : ℕ)
      → pages_from files (k + 1) n
        ≡ some (take (n * files_per_page) (drop (k * files_per_page) files))
  unfolding pages_from
  pages_from-take files k zero = refl
  pages_from-take files k (suc n) =
      let here = drop (k * 100) files in
      let e : suc n * 100 ≡ 100 + n * 100 = omega arith in
      let next : drop ((k + 1) * 100) files ≡ drop 100 here =
        ap (λ (t : ℕ). drop t files) (omega arith) ∙ sym (drop-drop (k * 100) 100 files) in
      rw (pages_from, paged_files-take files k)
        (rw (pages_from, pages_from-take files (k + 1) n)
          (rw (next, e, take-add 100 (n * 100) here) refl))

  all_pages-eq-files :
      (files : List A) → pages_from files 1 (total_pages (length files)) ≡ some files
  unfolding total_pages
  all_pages-eq-files files =
      pages_from-take files 0 (total_pages (length files))
      ∙ ap some (take-long (total_pages (length files) * 100) files (ground arith))

  -- The pages of a listing from the first to the last are all the files in their order, each once;
  -- and whatever the query says, the gateway lists without a panic one of these pages, of no more
  -- than 100 files, and of at least one if there are any.
  pub listed_page-within :
      (files : List A) (text : List ℕ)
      → (pages_from files 1 (total_pages (length files)) ≡ some files)
        × ((page : ℕ) × (part : List A) × (1 ≤ page)
            × (page ≤ total_pages (length files))
            × (listed_page files text ≡ paged_files files page)
            × (paged_files files page ≡ some part)
            × (length part ≤ files_per_page)
            × (0 < length files → 0 < length part))
  unfolding listed_page
  listed_page-within files text =
      let n = length files in
      let (some_page, covered) = total_pages-le n in
      let page = page_within (requested_page text) (total_pages n) in
      let (low, high) =
        page_within-le (requested_page text) (total_pages n) (requested_page-le text) some_page in
      let rest = drop ((page - 1) * 100) files in
      let e : page ≡ page - 1 + 1 = omega (arith, low) in
      let size : length (take 100 rest) ≡ min 100 (n - (page - 1) * 100) =
        omega (arith, length-take 100 rest, length-drop ((page - 1) * 100) files) in
      (
        all_pages-eq-files files,
        (
          page,
          take 100 rest,
          low,
          high,
          refl,
          ap (paged_files files) e ∙ paged_files-take files (page - 1),
          omega (arith, size),
          λ some_file. omega (arith, size, high, total_pages-lt n some_file),
        ),
      )
