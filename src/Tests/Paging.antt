-- ===== src/Tests/Paging.antt =====
-- The walk over the pages of a read on concrete servers.
use axiam_python_sdk.Base.{
  ℕ, zero, suc, String, ◌≡◌, refl, true, Option, none, some, [], ◌∷◌, List, ◌⊎◌, inl, take, drop,
  if◌then◌else◌, arith,
}
use axiam_python_sdk.Paging.{
  PageRequest, Page, asking, collected, failed, has_more, collect_pages, page_query,
  normalize_search,
}
use axiam_python_sdk.Paging.Complete.{Serves, collect_pages-collected}
use axiam_python_sdk.Paging.Requests.{collect_pages-repeats}

abbrev rows : List String
rows = "a" ∷ "b" ∷ "c" ∷ "d" ∷ "e" ∷ []

-- a server of pages of two
abbrev fetch : ℕ → PageRequest → Page String ⊎ String
fetch n r =
    inl (record { items = take 2 (drop r.offset rows); total = 5; offset = r.offset; limit = 2 })

-- a server that fails from its second request on
abbrev failing : ℕ → PageRequest → Page String ⊎ String
failing zero r = fetch 0 r
failing (suc n) r = ◌⊎◌.inr "down"

abbrev start : Option PageRequest
start = some (record { offset = 1; limit = some 2; search = some "x" })

serves : Serves {E = String} rows (some "x") fetch
serves = record { size = λ n r. 2; positive = λ n r. omega arith; serves = λ n r same. refl }

collect_pages-collected_example :
    (collect_pages fetch 6 start).0 ≡ collected ("b" ∷ "c" ∷ "d" ∷ "e" ∷ [])
collect_pages-collected_example =
    collect_pages-collected rows (some "x") fetch serves start 6 refl (omega arith)

requests :
    (collect_pages fetch 6 start).1
    ≡ (record { offset = 1; limit = some 2; search = some "x" })
      ∷ (record { offset = 3; limit = some 2; search = some "x" })
      ∷ []
unfolding collect_pages
requests = refl

failed_walk : (collect_pages failing 6 none).0 ≡ failed "down"
unfolding collect_pages
failed_walk = refl

-- the first page, with more to come
abbrev repeated : Page String
repeated = record { items = "a" ∷ []; total = 2; offset = 0; limit = 1 }

collect_pages-repeats_example :
    (collect_pages {E = String} (λ n r. inl repeated) 100 none).0
    ≡ (if has_more repeated then asking else collected ("a" ∷ []))
collect_pages-repeats_example = collect_pages-repeats repeated none 99

has_more_repeated : has_more repeated ≡ true
unfolding has_more
has_more_repeated = refl

cleared : normalize_search (some " \t") ≡ none
unfolding normalize_search axiam_python_sdk.Text.strip
cleared = refl

queried :
    page_query (λ n. "1") start
    ≡ ("offset", some "1") ∷ ("limit", some "1") ∷ ("search", some "x") ∷ []
unfolding page_query
queried = refl
