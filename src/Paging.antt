-- ===== src/Paging.antt =====
-- The pages of a management read, management/_page.py of src/axiam_sdk: the request, the page, and
-- the walk that concatenates every page. The answers of the server are an argument, by the number of
-- the request; an offset, a limit and a total are not negative. The asynchronous walk is the same.
pub mod Complete
pub mod Requests
use axiam_python_sdk.Base.{
  ℕ, zero, suc, ◌+◌, String, Bool, ◌||◌, ◌&&◌, not, ◌⊎◌, inl, inr, Option, none, some, List, [],
  ◌∷◌, ◌++◌, length, is_empty, if◌then◌else◌, ltb, leb, map,
}
use axiam_python_sdk.Dict.{Dict}
use axiam_python_sdk.Text.{strip, is_blank}

-- PageRequest, with the defaults of its fields
pub record PageRequest : Type 0 where
  pub offset : ℕ
  pub limit : Option ℕ
  pub search : Option String

abbrev pub first_page : PageRequest
first_page = record { offset = 0; limit = none; search = none }

pub record Page (A : Type 0) : Type 0 where
  pub items : List A
  pub total : ℕ
  pub offset : ℕ
  pub limit : ℕ

-- page or PageRequest()
abbrev pub request_of : Option PageRequest → PageRequest
request_of none = first_page
request_of (some request) = request

-- Page.has_more
unfoldable pub has_more : {A : Type 0} → Page A → Bool
has_more page = not (is_empty page.items) && ltb (page.offset + length page.items) page.total

abbrev pub text_of : Option String → String
text_of none = ""
text_of (some term) = term

-- normalize_search
unfoldable pub normalize_search : Option String → Option String
unfolding strip
normalize_search term =
    let trimmed = strip (text_of term) in if is_blank trimmed then none else some trimmed

-- page_query, with str of a number
unfoldable pub page_query : (ℕ → String) → Option PageRequest → Dict (Option String)
unfolding normalize_search
page_query decimal page =
    let request = request_of page in
    ("offset", some (decimal request.offset))
    ∷ ("limit", mathlib.Core.Option.map decimal request.limit)
    ∷ ("search", normalize_search request.search)
    ∷ []

-- Where a walk is: still asking, ended with the rows, or ended by what a request raised; and the
-- requests that it made.
pub data Ending (A E : Type 0) : Type 0 where
  asking : Ending A E
  collected : List A → Ending A E
  failed : E → Ending A E

abbrev pub Walk : Type 0 → Type 0 → Type 0
Walk A E = Ending A E × List PageRequest

abbrev pub next_request : {A : Type 0} → Page A → PageRequest → PageRequest
next_request page request = record {
  offset = page.offset + length page.items;
  limit = request.limit;
  search = request.search;
}

module _ {A E : Type 0} where
  -- one turn of the loop, on the page that its request gave
  abbrev pub after_page :
      Page A → PageRequest → List A → (PageRequest → List A → Walk A E) → Walk A E
  after_page page request out continue =
      if is_empty page.items || leb page.total (page.offset + length page.items)
      then (collected (out ++ page.items), [])
      else continue (next_request page request) (out ++ page.items)

  abbrev pub after_fetch :
      Page A ⊎ E → PageRequest → List A → (PageRequest → List A → Walk A E) → Walk A E
  after_fetch (inl page) request out continue = after_page page request out continue
  after_fetch (inr e) request out continue = (failed e, [])

  abbrev pub collect_from : (ℕ → PageRequest → Page A ⊎ E) → ℕ → ℕ → PageRequest → List A → Walk A E
  collect_from fetch zero n request out = (asking, [])
  collect_from fetch (suc fuel) n request out =
      let (ending, requests) =
        after_fetch (fetch n request) request out (λ r o. collect_from fetch fuel (n + 1) r o) in
      (ending, request ∷ requests)

  -- collect_pages, for so many turns
  unfoldable pub collect_pages : (ℕ → PageRequest → Page A ⊎ E) → ℕ → Option PageRequest → Walk A E
  collect_pages fetch fuel start = collect_from fetch fuel 0 (request_of start) []
