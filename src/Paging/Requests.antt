-- ===== src/Paging/Requests.antt =====
-- The requests of a walk, whatever the server answers, and the server that repeats its page.
use axiam_python_sdk.Base.{
  ℕ, zero, suc, ◌+◌, ◌≡◌, refl, ap, ◌∙◌, sym, Bool, Bool-cases, true, false, not, ◌||◌, ◌⊎◌, inl,
  inr, Option, List, [], ◌++◌, length, is_empty, leb, if◌then◌else◌, All, if_lem, arith,
}
use axiam_python_sdk.Paging.{
  PageRequest, request_of, Page, has_more, asking, collected, Walk, next_request, after_page,
  after_fetch, collect_from, collect_pages,
}

-- A request has the limit and the search of another.
abbrev pub Carries : PageRequest → PageRequest → Type 0
Carries start r = (r.limit ≡ start.limit) × (r.search ≡ start.search)

module _ {A E : Type 0} (fetch : ℕ → PageRequest → Page A ⊎ E) where
  after_fetch-Carries :
      (answer : Page A ⊎ E) (start r : PageRequest) (out : List A)
      (continue : PageRequest → List A → Walk A E)
      → ((next : PageRequest) (o : List A)
          → Carries r next
          → All (Carries start) (continue next o).1)
      → All (Carries start) (after_fetch answer r out continue).1
  after_fetch-Carries (inr e) start r out continue h = _
  after_fetch-Carries (inl page) start r out continue h =
      if_lem (λ (walk : Walk A E). All (Carries start) walk.1)
        (is_empty page.items || leb page.total (page.offset + length page.items)) (λ stop. _)
        (λ more. h (next_request page r) (out ++ page.items) (refl, refl))

  collect_from-Carries :
      (start : PageRequest) (fuel n : ℕ) (r : PageRequest) (out : List A)
      → Carries start r
      → All (Carries start) (collect_from fetch fuel n r out).1
  collect_from-Carries start zero n r out carried = _
  collect_from-Carries start (suc fuel) n r out (limit, term) = (
    (limit, term),
    after_fetch-Carries (fetch n r) start r out _ (λ next o (same_limit, same_search).
        collect_from-Carries start fuel (n + 1) next o (same_limit ∙ limit, same_search ∙ term)),
  )

  -- Each request of a walk has the limit and the search of its start, whatever the server answers and
  -- however many turns the walk takes.
  pub collect_pages-Carries :
      (start : Option PageRequest) (fuel : ℕ)
      → All (Carries (request_of start)) (collect_pages fetch fuel start).1
  unfolding collect_pages
  collect_pages-Carries start fuel =
      collect_from-Carries (request_of start) fuel 0 (request_of start) [] (refl, refl)

-- the loop's test against has_more
stops_lem :
    {A : Type 0} (page : Page A)
    → (is_empty page.items || leb page.total (page.offset + length page.items))
      ≡ not (has_more page)
unfolding has_more
stops_lem page = ground arith

module _ {A E : Type 0} (page : Page A) where
  abbrev repeats : ℕ → PageRequest → Page A ⊎ E
  repeats n r = inl page

  turn_is :
      (b : Bool) (r : PageRequest) (out : List A) (continue : PageRequest → List A → Walk A E)
      → has_more page ≡ b
      → after_page page r out continue ≡ (
          if not b
          then (collected (out ++ page.items), [])
          else continue (next_request page r) (out ++ page.items))
  turn_is b r out continue more =
      ap
        (λ stop.
          if stop
          then (collected (out ++ page.items), [])
          else continue (next_request page r) (out ++ page.items))
        (stops_lem page ∙ ap not more)

  collect_from_asking :
      (more : has_more page ≡ true) (fuel n : ℕ) (r : PageRequest) (out : List A)
      → (collect_from repeats fuel n r out).0 ≡ asking
  collect_from_asking more zero n r out = refl
  collect_from_asking more (suc fuel) n r out =
      ap (λ (walk : Walk A E). walk.0)
        (turn_is true r out (λ next o. collect_from repeats fuel (n + 1) next o) more)
      ∙ collect_from_asking more fuel (n + 1) (next_request page r) (out ++ page.items)

  -- A walk over a server that answers each request by one same page is still asking after any number
  -- of turns where that page has more, and otherwise ends at the first turn with its items.
  pub collect_pages-repeats :
      (start : Option PageRequest) (fuel : ℕ)
      → (collect_pages repeats (suc fuel) start).0
        ≡ (if has_more page then asking else collected page.items)
  unfolding collect_pages
  collect_pages-repeats start fuel = elim (Bool-cases (has_more page)) [
    | inl more ↦
        collect_from_asking more (suc fuel) 0 (request_of start) []
        ∙ ap (λ b. if b then asking else collected page.items) (sym more)
    | inr last ↦
        ap (λ (walk : Walk A E). walk.0)
          (turn_is false (request_of start) [] (λ next o. collect_from repeats fuel 1 next o) last)
        ∙ ap (λ b. if b then asking else collected page.items) (sym last)
  ]
