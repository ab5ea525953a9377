-- ===== src/Paging/Complete.antt =====
-- The walk over the pages of a server that holds the rows of a list.
use mathlib.Core.List.{append-nil, append_assoc}
use axiam_python_sdk.Base.{
  ℕ, zero, suc, ◌+◌, ◌≤◌, ◌<◌, String, ◌≡◌, sym, ap, ◌∙◌, true, false, ◌||◌, ◌⊎◌, inl, inr, Option,
  List, [], ◌++◌, length, take, drop, is_empty, leb, take-drop, take-empty, drop-empty, drop_add,
  drop_all, Bool-cases, if_lem, is_empty-length, length_positive, arith,
}
use axiam_python_sdk.Paging.{
  PageRequest, request_of, Page, collected, Walk, next_request, after_fetch, collect_from,
  collect_pages,
}

module _ {A E : Type 0} (rows : List A) (search : Option String) where
  -- A server that answers a request for the search by rows from the offset on, at least one where
  -- there is one, in pages of whatever size it applies, with the number of all the rows.
  pub record Serves (fetch : ℕ → PageRequest → Page A ⊎ E) : Type 0 where
    pub size : ℕ → PageRequest → ℕ
    pub positive : (n : ℕ) (r : PageRequest) → 1 ≤ size n r
    pub serves :
        (n : ℕ) (r : PageRequest)
        → r.search ≡ search
        → fetch n r
          ≡ inl (record {
            items = take (size n r) (drop r.offset rows);
            total = length rows;
            offset = r.offset;
            limit = size n r;
          })

module _ {A : Type 0} (rows : List A) where
  abbrev items_at : ℕ → ℕ → List A
  items_at k n = take k (drop n rows)

  -- a page and the rows after it
  page_rest : (k n : ℕ) → items_at k n ++ drop (n + length (items_at k n)) rows ≡ drop n rows
  page_rest k n =
      ap (λ rest. items_at k n ++ rest) (drop_add n (length (items_at k n)) rows)
      ∙ take-drop k (drop n rows)

  -- no row stands after the page at which the walk stops
  last_page :
      (k n : ℕ)
      → 1 ≤ k
      → (is_empty (items_at k n) || leb (length rows) (n + length (items_at k n))) ≡ true
      → drop (n + length (items_at k n)) rows ≡ []
  last_page k n positive stop = elim (Bool-cases (is_empty (items_at k n))) [
    | inl none_left ↦
        drop_add n (length (items_at k n)) rows
        ∙ ap (drop (length (items_at k n)))
            (take-empty k (drop n rows) positive (is_empty-length (items_at k n) none_left))
        ∙ drop-empty (length (items_at k n))
    | inr some_left ↦ drop_all (n + length (items_at k n)) rows (ground (arith, stop, some_left))
  ]

  last_items :
      (k n : ℕ)
      → 1 ≤ k
      → (is_empty (items_at k n) || leb (length rows) (n + length (items_at k n))) ≡ true
      → items_at k n ≡ drop n rows
  last_items k n positive stop =
      sym (append-nil (items_at k n))
      ∙ ap (λ rest. items_at k n ++ rest) (sym (last_page k n positive stop))
      ∙ page_rest k n

  -- the page that a server of the rows gives
  abbrev page_at : ℕ → ℕ → Page A
  page_at k n = record { items = items_at k n; total = length rows; offset = n; limit = k }

  -- the offset goes forward, to a row, where the walk goes on
  more_forward :
      (k n : ℕ)
      → (is_empty (items_at k n) || leb (length rows) (n + length (items_at k n))) ≡ false
      → (1 ≤ length (items_at k n)) × (n + length (items_at k n) < length rows)
  more_forward k n more = (length_positive (items_at k n) (ground arith), ground arith)

-- After enough turns a walk has the rows that it had and all from the offset of its request on.
module _ {A E : Type 0} (rows : List A) (search : Option String)
    (fetch : ℕ → PageRequest → Page A ⊎ E) (honest : Serves rows search fetch) where
  collect_from-collected :
      (fuel n : ℕ) (r : PageRequest) (out : List A)
      → r.search ≡ search
      → 1 ≤ fuel
      → length rows < r.offset + fuel
      → (collect_from fetch fuel n r out).0 ≡ collected (out ++ drop r.offset rows)
  collect_from-collected zero n r out same some_fuel enough = absurd (omega (arith, some_fuel))
  collect_from-collected (suc fuel) n r out same some_fuel enough =
      let k = honest.size n r in
      let items = take k (drop r.offset rows) in
      let after : PageRequest → List A → Walk A E = λ r o. collect_from fetch fuel (n + 1) r o in
      ap (λ answer. (after_fetch answer r out after).0) (honest.serves n r same)
      ∙ if_lem (λ (walk : Walk A E). walk.0 ≡ collected (out ++ drop r.offset rows))
          (is_empty items || leb (length rows) (r.offset + length items))
          (λ stop.
            ap (λ all. collected (out ++ all))
              (last_items rows k r.offset (honest.positive n r) stop))
          (λ more.
            let forward = more_forward rows k r.offset more in
            collect_from-collected fuel (n + 1) (next_request (page_at rows k r.offset) r)
              (out ++ items) same (omega (arith, forward, enough)) (omega (arith, forward, enough))
            ∙ ap collected (
                append_assoc out items (drop (r.offset + length items) rows)
                ∙ ap (λ rest. out ++ rest) (page_rest rows k r.offset)))

  -- Where each request for the search is answered by rows from its offset on, at least one where one is
  -- left, with the number of all the rows, as many turns as there are rows and one more end
  -- collect_pages, whatever the sizes of the pages, with all the rows from the offset of the start on.
  pub collect_pages-collected :
      (start : Option PageRequest) (fuel : ℕ)
      → (request_of start).search ≡ search
      → length rows < fuel
      → (collect_pages fetch fuel start).0 ≡ collected (drop (request_of start).offset rows)
  unfolding collect_pages
  collect_pages-collected start fuel same enough =
      collect_from-collected fuel 0 (request_of start) [] same (omega (arith, enough))
        (omega (arith, enough))
