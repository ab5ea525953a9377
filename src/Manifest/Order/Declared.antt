-- ===== src/Manifest/Order/Declared.antt =====
-- topological_order (management/manifest/_plan.py) over the declared keys.
use axiam_python_sdk.Base.{
  ℕ, zero, suc, String, ◌≡◌, refl, sym, subst, Option, none, some, List, [], ◌∷◌, All, All-append,
  if_lem, arith, ◌==◌, length,
}
use axiam_python_sdk.Dict.{Dict, lookup, put}
use axiam_python_sdk.Dict.Laws.{lookup-put}
use axiam_python_sdk.Manifest.{ResourceSpec}
use axiam_python_sdk.Manifest.Order.{
  member, add_parents, parents_of, flatten, parent_of, Walk, reached, circular, unfinished, Order,
  ordered, cycle, stuck, add_key, walk, place, after_walk, order_from, topological_order,
}

-- What holds of each parent that the resources state holds of each that the dict has.
parents_hold :
    (P : String → Type 0) (rs : List ResourceSpec) (d : Dict (Option String))
    → All (λ r. (p : String) → r.parent ≡ some p → P p) rs
    → ((k p : String) → parent_of d k ≡ some p → P p)
    → (k p : String) → parent_of (add_parents rs d) k ≡ some p
    → P p
unfolding add_parents
parents_hold P [] d all before = before
parents_hold P (r ∷ rs) d (here, all) before = parents_hold P rs (put r.key r.parent d) all (λ k p.
    subst (λ o. flatten o ≡ some p → P p) (sym (lookup-put r.key k r.parent d))
      (if_lem (λ o. flatten o ≡ some p → P p) (r.key == k) (λ same. here p)
        (λ differs. before k p)))

module _ (P : String → Type 0) (parents : Dict (Option String))
    (closed : (k p : String) → parent_of parents k ≡ some p → P p) where
  abbrev Reaches : Walk → Type 0
  Reaches (reached chain) = All P chain
  Reaches (circular k) = Unit
  Reaches unfinished = Unit

  walk-Reaches :
      (fuel : ℕ) (placed chain : List String) (cursor : Option String)
      → All P chain
      → ((k : String) → cursor ≡ some k → P k)
      → Reaches (walk parents fuel placed chain cursor)
  unfolding walk
  walk-Reaches zero placed chain none all here = all
  walk-Reaches (suc fuel) placed chain none all here = all
  walk-Reaches zero placed chain (some cursor) all here = tt
  walk-Reaches (suc fuel) placed chain (some cursor) all here =
      if_lem Reaches (member cursor placed) (λ h. all)
        (λ h.
          if_lem Reaches (member cursor chain) (λ c. tt)
            (λ c.
              walk-Reaches fuel placed (cursor ∷ chain) (parent_of parents cursor)
                (here cursor refl, all) (closed cursor)))

  place-All :
      (keys order : List String) → All P keys → All P order → All P (place parents keys order)
  unfolding place
  place-All [] order all before = before
  place-All (k ∷ keys) order (here, all) before = place-All keys (add_key k order) all (
      if_lem (All P) (member k order) (λ h. before)
        (λ h. All-append P order (k ∷ []) before (here, tt)))

  abbrev Orders : Order → Type 0
  Orders (ordered keys) = All P keys
  Orders (cycle k) = Unit
  Orders stuck = Unit

  after_walk-Orders :
      (next : List String → Order) (order : List String) (w : Walk)
      → All P order
      → Reaches w
      → ((o : List String) → All P o → Orders (next o))
      → Orders (after_walk parents next order w)
  after_walk-Orders next order (reached chain) before all rest =
      rest (place parents chain order) (place-All chain order all before)
  after_walk-Orders next order (circular k) before all rest = tt
  after_walk-Orders next order unfinished before all rest = tt

  order_from-Orders :
      (fuel : ℕ) (rs : List ResourceSpec) (order : List String)
      → All (λ r. P r.key) rs
      → All P order
      → Orders (order_from parents fuel rs order)
  unfolding order_from
  order_from-Orders fuel [] order all before = before
  order_from-Orders fuel (r ∷ rs) order (here, all) before =
      after_walk-Orders (order_from parents fuel rs) order _ before
        (walk-Reaches fuel order [] (some r.key) tt (λ k same. subst P (ground (arith, same)) here))
        (λ o done. order_from-Orders fuel rs o all done)

-- What holds of each key and each parent of the resources holds of each key of their order.
pub topological_order-All :
    (P : String → Type 0) (rs : List ResourceSpec) (keys : List String)
    → All (λ r. P r.key) rs
    → All (λ r. (p : String) → r.parent ≡ some p → P p) rs
    → topological_order rs ≡ ordered keys
    → All P keys
unfolding topological_order lookup
topological_order-All P rs keys named parents result =
    subst (Orders P (parents_of rs) closed) result
      (order_from-Orders P (parents_of rs) closed (suc (length (parents_of rs))) rs [] named tt)
  where
    closed : (k p : String) → parent_of (parents_of rs) k ≡ some p → P p
    closed = parents_hold P rs [] parents (λ k p h. absurd (ground (arith, h)))
