-- ===== src/Manifest/Order/Acyclic.antt =====
-- When topological_order has an answer, and what the order is.
use axiam_python_sdk.Base.{
  ℕ, suc, ◌<◌, String, ◌≡◌, ◌≢◌, ◌↔◌, refl, subst, Bool, true, Option, some, List, [], ◌∷◌, length,
  eq_iff, arith, ◌||◌, is_some,
}
use axiam_python_sdk.Dict.{Dict, lookup, put, IsUnique}
use axiam_python_sdk.Dict.Laws.{lookup-put, put-IsUnique}
use axiam_python_sdk.Manifest.{ResourceSpec}
use axiam_python_sdk.Manifest.Order.{
  member, add_key, add_parents, parents_of, Walk, reached, circular, unfinished, Order, ordered,
  cycle, stuck, walk, place, after_walk, order_from, topological_order,
}
use axiam_python_sdk.Manifest.Order.Ancestry.{Ancestor, up, further, Ordered}
use axiam_python_sdk.Manifest.Order.Grounded.{nothing-Grounded, Ordered-Grounded}
use axiam_python_sdk.Manifest.Order.Placing.{member-add_key, place-Ordered}
use axiam_python_sdk.Manifest.Order.Walks.{
  declared, Climbed, Started, walk-Climbed, walk-Started, walk_finishes,
}

-- The keys that a manifest's resources declare.
abbrev pub resource_keys : List ResourceSpec → List String
resource_keys [] = []
resource_keys (r ∷ rs) = r.key ∷ resource_keys rs

or_left : (a b : Bool) → a ≡ true → (a || b) ≡ true
or_left a b h = ground arith

add_parents-IsUnique :
    (rs : List ResourceSpec) (d : Dict (Option String)) → IsUnique d → IsUnique (add_parents rs d)
unfolding add_parents
add_parents-IsUnique [] d u = u
add_parents-IsUnique (r ∷ rs) d u =
    add_parents-IsUnique rs (put r.key r.parent d) (put-IsUnique r.key r.parent d u)

add_parents-keys :
    (rs : List ResourceSpec) (d : Dict (Option String)) (k : String)
    → is_some (lookup k (add_parents rs d)) ≡ true
    → (is_some (lookup k d) || member k (resource_keys rs)) ≡ true
unfolding add_parents member
add_parents-keys [] d k h = ground arith
add_parents-keys (r ∷ rs) d k h = ground (
  arith,
  add_parents-keys rs (put r.key r.parent d) k h,
  lookup-put r.key k r.parent d,
  eq_iff r.key k,
)

module _ (parents : Dict (Option String)) where
  member-place :
      (keys order : List String) (k : String)
      → (member k keys || member k order) ≡ true
      → member k (place parents keys order) ≡ true
  unfolding place member
  member-place [] order k h = h
  member-place (j ∷ keys) order k h =
      member-place keys (add_key j order) k (ground (arith, member-add_key j k order))

  -- What the loop returns from an order of the keys so far.
  abbrev Answered : List String → List String → Order → Type 0
  Answered keys order (ordered os) =
      Ordered parents [] os
      × ((k : String) → (member k keys || member k order) ≡ true → member k os ≡ true)
  Answered keys order (cycle k) = Ancestor parents k k
  Answered keys order stuck = Unit

  Answered-more :
      (keys order : List String) (k : String) (order' : List String) (result : Order)
      → ((j : String)
          → (member j (k ∷ keys) || member j order) ≡ true
          → (member j keys || member j order') ≡ true)
      → Answered keys order' result
      → Answered (k ∷ keys) order result
  Answered-more keys order k order' (ordered os) covers (o, all) = (o, λ j h. all j (covers j h))
  Answered-more keys order k order' (cycle j) covers cyclic = cyclic
  Answered-more keys order k order' stuck covers a = tt

  after_walk-Answered :
      (keys order : List String) (k : String) (next : List String → Order) (w : Walk)
      → ((o : List String) → Ordered parents [] o → Answered keys o (next o))
      → Ordered parents [] order
      → Climbed parents order [] w
      → Started parents order k w
      → Answered (k ∷ keys) order (after_walk parents next order w)
  unfolding member
  after_walk-Answered keys order k next (reached chain) rest o (c, linked, above, keeps) start =
      Answered-more keys order k (place parents chain order) _
        (λ j h. ground (arith, eq_iff k j, member-place chain order j))
        (rest _ (place-Ordered parents chain order c linked above o))
  after_walk-Answered keys order k next (circular j) rest o climbed start = climbed
  after_walk-Answered keys order k next unfinished rest o climbed start = tt

  order_from-Answered :
      (fuel : ℕ) (rs : List ResourceSpec) (order : List String)
      → Ordered parents [] order
      → Answered (resource_keys rs) order (order_from parents fuel rs order)
  unfolding order_from member
  order_from-Answered fuel [] order o = (o, λ k h. h)
  order_from-Answered fuel (r ∷ rs) order o =
      after_walk-Answered (resource_keys rs) order r.key (order_from parents fuel rs)
        (walk parents fuel order [] (some r.key)) (order_from-Answered fuel rs) o
        (walk-Climbed parents order fuel [] (some r.key) tt) (walk-Started parents order fuel r.key)

  after_walk_finishes :
      (order : List String) (next : List String → Order) (w : Walk)
      → ((o : List String) → next o ≢ stuck)
      → w ≢ unfinished
      → after_walk parents next order w ≢ stuck
  after_walk_finishes order next (reached chain) rest done = rest (place parents chain order)
  after_walk_finishes order next (circular j) rest done = λ e. ground arith
  after_walk_finishes order next unfinished rest done = λ e. done refl

  order_from_finishes :
      (fuel : ℕ) (rs : List ResourceSpec) (order : List String)
      → IsUnique parents
      → length parents < fuel
      → order_from parents fuel rs order ≢ stuck
  unfolding order_from
  order_from_finishes fuel [] order u enough = λ e. ground arith
  order_from_finishes fuel (r ∷ rs) order u enough =
      after_walk_finishes order (order_from parents fuel rs) _
        (λ o. order_from_finishes fuel rs o u enough)
        (walk_finishes parents order fuel [] (some r.key) u tt tt (omega arith))

module _ (resources : List ResourceSpec) where
  -- topological_order always ends, and with no error but that of a cycle.
  pub topological_order_finishes : topological_order resources ≢ stuck
  unfolding topological_order
  topological_order_finishes =
      order_from_finishes (parents_of resources) (suc (length (parents_of resources))) resources []
        (add_parents-IsUnique resources [] tt) (omega arith)

  topological_order-Answered :
      Answered (parents_of resources) (resource_keys resources) [] (topological_order resources)
  unfolding topological_order
  topological_order-Answered =
      order_from-Answered (parents_of resources) (suc (length (parents_of resources))) resources []
        tt

  -- An order that topological_order returns has each key of the manifest's resources, has no key
  -- twice, and has each key's parent before it.
  pub topological_order-Ordered :
      (order : List String)
      → topological_order resources ≡ ordered order
      → Ordered (parents_of resources) [] order
        × ((k : String) → member k (resource_keys resources) ≡ true → member k order ≡ true)
  topological_order-Ordered order e =
      let (o, all) =
        subst (Answered (parents_of resources) (resource_keys resources) []) e
          topological_order-Answered in
      (o, λ k h. all k (or_left _ _ h))

  -- a key with a parent is declared
  Ancestor-declared :
      (k q : String)
      → Ancestor (parents_of resources) k q
      → member k (resource_keys resources) ≡ true
  unfolding lookup
  Ancestor-declared k q (up e) =
      ground (arith, add_parents-keys resources [] k (declared (parents_of resources) k _ e))
  Ancestor-declared k q (further e rest) =
      ground (arith, add_parents-keys resources [] k (declared (parents_of resources) k _ e))

  unless_circular :
      (result : Order)
      → Answered (parents_of resources) (resource_keys resources) [] result
      → result ≢ stuck
      → ((k : String) → ¬ Ancestor (parents_of resources) k k)
      → (order : List String) × (result ≡ ordered order)
  unless_circular (ordered order) a done acyclic = (order, refl)
  unless_circular (cycle k) a done acyclic = absurd (acyclic k a)
  unless_circular stuck a done acyclic = absurd (done refl)

  -- topological_order returns an order exactly when no key is its own ancestor in the parent graph.
  pub topological_order_iff :
      ((order : List String) × (topological_order resources ≡ ordered order))
      ↔ ((k : String) → ¬ Ancestor (parents_of resources) k k)
  topological_order_iff = (
    λ (order, e) k cyclic.
        let (o, all) = topological_order-Ordered order e in
        Ordered-Grounded (parents_of resources) [] order (nothing-Grounded (parents_of resources)) o
          k (or_left _ _ (all k (Ancestor-declared k k cyclic))) cyclic,
    λ acyclic. unless_circular _ topological_order-Answered topological_order_finishes acyclic,
  )
