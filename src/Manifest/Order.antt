-- ===== src/Manifest/Order.antt =====
-- topological_order of src/axiam_sdk/management/manifest/_plan.py: resource keys, parents first.
-- The walk up a chain of parents runs on fuel, one more than the number of keys.
pub mod Ancestry
pub mod Placing
pub mod Walks
pub mod Grounded
pub mod Acyclic
pub mod Declared
use axiam_python_sdk.Base.{
  ℕ, zero, suc, String, Bool, true, false, Option, none, some, List, [], ◌∷◌, ◌++◌, length, ◌==◌,
  if◌then◌else◌, ◌||◌,
}
use axiam_python_sdk.Dict.{Dict, lookup, put}
use axiam_python_sdk.Manifest.{ResourceSpec}

-- key in keys
unfoldable pub member : String → List String → Bool
member k [] = false
member k (j ∷ keys) = j == k || member k keys

-- {r.key: r.parent for r in manifest.resources}, on top of the pairs so far
unfoldable pub add_parents : List ResourceSpec → Dict (Option String) → Dict (Option String)
add_parents [] parents = parents
add_parents (r ∷ rs) parents = add_parents rs (put r.key r.parent parents)

abbrev pub parents_of : List ResourceSpec → Dict (Option String)
parents_of resources = add_parents resources []

-- a missing key reads as None
abbrev pub flatten : Option (Option String) → Option String
flatten none = none
flatten (some parent) = parent

-- parents.get(cursor)
abbrev pub parent_of : Dict (Option String) → String → Option String
parent_of parents key = flatten (lookup key parents)

-- How the walk up from one resource ends: with its chain, the last key first, or in a cycle.
pub data Walk : Type 0 where
  reached : List String → Walk
  circular : String → Walk
  unfinished : Walk

-- An order, the error that names a key of a cycle, or no answer for want of fuel.
pub data Order : Type 0 where
  ordered : List String → Order
  cycle : String → Order
  stuck : Order

-- if key not in placed: placed.add(key); order.append(key)
abbrev pub add_key : String → List String → List String
add_key key order = if member key order then order else order ++ key ∷ []

module _ (parents : Dict (Option String)) where
  -- the `while` loop; `guard` has the same keys as `chain`, so the chain stands for both
  unfoldable pub walk : ℕ → List String → List String → Option String → Walk
  walk fuel placed chain none = reached chain
  walk zero placed chain (some cursor) = unfinished
  walk (suc fuel) placed chain (some cursor) =
      let rest = walk fuel placed (cursor ∷ chain) (parent_of parents cursor) in
      if member cursor placed
      then reached chain
      else if member cursor chain
      then circular cursor
      else rest

  -- for key in reversed(chain): what is placed is what is in the order
  unfoldable pub place : List String → List String → List String
  place [] order = order
  place (key ∷ keys) order = place keys (add_key key order)

  abbrev pub after_walk : (List String → Order) → List String → Walk → Order
  after_walk next order (reached chain) = next (place chain order)
  after_walk next order (circular key) = cycle key
  after_walk next order unfinished = stuck

  -- the loop over the resources
  unfoldable pub order_from : ℕ → List ResourceSpec → List String → Order
  order_from fuel [] order = ordered order
  order_from fuel (r ∷ rs) order =
      after_walk (order_from fuel rs) order (walk fuel order [] (some r.key))

-- topological_order
unfoldable pub topological_order : List ResourceSpec → Order
unfolding order_from walk place
topological_order resources =
    let parents = parents_of resources in order_from parents (suc (length parents)) resources []
