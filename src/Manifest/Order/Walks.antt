-- ===== src/Manifest/Order/Walks.antt =====
-- The walk up a chain of parents in topological_order: what its chain is, that the cycle that it
-- reports is one, and that its fuel is enough.
use axiam_python_sdk.Base.{
  ℕ, zero, suc, ◌+◌, ◌≤◌, ◌<◌, String, ◌≡◌, ◌≢◌, refl, true, false, Option, none, some, List, [],
  ◌∷◌, length, eq_iff, arith, ◌||◌, if_lem, is_some,
}
use axiam_python_sdk.Dict.{Dict, lookup, remove, IsUnique}
use axiam_python_sdk.Dict.Laws.{lookup-remove, remove-IsUnique}
use axiam_python_sdk.Manifest.Order.{member, parent_of, Walk, reached, circular, unfinished, walk}
use axiam_python_sdk.Manifest.Order.Ancestry.{Ancestor, Linked, Linked-Ancestor}

-- distinct keys
abbrev pub IsDistinct : List String → Type 0
IsDistinct [] = Unit
IsDistinct (k ∷ keys) = (member k keys ≡ false) × IsDistinct keys

module _ {V : Type 0} where
  length-remove :
      (k : String) (d : Dict V) → is_some (lookup k d) ≡ true → suc (length (remove k d)) ≡ length d
  unfolding lookup remove
  length-remove k [] h = ground arith
  length-remove k ((j, v) ∷ d) h = ground (arith, length-remove k d)

  abbrev Within : Dict V → List String → Type 0
  Within d keys = (k : String) → member k keys ≡ true → is_some (lookup k d) ≡ true

  Within-remove :
      (d : Dict V) (k : String) (keys : List String)
      → IsUnique d
      → member k keys ≡ false
      → Within d (k ∷ keys)
      → Within (remove k d) keys
  unfolding member
  Within-remove d k keys u fresh w j h = ground (arith, lookup-remove k j d u, w j, eq_iff k j)

  -- Distinct keys of a dict are no more than its entries.
  length-Within :
      (keys : List String) (d : Dict V)
      → IsUnique d
      → IsDistinct keys
      → Within d keys
      → length keys ≤ length d
  unfolding member
  length-Within [] d u distinct w = omega arith
  length-Within (k ∷ keys) d u (fresh, distinct) w = omega (
    arith,
    length-remove k d (w k (ground (arith, eq_iff k k))),
    length-Within keys (remove k d) (remove-IsUnique k d u) distinct
        (Within-remove d k keys u fresh w),
  )

-- a key with a parent is in the dict
pub declared :
    (parents : Dict (Option String)) (k p : String)
    → parent_of parents k ≡ some p
    → is_some (lookup k parents) ≡ true
declared parents k p e = ground arith

module _ (parents : Dict (Option String)) (placed : List String) where
  -- What a walk ends with that had climbed a chain so far.
  abbrev pub Climbed : List String → Walk → Type 0
  Climbed chain (reached keys) =
      (cursor : Option String) × Linked parents keys cursor
      × ((p : String) → cursor ≡ some p → member p placed ≡ true)
      × ((k : String) → member k chain ≡ true → member k keys ≡ true)
  Climbed chain (circular k) = Ancestor parents k k
  Climbed chain unfinished = Unit

  weaken : (k : String) (chain : List String) (w : Walk) → Climbed (k ∷ chain) w → Climbed chain w
  unfolding member
  weaken k chain (reached keys) (c, linked, above, keeps) =
      (c, linked, above, λ j h. keeps j (ground arith))
  weaken k chain (circular j) cyclic = cyclic
  weaken k chain unfinished u = tt

  placed_same : (k p : String) → member k placed ≡ true → some k ≡ some p → member p placed ≡ true
  placed_same k p here e = ground arith

  pub walk-Climbed :
      (fuel : ℕ) (chain : List String) (cursor : Option String)
      → Linked parents chain cursor
      → Climbed chain (walk parents fuel placed chain cursor)
  unfolding walk
  walk-Climbed fuel chain none linked = (none, linked, λ p e. ground arith, λ k h. h)
  walk-Climbed zero chain (some k) linked = tt
  walk-Climbed (suc fuel) chain (some k) linked =
      if_lem (Climbed chain) (member k placed)
        (λ here. (some k, linked, λ p e. placed_same k p here e, λ j h. h))
        (λ away.
          if_lem (Climbed chain) (member k chain)
            (λ again. Linked-Ancestor parents chain k k linked again)
            (λ fresh. weaken k chain _ (walk-Climbed fuel (k ∷ chain) _ (refl, linked))))

  -- The key that a walk starts at is on its chain or placed.
  abbrev pub Started : String → Walk → Type 0
  Started k (reached keys) = (member k keys || member k placed) ≡ true
  Started k (circular j) = Unit
  Started k unfinished = Unit

  Climbed-Started : (k : String) (w : Walk) → Climbed (k ∷ []) w → Started k w
  unfolding member
  Climbed-Started k (reached keys) (c, linked, above, keeps) =
      ground (arith, keeps k (ground (arith, eq_iff k k)))
  Climbed-Started k (circular j) cyclic = tt
  Climbed-Started k unfinished u = tt

  pub walk-Started : (fuel : ℕ) (k : String) → Started k (walk parents fuel placed [] (some k))
  unfolding walk member
  walk-Started zero k = tt
  walk-Started (suc fuel) k =
      if_lem (Started k) (member k placed) (λ here. here)
        (λ away. Climbed-Started k _ (walk-Climbed fuel (k ∷ []) _ (refl, tt)))

  -- the keys below the cursor have a parent, so they are keys of the dict
  Linked-Within :
      (keys : List String) (k : String) → Linked parents keys (some k) → Within parents keys
  unfolding member
  Linked-Within [] k linked j h = ground arith
  Linked-Within (i ∷ keys) k (e, linked) j h =
      ground (arith, declared parents i k e, Linked-Within keys i linked j, eq_iff i j)

  pub walk_finishes :
      (fuel : ℕ) (chain : List String) (cursor : Option String)
      → IsUnique parents
      → Linked parents chain cursor
      → IsDistinct chain
      → length parents < fuel + length chain
      → walk parents fuel placed chain cursor ≢ unfinished
  unfolding walk
  walk_finishes fuel chain none u linked distinct bound = λ e. ground arith
  walk_finishes zero chain (some k) u linked distinct bound =
      λ e. omega (arith, length-Within chain parents u distinct (Linked-Within chain k linked))
  walk_finishes (suc fuel) chain (some k) u linked distinct bound =
      if_lem (λ w. w ≢ unfinished) (member k placed) (λ here e. ground arith)
        (λ away.
          if_lem (λ w. w ≢ unfinished) (member k chain) (λ again e. ground arith)
            (λ fresh.
              walk_finishes fuel (k ∷ chain) _ u (refl, linked) (fresh, distinct) (omega arith)))
