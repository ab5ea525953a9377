-- ===== src/Manifest/Order/Grounded.antt =====
-- Keys that come after their parents are on no cycle.
use axiam_python_sdk.Base.{
  String, ◌≡◌, subst, inl, inr, Bool, true, false, Option, List, [], ◌∷◌, ◌==◌, eq_iff, arith, ◌||◌,
  Bool-cases,
}
use axiam_python_sdk.Dict.{Dict}
use axiam_python_sdk.Manifest.Order.{member}
use axiam_python_sdk.Manifest.Order.Ancestry.{Ancestor, up, further, ParentIn, Ordered}

later : {a b : Bool} → a ≡ false → (a || b) ≡ true → b ≡ true
later differ h = ground arith

module _ (parents : Dict (Option String)) where
  -- Keys whose ancestors are all among them, and none of which is its own ancestor.
  abbrev Grounded : List String → Type 0
  Grounded placed =
      (k : String) → member k placed ≡ true → ParentIn parents placed k × ¬ Ancestor parents k k

  pub nothing-Grounded : Grounded []
  unfolding member
  nothing-Grounded k h = absurd (ground arith)

  Ancestor-Grounded :
      (placed : List String)
      → Grounded placed
      → (k q : String) → member k placed ≡ true
      → Ancestor parents k q
      → member q placed ≡ true
  Ancestor-Grounded placed g k q h (up e) = (g k h).0 q e
  Ancestor-Grounded placed g k q h (further {p = p} e rest) =
      Ancestor-Grounded placed g p q ((g k h).0 p e) rest

  -- the ancestors of a new key come before it
  fresh-rootless :
      (placed : List String) (k : String)
      → Grounded placed
      → member k placed ≡ false
      → ParentIn parents placed k
      → ¬ Ancestor parents k k
  fresh-rootless placed k g fresh above (up e) = ground (arith, above k e)
  fresh-rootless placed k g fresh above (further {p = p} e rest) =
      ground (arith, Ancestor-Grounded placed g p k (above p e) rest)

  add-Grounded :
      (placed : List String) (k : String)
      → Grounded placed
      → member k placed ≡ false
      → ParentIn parents placed k
      → Grounded (k ∷ placed)
  unfolding member
  add-Grounded placed k g fresh above j h = elim (Bool-cases (k == j)) [
    | inl same ↦
        subst (λ x. ParentIn parents (k ∷ placed) x × ¬ Ancestor parents x x) ((eq_iff k j).0 same)
          (λ p e. ground (arith, above p e), fresh-rootless placed k g fresh above)
    | inr differ ↦ (λ p e. ground (arith, (g j (later differ h)).0 p e), (g j (later differ h)).1)
  ]

  pub Ordered-Grounded :
      (placed keys : List String)
      → Grounded placed
      → Ordered parents placed keys
      → (k : String) → (member k keys || member k placed) ≡ true
      → ¬ Ancestor parents k k
  unfolding member
  Ordered-Grounded placed [] g o k h = (g k h).1
  Ordered-Grounded placed (j ∷ keys) g (fresh, above, o) k h =
      Ordered-Grounded (j ∷ placed) keys (add-Grounded placed j g fresh above) o k
        (ground (arith, eq_iff j k))
