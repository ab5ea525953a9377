-- ===== src/Manifest/Order/Ancestry.antt =====
-- The ancestors of a resource key in the parent graph of a manifest, and the chains of a walk.
use axiam_python_sdk.Base.{
  String, ◌≡◌, subst, inl, inr, true, false, Option, some, List, [], ◌∷◌, ◌==◌, eq_iff, arith, ◌||◌,
  Bool-cases,
}
use axiam_python_sdk.Dict.{Dict}
use axiam_python_sdk.Manifest.Order.{member, parent_of}

member_later :
    (j k : String) (keys : List String)
    → (j == k) ≡ false
    → (j == k || member k keys) ≡ true
    → member k keys ≡ true
member_later j k keys differ h = ground arith

module _ (parents : Dict (Option String)) where
  -- One or more steps up the parent graph.
  pub data Ancestor : String → String → Type 0 where
    up : {k p : String} → parent_of parents k ≡ some p → Ancestor k p
    further : {k p q : String} → parent_of parents k ≡ some p → Ancestor p q → Ancestor k q

  pub Ancestor-trans : {k p q : String} → Ancestor k p → Ancestor p q → Ancestor k q
  Ancestor-trans (up e) rest = further e rest
  Ancestor-trans (further e more) rest = further e (Ancestor-trans more rest)

  -- Each key's parent is the one before it, and the first key's parent is the cursor.
  abbrev pub Linked : List String → Option String → Type 0
  Linked [] cursor = Unit
  Linked (k ∷ keys) cursor = (parent_of parents k ≡ cursor) × Linked keys (some k)

  -- What the loop finds when it meets a key of its chain again.
  pub Linked-Ancestor :
      (keys : List String) (k c : String)
      → Linked keys (some c)
      → member k keys ≡ true
      → Ancestor k c
  unfolding member
  Linked-Ancestor [] k c linked h = ground arith
  Linked-Ancestor (j ∷ keys) k c (e, linked) h = elim (Bool-cases (j == k)) [
    | inl same ↦ subst (λ x. Ancestor x c) ((eq_iff j k).0 same) (up e)
    | inr differ ↦
        Ancestor-trans (Linked-Ancestor keys k j linked (member_later j k keys differ h)) (up e)
  ]

  -- The keys that have a parent before `k` are those placed.
  abbrev pub ParentIn : List String → String → Type 0
  ParentIn placed k = (p : String) → parent_of parents k ≡ some p → member p placed ≡ true

  -- Keys that come one by one after those placed, each once and each after its parent.
  abbrev pub Ordered : List String → List String → Type 0
  Ordered placed [] = Unit
  Ordered placed (k ∷ keys) =
      (member k placed ≡ false) × ParentIn placed k × Ordered (k ∷ placed) keys
