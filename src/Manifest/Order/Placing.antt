-- ===== src/Manifest/Order/Placing.antt =====
-- topological_order places each chain of parents from its top, so its result is in order.
use axiam_python_sdk.Base.{
  String, ◌≡◌, refl, sym, ◌∙◌, true, false, Option, some, List, [], ◌∷◌, ◌++◌, ◌==◌, eq_iff, arith,
  ◌||◌, if_lem,
}
use axiam_python_sdk.Dict.{Dict}
use axiam_python_sdk.Manifest.Order.{add_key, member, parent_of, place}
use axiam_python_sdk.Manifest.Order.Ancestry.{Linked, Ordered}

-- keys read after those placed, the latest first
abbrev onto : List String → List String → List String
onto placed [] = placed
onto placed (k ∷ keys) = onto (k ∷ placed) keys

member-append :
    (k : String) (xs ys : List String) → member k (xs ++ ys) ≡ (member k xs || member k ys)
unfolding member
member-append k [] ys = refl
member-append k (x ∷ xs) ys = ground (arith, member-append k xs ys)

pub member-add_key :
    (k j : String) (order : List String) → member j (add_key k order) ≡ (k == j || member j order)
unfolding member
member-add_key k j order = ground (arith, member-append j order (k ∷ []), eq_iff k j)

added-member :
    (k j : String) (order : List String) → some k ≡ some j → member j (add_key k order) ≡ true
unfolding member
added-member k j order same = ground (arith, member-add_key k j order, eq_iff k j)

module _ (parents : Dict (Option String)) where
  Ordered-append :
      (k : String) (placed keys : List String)
      → member k placed ≡ false
      → member k keys ≡ false
      → ((p : String) → parent_of parents k ≡ some p → (member p placed || member p keys) ≡ true)
      → Ordered parents placed keys
      → Ordered parents placed (keys ++ k ∷ [])
  unfolding member
  Ordered-append k placed [] fresh new above o = (fresh, λ p e. ground (arith, above p e), tt)
  Ordered-append k placed (j ∷ keys) fresh new above (jf, ja, o) = (
    jf,
    ja,
    Ordered-append k (j ∷ placed) keys (ground (arith, eq_iff j k, eq_iff k j)) (ground arith)
        (λ p e. ground (arith, above p e)) o,
  )

  add_key-Ordered :
      (k : String) (order : List String) (c : Option String)
      → parent_of parents k ≡ c
      → ((p : String) → c ≡ some p → member p order ≡ true)
      → Ordered parents [] order
      → Ordered parents [] (add_key k order)
  unfolding member
  add_key-Ordered k order c e above o =
      if_lem (Ordered parents []) (member k order) (λ here. o)
        (λ fresh. Ordered-append k [] order refl fresh (λ p up. above p (sym e ∙ up)) o)

  pub place-Ordered :
      (keys order : List String) (c : Option String)
      → Linked parents keys c
      → ((p : String) → c ≡ some p → member p order ≡ true)
      → Ordered parents [] order
      → Ordered parents [] (place parents keys order)
  unfolding place
  place-Ordered [] order c linked above o = o
  place-Ordered (k ∷ keys) order c (e, linked) above o =
      place-Ordered keys _ (some k) linked (λ p same. added-member k p order same)
        (add_key-Ordered k order c e above o)
