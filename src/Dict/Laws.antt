-- ===== src/Dict/Laws.antt =====
-- What a read sees after each write of a dict, and that keys stay unique.
use axiam_python_sdk.Base.{
  String, ◌≡◌, refl, Bool, Option, none, some, [], ◌∷◌, arith, ◌==◌, eq_iff, if◌then◌else◌,
}
use axiam_python_sdk.Dict.{Dict, lookup, remove, put, keep, IsUnique}

-- What `keep` leaves of a value.
abbrev pub kept {ℓ} : {V : Type ℓ} → (V → Bool) → Option V → Option V
kept test none = none
kept test (some v) = if test v then some v else none

module _ {ℓ} {V : Type ℓ} where
  pub lookup-put :
      (k j : String) (v : V) (d : Dict V)
      → lookup j (put k v d) ≡ (if k == j then some v else lookup j d)
  unfolding lookup put
  lookup-put k j v [] = refl
  lookup-put k j v ((i, w) ∷ d) =
      ground (arith, eq_iff i k, eq_iff i j, eq_iff k j, lookup-put k j v d)

  pub lookup-remove :
      (k j : String) (d : Dict V)
      → IsUnique d
      → lookup j (remove k d) ≡ (if k == j then none else lookup j d)
  unfolding lookup remove
  lookup-remove k j [] u = ground arith
  lookup-remove k j ((i, w) ∷ d) (fresh, u) =
      ground (arith, eq_iff i k, eq_iff i j, eq_iff k j, lookup-remove k j d u)

  pub lookup-keep :
      (test : V → Bool) (j : String) (d : Dict V)
      → IsUnique d
      → lookup j (keep test d) ≡ kept test (lookup j d)
  unfolding lookup keep
  lookup-keep test j [] u = refl
  lookup-keep test j ((i, w) ∷ d) (fresh, u) = ground (arith, eq_iff i j, lookup-keep test j d u)

  pub put-IsUnique : (k : String) (v : V) (d : Dict V) → IsUnique d → IsUnique (put k v d)
  unfolding lookup put
  put-IsUnique k v [] u = (refl, tt)
  put-IsUnique k v ((i, w) ∷ d) (fresh, u) =
      ground (arith, eq_iff i k, eq_iff k i, lookup-put k i v d, put-IsUnique k v d u)

  pub remove-IsUnique : (k : String) (d : Dict V) → IsUnique d → IsUnique (remove k d)
  unfolding lookup remove
  remove-IsUnique k [] u = tt
  remove-IsUnique k ((i, w) ∷ d) (fresh, u) =
      ground (arith, eq_iff i k, eq_iff k i, lookup-remove k i d u, remove-IsUnique k d u)

  pub keep-IsUnique : (test : V → Bool) (d : Dict V) → IsUnique d → IsUnique (keep test d)
  unfolding lookup keep
  keep-IsUnique test [] u = tt
  keep-IsUnique test ((i, w) ∷ d) (fresh, u) =
      ground (arith, lookup-keep test i d u, keep-IsUnique test d u)
