-- ===== src/Dict.antt =====
-- Python's `dict` with string keys, in insertion order: a store of the program is one of these,
-- and a write to a key that is there keeps its place.
pub mod Laws
use axiam_python_sdk.Base.{
  ℕ, String, ◌≡◌, Bool, Option, none, some, List, [], ◌∷◌, ◌==◌, if◌then◌else◌,
}

abbrev pub Dict {ℓ} : Type ℓ → Type ℓ
Dict V = List (String × V)

module _ {ℓ} {V : Type ℓ} where
  -- d.get(k)
  unfoldable pub lookup : String → Dict V → Option V
  lookup k [] = none
  lookup k ((j, v) ∷ d) = if j == k then some v else lookup k d

  -- d.pop(k, None), del d[k]
  unfoldable pub remove : String → Dict V → Dict V
  remove k [] = []
  remove k ((j, v) ∷ d) = let rest = remove k d in if j == k then d else (j, v) ∷ rest

  -- d[k] = v
  unfoldable pub put : String → V → Dict V → Dict V
  put k v [] = (k, v) ∷ []
  put k v ((j, w) ∷ d) = let rest = put k v d in if j == k then (j, v) ∷ d else (j, w) ∷ rest

  -- {k: v for k, v in d.items() if test(v)}
  unfoldable pub keep : (V → Bool) → Dict V → Dict V
  keep test [] = []
  keep test ((j, v) ∷ d) = let rest = keep test d in if test v then (j, v) ∷ rest else rest

  -- A dict holds each key once.
  abbrev pub IsUnique : Dict V → Type ℓ
  IsUnique [] = Unit
  IsUnique ((j, v) ∷ d) = (lookup j d ≡ none) × IsUnique d
