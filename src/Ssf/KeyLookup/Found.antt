-- ===== src/Ssf/KeyLookup/Found.antt =====
-- When a lookup of src/axiam_sdk/ssf/_receiver.py answers that there is no key.
use axiam_python_sdk.Base.{◌<◌, String, ◌≡◌, ◌⊎◌, false, none, arith, ℕ}
use axiam_python_sdk.Ssf.{ok}
use axiam_python_sdk.Ssf.Keys.{Core, may_force}
use axiam_python_sdk.Ssf.KeyLookup.{Web, Http, fill, refetch, key_for}

module _ (web : Web) (clock : ℕ → ℕ) (http : ℕ → Http) (kid : String) (core : Core) where
  -- A lookup answers that there is no key for the id only after a fetch of the JWKS, or where the
  -- limit of one refetch a minute forbids it.
  pub key_for_missing :
      (key_for web clock http kid core).answer ≡ ok none
      → (0 < (key_for web clock http kid core).fetches) ⊎ (may_force (clock 3) core ≡ false)
  unfolding key_for fill refetch
  key_for_missing h = ground arith
