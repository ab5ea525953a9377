-- ===== src/Reactor/Patch.antt =====
-- Which fields the allow-lists of src/axiam_sdk/amqp/_reactor_registry.py admit.
use Prim.Native.Char.{Char}
use Prim.Native.String.{String, ◌++◌}
use text.Mathlib.TextLemmas.{nil-append, cons-append}
use text.Mathlib.TextEquality.{Char-path}
use axiam_python_sdk.Base.{
  ◌≡◌, refl, sym, ◌∙◌, ◌↔◌, ◌⊎◌, inl, inr, true, false, ◌&&◌, List, [], ◌∷◌, arith, eq_iff,
  Bool-cases,
}
use axiam_python_sdk.Text.{starts_with, longer, ends_with}
use axiam_python_sdk.Reactor.{ReactorEventSpec, admits, admits_one, patch_field_allowed}

-- A name in a namespace: the prefix, and at least one character after it.
abbrev pub Under : String → String → Type 0
Under allowed name = (c : Char) × (rest : String) × (name ≡ allowed ++ String.◌∷◌ c rest)

-- What one entry of an allow-list admits.
abbrev pub Admits : String → String → Type 0
Admits allowed name =
    ((ends_with b'.' allowed ≡ true) × Under allowed name)
    ⊎ ((ends_with b'.' allowed ≡ false) × (name ≡ allowed))

abbrev pub AdmitsOne : List String → String → Type 0
AdmitsOne [] name = ⊥
AdmitsOne (allowed ∷ rest) name = Admits allowed name ⊎ AdmitsOne rest name

cons_cong : (c d : Char) (s t : String) → c ≡ d → s ≡ t → String.◌∷◌ c s ≡ String.◌∷◌ d t
cons_cong c d s t p q = cc

extends-Under :
    (allowed name : String)
    → (longer name allowed && starts_with allowed name) ≡ true
    → Under allowed name
unfolding longer starts_with
extends-Under String.[] (String.◌∷◌ c name) h = (c, name, sym (nil-append _))
extends-Under (String.◌∷◌ c allowed) (String.◌∷◌ d name) h =
    let (x, rest, e) = extends-Under allowed name (ground arith) in
    (
      x,
      rest,
      cons_cong d c name _ (Char-path d c (ground arith)) e
          ∙ sym (cons-append c allowed (String.◌∷◌ x rest)),
    )
extends-Under String.[] String.[] h = ground (arith, h)
extends-Under (String.◌∷◌ c allowed) String.[] h = ground (arith, h)

Under-extends :
    (allowed name : String)
    → Under allowed name
    → (longer name allowed && starts_with allowed name) ≡ true
unfolding longer starts_with
Under-extends String.[] name (c, rest, e) = rw (e, nil-append) refl
Under-extends (String.◌∷◌ a allowed) name (c, rest, e) =
    let below = Under-extends allowed (allowed ++ String.◌∷◌ c rest) (c, rest, refl) in
    rw (e, cons-append) (ground (arith, below))

admits-Admits : (allowed name : String) → admits allowed name ≡ true → Admits allowed name
unfolding admits
admits-Admits allowed name h = elim (Bool-cases (ends_with b'.' allowed)) [
  | inl dot ↦ inl (dot, extends-Under allowed name (rw dot at h))
  | inr plain ↦ inr (plain, (eq_iff name allowed).0 (rw plain at h))
]

Admits-admits : (allowed name : String) → Admits allowed name → admits allowed name ≡ true
unfolding admits
Admits-admits allowed name (inl (dot, under)) = rw dot (Under-extends allowed name under)
Admits-admits allowed name (inr (plain, same)) = rw plain ((eq_iff name allowed).1 same)

admits_one-AdmitsOne :
    (fields : List String) (name : String) → admits_one fields name ≡ true → AdmitsOne fields name
unfolding admits_one
admits_one-AdmitsOne [] name h = ground (arith, h)
admits_one-AdmitsOne (allowed ∷ rest) name h = elim (Bool-cases (admits allowed name)) [
  | inl here ↦ inl (admits-Admits allowed name here)
  | inr later ↦ inr (admits_one-AdmitsOne rest name (rw later at h))
]

AdmitsOne-admits_one :
    (fields : List String) (name : String) → AdmitsOne fields name → admits_one fields name ≡ true
unfolding admits_one
AdmitsOne-admits_one [] name x = absurd x
AdmitsOne-admits_one (allowed ∷ rest) name (inl here) = rw (Admits-admits allowed name here) refl
AdmitsOne-admits_one (allowed ∷ rest) name (inr later) =
    ground (arith, AdmitsOne-admits_one rest name later)

-- A field may stand in a patch exactly when the event is mutable and an entry of its allow-list is
-- the field's name, or ends in a dot and is the beginning of the name with at least one more
-- character after it.
pub patch_field_allowed_iff :
    (spec : ReactorEventSpec) (name : String)
    → (patch_field_allowed spec name ≡ true)
      ↔ ((spec.mutable ≡ true) × AdmitsOne spec.mutable_fields name)
unfolding patch_field_allowed
patch_field_allowed_iff spec name = (
  λ h. (ground arith, admits_one-AdmitsOne spec.mutable_fields name (ground arith)),
  λ (m, a). ground (arith, AdmitsOne-admits_one spec.mutable_fields name a),
)
