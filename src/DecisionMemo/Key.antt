-- ===== src/DecisionMemo/Key.antt =====
-- The key of src/axiam_sdk/_decision_memo.py tells apart what the server may answer differently.
use Prim.Native.Char.{Char, code}
use Prim.Native.String.{String, ◌++◌}
use text.Mathlib.TextLemmas.{nil-append, cons-append}
use axiam_python_sdk.Base.{◌≡◌, ◌≢◌, refl, sym, ap, ◌∙◌, Option, none, some, arith}
use axiam_python_sdk.DecisionMemo.{memo_key, separator, absent, component}

-- The unit separator does not occur.
abbrev pub NoSeparator : String → Type 0
NoSeparator String.[] = Unit
NoSeparator (String.◌∷◌ c s) = (code c ≢ 0x1f) × NoSeparator s

separator-append : (rest : String) → separator ++ rest ≡ String.◌∷◌ "\u{1f}" rest
separator-append rest = rw (cons-append, nil-append)

cons_inj : (c d : Char) (s t : String) → String.◌∷◌ c s ≡ String.◌∷◌ d t → (c ≡ d) × (s ≡ t)
cons_inj c d s t h = (cc, cc)

cons_cong : (c d : Char) (s t : String) → c ≡ d → s ≡ t → String.◌∷◌ c s ≡ String.◌∷◌ d t
cons_cong c d s t p q = cc

-- What follows the first separator, and what stands before it, are determined.
split_at_separator :
    (a b rest rest' : String)
    → NoSeparator a
    → NoSeparator b
    → a ++ (separator ++ rest) ≡ b ++ (separator ++ rest')
    → (a ≡ b) × (rest ≡ rest')
split_at_separator String.[] String.[] rest rest' na nb h =
    (refl, (cons_inj _ _ _ _ (simp (nil-append, separator-append) at h)).1)
split_at_separator String.[] (String.◌∷◌ d b) rest rest' na (nd, nb) h = absurd (
    nd (sym (ap code (cons_inj _ _ _ _ (simp (nil-append, cons-append, separator-append) at h)).0)))
split_at_separator (String.◌∷◌ c a) String.[] rest rest' (nc, na) nb h =
    absurd
      (nc (ap code (cons_inj _ _ _ _ (simp (nil-append, cons-append, separator-append) at h)).0))
split_at_separator (String.◌∷◌ c a) (String.◌∷◌ d b) rest rest' (nc, na) (nd, nb) h =
    let whole =
      sym (cons-append c a (separator ++ rest)) ∙ h ∙ cons-append d b (separator ++ rest') in
    let (first, e) = cons_inj c d (a ++ (separator ++ rest)) (b ++ (separator ++ rest')) whole in
    let (p, q) = split_at_separator a b rest rest' na nb e in (cons_cong c d a b first p, q)

-- What may be a component of a key: the separator does not occur, and it is not the marker of an
-- absent one.
abbrev pub IsComponent : String → Type 0
IsComponent s = NoSeparator s × (s ≢ absent)

abbrev pub IsOptional : Option String → Type 0
IsOptional none = Unit
IsOptional (some s) = IsComponent s

component-NoSeparator : (o : Option String) → IsOptional o → NoSeparator (component o)
component-NoSeparator none h = (omega arith, tt)
component-NoSeparator (some s) h = h.0

component_inj :
    (o o' : Option String) → IsOptional o → IsOptional o' → component o ≡ component o' → o ≡ o'
component_inj none none h h' e = refl
component_inj none (some s) h h' e = absurd (h'.1 (sym e))
component_inj (some s) none h h' e = absurd (h.1 e)
component_inj (some s) (some t) h h' e = ap some e

-- What the server is asked.
pub record Question : Type 0 where
  pub action : String
  pub resource_id : String
  pub scope : Option String
  pub subject_id : Option String
  pub acting_tenant : Option String

pub record IsQuestion (q : Question) : Type 0 where
  pub action_plain : NoSeparator q.action
  pub resource_plain : NoSeparator q.resource_id
  pub scope_plain : IsOptional q.scope
  pub subject_plain : IsOptional q.subject_id
  pub tenant_plain : IsOptional q.acting_tenant

abbrev pub key_of : Question → String
key_of q = memo_key q.action q.resource_id q.scope q.subject_id q.acting_tenant

-- Two questions whose parts hold no unit separator and are not the marker of an absent part have the
-- same key only if all five parts agree, absent ones included.
pub memo_key_inj : (p q : Question) → IsQuestion p → IsQuestion q → key_of p ≡ key_of q → p ≡ q
unfolding memo_key
memo_key_inj p q hp hq h =
    let (e1, h1) =
      split_at_separator (component p.subject_id) (component q.subject_id) _ _
        (component-NoSeparator p.subject_id hp.subject_plain)
        (component-NoSeparator q.subject_id hq.subject_plain) h in
    let (e2, h2) =
      split_at_separator p.resource_id q.resource_id _ _ hp.resource_plain hq.resource_plain h1 in
    let (e3, h3) = split_at_separator p.action q.action _ _ hp.action_plain hq.action_plain h2 in
    let (e4, e5) =
      split_at_separator (component p.scope) (component q.scope) _ _
        (component-NoSeparator p.scope hp.scope_plain)
        (component-NoSeparator q.scope hq.scope_plain) h3 in
    let subjects = component_inj p.subject_id q.subject_id hp.subject_plain hq.subject_plain e1 in
    let scopes = component_inj p.scope q.scope hp.scope_plain hq.scope_plain e4 in
    let tenants =
      component_inj p.acting_tenant q.acting_tenant hp.tenant_plain hq.tenant_plain e5 in
    λ i. record {
      action = e3 i;
      resource_id = e2 i;
      scope = scopes i;
      subject_id = subjects i;
      acting_tenant = tenants i;
    }
