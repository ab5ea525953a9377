-- ===== src/Manifest/Validate/Checks.antt =====
-- When each check of validate finds no problem.
use axiam_python_sdk.Base.{
  String, ◌≡◌, ◌≢◌, ◌↔◌, refl, ap, subst, Bool, true, false, ◌&&◌, not, Option, none, some, List,
  [], ◌∷◌, map, arith, All,
}
use mathlib.Core.Option.{some-injective}
use axiam_python_sdk.Text.{is_blank}
use axiam_python_sdk.Manifest.{
  ResourceSpec, RoleBinding, plain, scoped, Stated, unset, stated, NetworkSegmentSpec,
  NetworkProfileSpec,
}
use axiam_python_sdk.Manifest.Order.{member}
use axiam_python_sdk.Manifest.Validate.Fitting.{
  Fresh, Once, In, BindingFits, ParentFits, FilterIdsFit, ProfileFits,
}
use axiam_python_sdk.Manifest.Validate.{
  ◌⨾◌, Problem, duplicate, undeclared_role, repeated_role, repeated_natural_key, undeclared_segment,
  repeated_profile, no_termination_action, repeated_filter_id, each, report, repeats, duplicates,
  role_key, Declared, binding_resource_problems, validate_role_bindings, parent_problems,
  same_place, undeclared_parent, optional_parent_problems, repeated_filter_ids, filter_problems,
  segment_problems, states_none, profile_problems,
}

pub iff_trans : {A B C : Type 0} → (A ↔ B) → (B ↔ C) → A ↔ C
iff_trans (f, g) (h, k) = (λ a. h (f a), λ c. g (k c))

append-nil : (xs ys : List Problem) → (xs ⨾ ys ≡ []) ↔ ((xs ≡ []) × (ys ≡ []))
append-nil [] ys = (λ e. (refl, e), λ (_, e). e)
append-nil (x ∷ xs) ys = (λ e. ground arith, λ (e, _). ground arith)

-- No problem of two checks, each of which finds none exactly when its condition holds.
pub append_iff :
    {xs ys : List Problem} {P Q : Type 0}
    → ((xs ≡ []) ↔ P)
    → ((ys ≡ []) ↔ Q)
    → (xs ⨾ ys ≡ []) ↔ (P × Q)
append_iff {xs} {ys} (f, g) (h, k) = (
  λ e. let (ex, ey) = (append-nil xs ys).0 e in (f ex, h ey),
  λ (p, q). (append-nil xs ys).1 (g p, k q),
)

report_iff : (b : Bool) (p : Problem) → (report b p ≡ []) ↔ (b ≡ false)
report_iff true p = (λ e. ground arith, λ e. ground arith)
report_iff false p = (λ e. refl, λ e. refl)

pub needs_iff : (b : Bool) (p : Problem) → (report (not b) p ≡ []) ↔ (b ≡ true)
needs_iff true p = (λ e. refl, λ e. refl)
needs_iff false p = (λ e. ground arith, λ e. ground arith)

module _ {A : Type 0} where
  pub each_iff :
      (problems : A → List Problem) (P : A → Type 0) (xs : List A)
      → ((x : A) → (problems x ≡ []) ↔ P x)
      → (each problems xs ≡ []) ↔ All P xs
  unfolding each
  each_iff problems P [] fits = (λ e. tt, λ u. refl)
  each_iff problems P (x ∷ xs) fits = append_iff (fits x) (each_iff problems P xs fits)

  repeats_iff :
      (is_in : A → List A → Bool) (problem : A → Problem) (seen xs : List A)
      → (repeats is_in problem seen xs ≡ []) ↔ Fresh is_in seen xs
  unfolding repeats
  repeats_iff is_in problem seen [] = (λ e. tt, λ u. refl)
  repeats_iff is_in problem seen (x ∷ xs) =
      append_iff (report_iff _ _) (repeats_iff is_in problem (x ∷ seen) xs)

pub Once-iff : (kind : String) (keys : List String) → (duplicates kind keys ≡ []) ↔ Once keys
unfolding duplicates
Once-iff kind keys = repeats_iff member (duplicate kind) [] keys

module _ (d : Declared) (kind subject : String) where
  inherits_iff :
      (inherit global : Bool) (p : Problem)
      → (report (not inherit && global) p ≡ []) ↔ (inherit ≡ false → global ≡ false)
  inherits_iff true global p = (λ e i. ground arith, λ f. refl)
  inherits_iff false true p = (λ e i. ground arith, λ f. absurd (ground (arith, f refl)))
  inherits_iff false false p = (λ e i. refl, λ f. refl)

  binding_iff :
      (b : RoleBinding) → (binding_resource_problems d kind subject b ≡ []) ↔ BindingFits d b
  binding_iff (plain role) = (λ e. tt, λ u. refl)
  binding_iff (scoped b) = append_iff (needs_iff _ _) (inherits_iff _ _ _)

  pub bindings_iff :
      (seen : List String) (bs : List RoleBinding)
      → (validate_role_bindings d kind subject seen bs ≡ []) ↔ (
          All (λ b. In d.role_keys (role_key b) × BindingFits d b) bs
          × Fresh member seen (map role_key bs))
  unfolding validate_role_bindings
  bindings_iff seen [] = (λ e. (tt, tt), λ u. refl)
  bindings_iff seen (b ∷ bs) =
      iff_trans
        (append_iff (needs_iff _ (undeclared_role kind subject (role_key b))) (
          append_iff (report_iff _ (repeated_role kind subject (role_key b)))
            (append_iff (binding_iff b) (bindings_iff (role_key b ∷ seen) bs))))
        (
          λ (known, (new, (fits, (all, fresh)))). (((known, fits), all), (new, fresh)),
          λ (((known, fits), all), (new, fresh)). (known, (new, (fits, (all, fresh)))),
        )

-- the value of a stated member
abbrev content : {A : Type 0} → A → Stated A → A
content default unset = default
content default (stated a) = a

-- A condition on the content of a member.
some_iff : {A : Type 0} (P : A → Type 0) (a : A) → P a ↔ ((b : A) → some a ≡ some b → P b)
some_iff P a = (λ h b e. subst P (some-injective a b e) h, λ f. f a refl)

stated-injective : {A : Type 0} {a b : A} → stated a ≡ stated b → a ≡ b
stated-injective {A} {a} e = ap (content a) e

stated_iff : {A : Type 0} (P : A → Type 0) (a : A) → P a ↔ ((b : A) → stated a ≡ stated b → P b)
stated_iff P a = (λ h b e. subst P (stated-injective e) h, λ f. f a refl)

-- A reference to a parent that may be absent or the empty text.
module _ (keys : List String) (key : String) where
  named_iff :
      (blank : Bool) (parent : String) (p : Problem)
      → (report (not blank && not (member parent keys)) p ≡ []) ↔ (blank ≡ false → In keys parent)
  named_iff true parent p = (λ e b. ground arith, λ f. refl)
  named_iff false parent p = (λ e b. (needs_iff _ p).0 e, λ f. (needs_iff _ p).1 (f refl))

  parent_cases :
      (parent : Option String)
      → (optional_parent_problems keys key parent ≡ [])
        ↔ ((p : String) → parent ≡ some p → is_blank p ≡ false → In keys p)
  parent_cases none = (λ e p n. ground arith, λ f. refl)
  parent_cases (some parent) =
      iff_trans (named_iff (is_blank parent) parent (undeclared_parent key parent))
        (some_iff (λ p. is_blank p ≡ false → In keys p) parent)

pub parent_iff :
    (keys : List String) (r : ResourceSpec) → (parent_problems keys r ≡ []) ↔ ParentFits keys r
parent_iff keys r = parent_cases keys r.key r.parent

names_cases :
    (key : String) (ids : Stated (List String))
    → (repeated_filter_ids key ids ≡ []) ↔ ((names : List String) → ids ≡ stated names → Once names)
names_cases key unset = (λ e n f. absurd (ground arith), λ f. refl)
names_cases key (stated names) =
    iff_trans (repeats_iff member (repeated_filter_id key) [] names) (stated_iff Once names)

pub filter_iff : (s : NetworkSegmentSpec) → (filter_problems s ≡ []) ↔ FilterIdsFit s
filter_iff s = names_cases s.key s.filter_ids

pub segments_iff :
    (natural ss : List NetworkSegmentSpec)
    → (segment_problems natural ss ≡ []) ↔ (Fresh same_place natural ss × All FilterIdsFit ss)
unfolding segment_problems
segments_iff natural [] = (λ e. (tt, tt), λ u. refl)
segments_iff natural (s ∷ ss) =
    iff_trans
      (append_iff (report_iff _ (repeated_natural_key s))
        (append_iff (filter_iff s) (segments_iff (s ∷ natural) ss)))
      (
        λ (new, (fits, (fresh, all))). ((new, fresh), (fits, all)),
        λ ((new, fresh), (fits, all)). (new, (fits, (fresh, all))),
      )

states_none_iff :
    (a : Stated (Option String)) (p : Problem) → (report (states_none a) p ≡ []) ↔ (a ≢ stated none)
states_none_iff unset p = (λ e i. ground arith, λ f. refl)
states_none_iff (stated none) p = (λ e. ground arith, λ f. absurd (f refl))
states_none_iff (stated (some a)) p = (λ e i. ground arith, λ f. refl)

pub profiles_iff :
    (segments profiled : List String) (ps : List NetworkProfileSpec)
    → (profile_problems segments profiled ps ≡ [])
      ↔ (All (ProfileFits segments) ps × Fresh member profiled (map (λ p. p.segment) ps))
unfolding profile_problems
profiles_iff segments profiled [] = (λ e. (tt, tt), λ u. refl)
profiles_iff segments profiled (p ∷ ps) =
    iff_trans
      (append_iff (needs_iff _ (undeclared_segment p.segment)) (
        append_iff (report_iff _ (repeated_profile p.segment)) (
          append_iff (states_none_iff p.termination_action (no_termination_action p.segment))
            (profiles_iff segments (p.segment ∷ profiled) ps))))
      (
        λ (known, (new, (ends, (all, fresh)))). (((known, ends), all), (new, fresh)),
        λ (((known, ends), all), (new, fresh)). (known, (new, (ends, (all, fresh)))),
      )
