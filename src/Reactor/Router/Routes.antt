-- ===== src/Reactor/Router/Routes.antt =====
-- Where the composed handler of src/axiam_sdk/amqp/_reactor_router.py sends an event.
use axiam_python_sdk.Base.{
  String, ◌==◌, ◌≡◌, refl, sym, ap, ◌∙◌, ◌↔◌, inl, inr, true, false, Option, none, some, List, [],
  ◌∷◌, arith, if◌then◌else◌, is_some, eq_iff, Option-cases,
}
use axiam_python_sdk.Dict.{Dict, lookup}
use axiam_python_sdk.Dict.Laws.{lookup-put}
use axiam_python_sdk.Reactor.{event_spec, find_spec, event_registry}
use axiam_python_sdk.Reactor.Router.{
  Bound, check_bindable, bind, bind_all, and_then, call, dispatch, handler, reactor_handlers,
  put_handler,
}

-- A binding that is allowed: a registered event, a handler, and no handler bound before.
abbrev pub Bindable : {H : Type 0} → String → Option H → Dict H → Type 0
Bindable event handler table =
    (is_some (event_spec event) ≡ true) × (is_some handler ≡ true) × (lookup event table ≡ none)

empty_unregistered : is_some (event_spec "") ≡ false
unfolding event_spec find_spec event_registry
empty_unregistered = refl

no_empty : (event : String) → is_some (event_spec event) ≡ true → (event == "") ≡ false
no_empty event h = ground (arith, eq_iff event "", empty_unregistered)

module _ {H : Type 0} where
  bind-Bindable :
      (event : String) (h : Option H) (table : Dict H)
      → (bind event h table).1 ≡ none
      → Bindable event h table
  unfolding bind check_bindable
  bind-Bindable event h table e = ground arith

  Bindable-bind :
      (event : String) (h : Option H) (table : Dict H)
      → Bindable event h table
      → (bind event h table).1 ≡ none
  unfolding bind check_bindable
  Bindable-bind event h table (registered, callable, free) =
      ground (arith, no_empty event registered)

  -- A handler is bound without an error exactly when the event is in the registry, the handler is
  -- callable, and the event has no handler yet.
  pub bind_iff :
      (event : String) (h : Option H) (table : Dict H)
      → ((bind event h table).1 ≡ none) ↔ Bindable event h table
  bind_iff event h table = (bind-Bindable event h table, Bindable-bind event h table)

  bind_table :
      (event : String) (h : Option H) (table : Dict H)
      → (bind event h table).1 ≡ none
      → bind event h table ≡ (put_handler event h table, none)
  unfolding bind
  bind_table event h table e = ground arith

  -- The handler of the first binding of a name.
  abbrev pub first : String → List (String × Option H) → Option H
  first k [] = none
  first k ((event, h) ∷ items) = let rest = first k items in if event == k then h else rest

  abbrev or_else : Option H → Option H → Option H
  or_else none o = o
  or_else (some h) o = some h

  and_then_ok :
      (rest : Dict H → Bound H) (b : Bound H)
      → (and_then rest b).1 ≡ none
      → (b.1 ≡ none) × (and_then rest b ≡ rest b.0)
  and_then_ok rest (table, none) e = (refl, refl)
  and_then_ok rest (table, some f) e = absurd (ground (arith, e))

  lookup-put_handler :
      (event k : String) (h : Option H) (table : Dict H)
      → Bindable event h table
      → (o : Option H)
      → or_else (lookup k (put_handler event h table)) o
        ≡ or_else (lookup k table) (if event == k then h else o)
  lookup-put_handler event k none table b o = absurd (ground arith)
  lookup-put_handler event k (some f) table (_, _, free) o =
      ground (arith, lookup-put event k f table, eq_iff event k)

  lookup-bind_all :
      (items : List (String × Option H)) (table : Dict H) (k : String)
      → (bind_all items table).1 ≡ none
      → lookup k (bind_all items table).0 ≡ or_else (lookup k table) (first k items)
  unfolding bind_all
  lookup-bind_all [] table k e = ground arith
  lookup-bind_all ((event, h) ∷ items) table k e =
      let (good, next) = and_then_ok (bind_all items) (bind event h table) e in
      let whole = next ∙ ap (λ b. bind_all items b.0) (bind_table event h table good) in
      ap (λ b. lookup k b.0) whole
      ∙ (lookup-bind_all items (put_handler event h table) k (sym (ap (λ b. b.1) whole) ∙ e)
          ∙ lookup-put_handler event k h table (bind-Bindable event h table good) (first k items))

module _ {E D : Type 0} (name_of : E → String) (abstain : D) where
  handler-dispatch :
      (table : Dict (E → D)) (f : E → D)
      → handler name_of abstain table ≡ some f
      → f ≡ dispatch name_of abstain table
  unfolding handler
  handler-dispatch [] f e = absurd (ground (arith, e))
  handler-dispatch (row ∷ rows) f e = ground (arith, e)

  -- When a mapping's handlers compose into one, an event goes to the handler that the mapping binds
  -- to its name, and an event without one is abstained from.
  pub reactor_handlers-call :
      (items : List (String × Option (E → D))) (f : E → D) (e : E)
      → reactor_handlers name_of abstain items ≡ some f
      → f e ≡ call name_of abstain e (first (name_of e) items)
  unfolding reactor_handlers dispatch lookup
  reactor_handlers-call items f e h = elim (Option-cases (bind_all items []).1) [
    | inr (bad, raised) ↦ absurd (ground (arith, raised))
    | inl fine ↦
        let composed = handler-dispatch (bind_all items []).0 f (ground (arith, fine)) in
        ap (λ g. g e) composed
        ∙ ap (call name_of abstain e) (lookup-bind_all items [] (name_of e) fine)
  ]
