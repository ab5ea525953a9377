-- ===== src/Reactor/Router.antt =====
-- src/axiam_sdk/amqp/_reactor_router.py: one handler per event, composed into one. An event is
-- anything with a name, a handler a function of it, and `abstain` the answer of an unbound event.
pub mod Routes
use axiam_python_sdk.Base.{
  String, ◌==◌, Bool, true, false, not, Option, none, some, List, [], ◌∷◌, ◌++◌, if◌then◌else◌,
  is_some,
}
use axiam_python_sdk.Dict.{Dict, lookup, put}
use axiam_python_sdk.Reactor.{event_spec}

pub data BindError : Type 0 where
  empty_name not_callable not_hookable already_bound nothing_bound : BindError

-- What _check_bindable finds; a handler that is not callable is none.
unfoldable pub check_bindable : {H : Type 0} → String → Option H → Dict H → Option BindError
check_bindable event handler bound =
    if event == ""
    then some empty_name
    else if not (is_some handler)
    then some not_callable
    else if not (is_some (event_spec event))
    then some not_hookable
    else if is_some (lookup event bound)
    then some already_bound
    else none

-- A router after a call, and the error that the call raised.
abbrev pub Bound : Type 0 → Type 0
Bound H = Dict H × Option BindError

module _ {H : Type 0} where
  abbrev put_handler : String → Option H → Dict H → Dict H
  put_handler event none table = table
  put_handler event (some handler) table = put event handler table

  abbrev bind_checked : String → Option H → Dict H → Option BindError → Bound H
  bind_checked event handler table (some e) = (table, some e)
  bind_checked event handler table none = (put_handler event handler table, none)

  -- bind
  unfoldable pub bind : String → Option H → Dict H → Bound H
  bind event handler table = bind_checked event handler table (check_bindable event handler table)

  -- what follows a binding, unless it raised
  abbrev and_then : (Dict H → Bound H) → Bound H → Bound H
  and_then rest (table, some e) = (table, some e)
  and_then rest (table, none) = rest table

  -- the loop of reactor_handlers over a mapping's items, and the one of include over the members of
  -- a source that carry the event of `on_reactor_event`: the first error ends it
  unfoldable pub bind_all : List (String × Option H) → Dict H → Bound H
  bind_all [] table = (table, none)
  bind_all ((event, handler) ∷ items) table = and_then (bind_all items) (bind event handler table)

  -- include: a member without an event is passed over
  unfoldable pub include : List (Option String × Option H) → Dict H → Bound H
  include [] table = (table, none)
  include ((none, member) ∷ members) table = include members table
  include ((some event, member) ∷ members) table =
      and_then (include members) (bind event member table)

module _ {E D : Type 0} (name_of : E → String) (abstain : D) where
  -- dispatch
  abbrev pub call : E → Option (E → D) → D
  call e none = abstain
  call e (some handler) = handler e

  unfoldable pub dispatch : Dict (E → D) → E → D
  dispatch bound e = call e (lookup (name_of e) bound)

  -- handler
  unfoldable pub handler : Dict (E → D) → Option (E → D)
  handler [] = none
  handler (row ∷ rows) = some (dispatch (row ∷ rows))

  -- reactor_handlers, for a mapping
  abbrev compose_bound : Bound (E → D) → Option (E → D)
  compose_bound (table, some e) = none
  compose_bound (table, none) = handler table

  unfoldable pub reactor_handlers : List (String × Option (E → D)) → Option (E → D)
  reactor_handlers items = compose_bound (bind_all items [])
