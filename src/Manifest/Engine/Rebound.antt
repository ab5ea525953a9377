-- ===== src/Manifest/Engine/Rebound.antt =====
-- What a subject holds after _rebind_role, against what the step reports.
use axiam_python_sdk.Base.{String, ◌≡◌, refl, ◌∙◌, Option, none, some}
use axiam_python_sdk.Manifest.Plan.{SubjectKind, Raised}
use axiam_python_sdk.Manifest.Engine.{
  Resolved, Assignment, Previous, AssignRequest, Request, assign, unassign, Created, Reply,
  accepted, refused, Server, Ran, done, raised, rebind_failed, Run,
}
use axiam_python_sdk.Manifest.Engine.Running.{
  after_restore, after_assign, after_unassign, stated_body, previous_body, rebind,
}

module _ {S : Type 0} (held : S → Option AssignRequest) where
  -- A write that is accepted leaves `new`, and one that is refused changes nothing.
  abbrev pub Leaves : Option AssignRequest → S → S × Reply Created → Type 0
  Leaves new s (after, accepted c) = held after ≡ new
  Leaves new s (after, refused e) = held after ≡ held s

-- What the end of a rebind says that the subject holds: the stated binding, what it held before
-- where nothing was written, the previous one where that was restored, else none.
abbrev pub Says : AssignRequest → AssignRequest → Option AssignRequest → Ran → Type 0
Says stated previous holds (done secret) = holds ≡ some stated
Says stated previous holds (raised e) = holds ≡ some previous
Says stated previous holds (rebind_failed e none) = holds ≡ some previous
Says stated previous holds (rebind_failed e (some again)) = holds ≡ none

module _ {S : Type 0} (held : S → Option AssignRequest) (stated previous : AssignRequest) where
  abbrev Told : Run S → Type 0
  Told result = Says stated previous (held result.server) result.ended

  restore-Told :
      (r : Resolved) (e : Raised) (s : S) (answer : S × Reply Created)
      → held s ≡ none
      → Leaves held (some previous) s answer
      → Told (after_restore r e answer)
  restore-Told r e s (after, accepted c) lost back = back
  restore-Told r e s (after, refused again) lost same = same ∙ lost

  assign-Told :
      (server : Server S) (r : Resolved) (restore : Request) (s : S) (answer : S × Reply Created)
      → ((s : S) → Leaves held (some previous) s (server restore s))
      → held s ≡ none
      → Leaves held (some stated) s answer
      → Told (after_assign server r restore answer)
  assign-Told server r restore s (after, accepted c) restores lost new = new
  assign-Told server r restore s (after, refused e) restores lost same =
      restore-Told r e after (server restore after) (same ∙ lost) (restores after)

  unassign-Told :
      (server : Server S) (r : Resolved) (next restore : Request) (s : S)
      (answer : S × Reply Created)
      → ((s : S) → Leaves held (some stated) s (server next s))
      → ((s : S) → Leaves held (some previous) s (server restore s))
      → held s ≡ some previous
      → Leaves held none s answer
      → Told (after_unassign server r next restore answer)
  unassign-Told server r next restore s (after, accepted c) assigns restores before lost =
      assign-Told server r restore after (server next after) restores lost (assigns after)
  unassign-Told server r next restore s (after, refused e) assigns restores before same =
      same ∙ before

module _ {S : Type 0} (server : Server S) (kind : SubjectKind) (role_id subject_id : String)
    (held : S → Option AssignRequest)
    (assigns : (body : AssignRequest) (s : S)
      → body.subject_id ≡ subject_id
      → Leaves held (some body) s (server (assign kind role_id body) s))
    (unassigns : (resource_id : Option String) (s : S)
      → Leaves held none s (server (unassign kind role_id subject_id resource_id) s)) where
  -- Where the server holds one binding of a role to a subject, which an accepted assignment sets, an
  -- accepted removal clears and a refused call leaves, the end of _rebind_role tells what the
  -- subject holds: on success the stated binding with the previous tenant scope, the previous one
  -- where the removal was refused or the restore succeeded, and none where the restore failed too.
  pub rebind-Says :
      (r : Resolved) (s : S) (resource_id : Option String) (a : Assignment) (p : Previous)
      → held s ≡ some (previous_body subject_id p)
      → Says
          (stated_body subject_id resource_id a p.tenant_scope)
          (previous_body subject_id p)
          (held (rebind server kind r s role_id subject_id resource_id a p).server)
          (rebind server kind r s role_id subject_id resource_id a p).ended
  unfolding rebind
  rebind-Says r s resource_id a p before =
      unassign-Told held _ _ server r _ _ s _ (λ s. assigns _ s refl) (λ s. assigns _ s refl) before
        (unassigns p.resource_id s)
