-- ===== src/Views.antt =====
-- The views of apps/requirements/views.py and apps/org/views.py that change a volunteer's file,
-- from the request to the saved state: the decorators `requires`, `require_http_methods` and
-- `require_POST`, the scoped lookups, the guards, the form, and the service in its transaction.
-- An error is a page or a message and nothing else. The fields of a form are those of Requirements/Forms.
pub mod Screening
pub mod Checks
pub mod Serve
pub mod Entitled
pub mod Refined
pub mod Bars
use risk_management.Common.{
  ℕ, Bool, true, false, not, Option, some, List, ◌∷◌, [], ◌==◌, if◌then◌else◌, find,
}
use risk_management.Access.{User, Capability, requires, scope_department_ids}
use risk_management.Access.Self.{may_record_against}
use risk_management.Access.Scope.{scoped_rows, ever_in_departments}
use risk_management.Requirements.Definition.{RequirementDefinition, definition_at}
use risk_management.Requirements.Instance.{RequirementInstance}
use risk_management.Requirements.Records.{CrcRecord}
use risk_management.Requirements.Progress.{refused}
use risk_management.Requirements.Commit.{commit}
use risk_management.Tenant.{
  Tenant, Env, Result, ok, raised, ◌>>=◌, ◌>>◌, refuse_if, or_raise, no_such_row,
  capability_missing, method_not_allowed, instance_at,
}

pub data Method : Type 0 where
  get post other : Method

-- What a request leads to without an error: a page with nothing saved, or a saved state.
pub data Page : Type 0 where
  shown : Page
  saved : Tenant → Page

-- `@requires(capability)` for a signed-in user
unfoldable pub entered : Env → User → Capability → Result (Unit {0})
unfolding requires
entered env u c =
    refuse_if (not (requires env.directory (some u) false (c ∷ []))) capability_missing

-- `@require_http_methods(["GET", "POST"])`
unfoldable pub get_or_post : Method → Result (Unit {0})
get_or_post get = ok tt
get_or_post post = ok tt
get_or_post other = raised method_not_allowed

-- `@require_POST`
unfoldable pub post_only : Method → Result (Unit {0})
post_only post = ok tt
post_only get = raised method_not_allowed
post_only other = raised method_not_allowed

-- The end of an atomic service that the view calls.
unfoldable pub committed : Env → Result Tenant → Result Page
unfolding commit
committed env m = do t ← m; ok (saved (commit env t))

-- `if request.method == "POST" and form.is_valid():`, and the page otherwise.
unfoldable pub when_posted : Method → Result Page → Result Page
when_posted post m = m
when_posted get m = ok shown
when_posted other m = ok shown

-- Rows of this volunteer's file, as `scope_instances` and `scope_crc_records` leave them.
unfoldable pub rows_in_scope : {A : Type 0} → Env → User → Tenant → List A → List A
unfolding ever_in_departments
rows_in_scope env u t rows =
    scoped_rows (scope_department_ids env.directory (some u))
      (λ ids r. ever_in_departments ids (t.volunteer, t.assignments)) rows

-- `_instance_or_404`, with the instance's definition
unfoldable pub instance_or_404 :
    Env → User → ℕ → Tenant → Result (RequirementInstance × RequirementDefinition)
unfolding rows_in_scope
instance_or_404 env u k t = do
  i ← or_raise no_such_row (instance_at k (rows_in_scope env u t t.instances))
  d ← or_raise no_such_row (definition_at t.definitions i.definition_id)
  ok (i, d)

-- `_writable_instance_or_404`
unfoldable pub writable_instance_or_404 :
    Env → User → ℕ → Tenant → Result (RequirementInstance × RequirementDefinition)
unfolding instance_or_404 may_record_against
writable_instance_or_404 env u k t = do
  p ← instance_or_404 env u k t
  refused (may_record_against env.directory u t.volunteer)
  ok p

-- `_crc_or_404`
unfoldable pub crc_or_404 : Env → User → ℕ → Tenant → Result CrcRecord
unfolding rows_in_scope
crc_or_404 env u k t =
    or_raise no_such_row (find (λ (r : CrcRecord). r.pk == k) (rows_in_scope env u t t.crc_records))

-- `_writable_crc_or_404`
unfoldable pub writable_crc_or_404 : Env → User → ℕ → Tenant → Result CrcRecord
unfolding crc_or_404 may_record_against
writable_crc_or_404 env u k t = do
  r ← crc_or_404 env u k t
  refused (may_record_against env.directory u t.volunteer)
  ok r
