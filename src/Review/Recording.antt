-- ===== src/Review/Recording.antt =====
-- `open_if_unverified` of apps/review/recording.py: queueing an entry for affirmation, and
-- superseding the one that it replaces. The race that the savepoint there settles is between two
-- transactions; here each call runs alone. The department recorded for the queue is left out.
use risk_management.Common.{
  ℕ, ◌+◌, not, ◌&&◌, Option, none, some, List, [], ◌∷◌, ◌++◌, ◌==◌, if◌then◌else◌, find,
}
use risk_management.Audit.{needs_review, review_opened, review_superseded}
use risk_management.Review.{
  ReviewItem, ReviewKind, pending, superseded, Snapshot, Entity, is_open, same_entity,
}
use risk_management.Tenant.{Tenant, Env, Result, ok, raised, outside_church_schema, audit}

-- `item.save()`
unfoldable pub put_review : ReviewItem → List ReviewItem → List ReviewItem
put_review i [] = []
put_review i (x ∷ xs) = (if x.pk == i.pk then i else x) ∷ put_review i xs

-- `ReviewItem.objects.pending().filter(entity…).first()`
abbrev pub open_on : Entity → List ReviewItem → Option ReviewItem
open_on e items = find (λ i. is_open i.status && same_entity i.entity e) items

abbrev pub opened : Env → ℕ → ReviewKind → Entity → Option Entity → Snapshot → ReviewItem
opened env pk kind e affected before = record {
  pk = pk;
  kind = kind;
  entity = e;
  affected = affected;
  status = pending;
  recorded_by_user_id = env.actor.user_id;
  before_state = before;
  reviewed_at = none;
  reviewed_by_user_id = none;
  decision_reason = "";
  superseded_by = none;
}

-- `superseded.supersede()` with no `by`, and the replacement that is set after it.
abbrev pub supersede_item : Env → ℕ → ReviewItem → ReviewItem
supersede_item env replacement i = record i {
  status = superseded;
  reviewed_at = some env.now;
  reviewed_by_user_id = none;
  decision_reason = "";
  superseded_by = some replacement;
}

abbrev pub supersede_open : Env → ℕ → Option ReviewItem → List ReviewItem → List ReviewItem
supersede_open env pk none items = items
supersede_open env pk (some i) items = put_review (supersede_item env pk i) items

abbrev pub audit_superseded : Env → Entity → Option ReviewItem → Tenant → Tenant
audit_superseded env e none t = t
audit_superseded env e (some i) t = audit env review_superseded e t

unfoldable pub enqueue : Env → ReviewKind → Entity → Option Entity → Snapshot → Tenant → Tenant
unfolding put_review audit
enqueue env kind e affected before t =
    let earlier = open_on e t.reviews in
    let u = record t {
      reviews =
          supersede_open env t.next_pk earlier t.reviews
          ++ opened env t.next_pk kind e affected before ∷ [];
      next_pk = t.next_pk + 1;
    } in
    audit env review_opened e (audit_superseded env e earlier u)

unfoldable pub open_if_unverified :
    Env → ReviewKind → Entity → Option Entity → Snapshot → Tenant → Result Tenant
unfolding enqueue needs_review
open_if_unverified env kind e affected before t =
    if not (needs_review env.actor)
    then ok t
    else if env.directory.on_public_schema
    then raised outside_church_schema
    else ok (enqueue env kind e affected before t)
