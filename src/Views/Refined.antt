-- ===== src/Views/Refined.antt =====
-- What a view that saves does to the file, as one operation of Placement/Operation.
use risk_management.Common.{
  ℕ, ◌≡◌, refl, ◌∙◌, ◌⊎◌, Bool, true, false, not, ◌&&◌, Option, none, List, [], ◌∷◌,
}
use risk_management.Calendar.{Date, before}
use risk_management.Access.{User, Capability}
use risk_management.Requirements.Records.{
  is_cleared, NotClearOutcome, fingerprint_submitted, withdrew,
}
use risk_management.Requirements.Decisions.{ConvictionEntry}
use risk_management.Requirements.Forms.{
  CompleteFields, ReasonFields, CheckFields, ConvictionFields, OverrideFields,
}
use risk_management.Requirements.Forms.Accepted.{
  Says, OfPolicy, Weighed, complete_form-past, waive_form-Says, reversal_form-Says,
  crc_form-accepts, conviction_form-OfPolicy, outcome_form-settles, override_form-Weighed,
}
use risk_management.Requirements.Commit.{commit}
use risk_management.Tenant.{Tenant, Env, Result, ok, ◌>>=◌}
use risk_management.Tenant.Outcome.{Returns, ok-Returns, Returns-bind, Returns-step, Returns-then}
use risk_management.Placement.Operation.{
  Operation, completing, starting, waiving, reversing, checking, convicting, deciding, resolving,
  placing, ending, leaving, reactivating, reconciling, affirming, sending_back, run, perform,
}
use risk_management.Views.{Method, get, post, other, Page, shown, saved, committed, when_posted}
use risk_management.Views.Screening.{
  instance_complete, instance_start, instance_waive, instance_reverse_waiver,
}
use risk_management.Views.Checks.{
  crc_record_create, crc_conviction_add, crc_override, crc_resolve_not_clear,
}
use risk_management.Views.Serve.{
  Request, complete_instance, start_instance, waive_instance, reverse_waiver_of, create_crc_record,
  add_conviction, decide_override, resolve_crc, create_assignment, end_assignment_of,
  deactivate_volunteer, reactivate_volunteer, resync_volunteer, posting, leaving_page, serve,
}
use risk_management.Views.Entitled.{or_raise-ok}

-- One conviction, of a category of the policy.
abbrev pub OneOfPolicy : List ConvictionEntry → Type 0
OneOfPolicy [] = ⊥
OneOfPolicy (e ∷ []) = OfPolicy e
OneOfPolicy (e ∷ d ∷ more) = ⊥

-- What the forms have made sure of before an operation, and that it is the user's own.
abbrev pub Proper : Env → User → Tenant → Operation → Type 0
Proper env u t (completing k on notes review) = (before env.today on ≡ false) × (review ≡ true)
Proper env u t (starting k) = Unit {0}
Proper env u t (waiving k reason by) = Says 10 reason
Proper env u t (reversing k reason due) = Says 10 reason × (due ≡ none)
Proper env u t (checking result on sector fingerprint) =
    (before env.today on ≡ false) × ((is_cleared result && not sector) ≡ false)
Proper env u t (convicting check entries) = OneOfPolicy entries
Proper env u t (deciding check conviction form) = Weighed check t.convictions conviction form
Proper env u t (resolving check outcome) = (outcome ≡ fingerprint_submitted) ⊎ (outcome ≡ withdrew)
Proper env u t (placing by roles role on) = by ≡ u
Proper env u t (ending by k on) = by ≡ u
Proper env u t (leaving by on ends) = by ≡ u
Proper env u t (reactivating by) = by ≡ u
Proper env u t (reconciling by) = by ≡ u
Proper env u t (affirming by k) = ⊥
Proper env u t (sending_back by k reason) = ⊥

module _ (env : Env) (u : User) (t : Tenant) where
  abbrev Refined : Page → Type 0
  Refined shown = Unit {0}
  Refined (saved w) = (op : Operation) × (perform env op t ≡ ok w) × Proper env u t op

  performed-commit :
      (op : Operation) (w : Tenant) → run env op t ≡ ok w → perform env op t ≡ ok (commit env w)
  unfolding perform ◌>>=◌
  performed-commit op w e = rw e refl

  performed :
      (op : Operation) (m : Result Tenant)
      → run env op t ≡ m
      → Proper env u t op
      → Returns Refined (committed env m)
  unfolding committed
  performed op m same proper =
      Returns-step Refined m _
        λ w e. ok-Returns Refined _ (op, performed-commit op w (same ∙ e), proper)

  posted :
      (method : Method) (m : Result Page)
      → Returns Refined m
      → Returns Refined (when_posted method m)
  unfolding when_posted
  posted get m h = ok-Returns Refined _ tt
  posted post m h = h
  posted other m h = ok-Returns Refined _ tt

  complete-Refined :
      (k : ℕ) (method : Method) (f : CompleteFields)
      → Returns Refined (instance_complete env u k method f t)
  unfolding instance_complete run
  complete-Refined k method f = Returns-then _ _ _ (
      Returns-then _ _ _ (
        Returns-bind _ _ _ λ p. Returns-then _ _ _ (
          posted method _ (
            Returns-step Refined _ _ λ q e.
              performed (completing k q.0 q.1 true) _ refl
                (complete_form-past env.today f q.0 q.1 (or_raise-ok _ _ q e), refl)))))

  start-Refined : (k : ℕ) (method : Method) → Returns Refined (instance_start env u k method t)
  unfolding instance_start run
  start-Refined k method =
      Returns-then _ _ _
        (Returns-then _ _ _ (Returns-bind _ _ _ λ p. performed (starting k) _ refl tt))

  waive-Refined :
      (k : ℕ) (method : Method) (f : ReasonFields)
      → Returns Refined (instance_waive env u k method f t)
  unfolding instance_waive run
  waive-Refined k method f = Returns-then _ _ _ (
      Returns-then _ _ _ (
        Returns-bind _ _ _ λ p. Returns-then _ _ _ (
          posted method _ (
            Returns-step Refined _ _ λ q e.
              performed (waiving k q.0 q.1) _ refl
                (waive_form-Says f q.0 q.1 (or_raise-ok _ _ q e))))))

  reverse-Refined :
      (k : ℕ) (method : Method) (f : ReasonFields)
      → Returns Refined (instance_reverse_waiver env u k method f t)
  unfolding instance_reverse_waiver run
  reverse-Refined k method f = Returns-then _ _ _ (
      Returns-then _ _ _ (
        Returns-bind _ _ _ λ p. Returns-then _ _ _ (
          posted method _ (
            Returns-step Refined _ _ λ q e.
              performed (reversing k q.0 none) _ refl
                (reversal_form-Says f q.0 q.1 (or_raise-ok _ _ q e), refl)))))

  check-Refined :
      (method : Method) (f : CheckFields) → Returns Refined (crc_record_create env u method f t)
  unfolding crc_record_create run
  check-Refined method f = Returns-then _ _ _ (
      Returns-then _ _ _ (
        Returns-then _ _ _ (
          Returns-then _ _ _ (
            posted method _ (
              Returns-step Refined _ _ λ q e.
                performed (checking q.0 q.1 f.includes_vulnerable_sector f.is_fingerprint_verified)
                  _ refl (crc_form-accepts env.today f q.0 q.1 (or_raise-ok _ _ q e)))))))

  convict-Refined :
      (k : ℕ) (method : Method) (f : ConvictionFields)
      → Returns Refined (crc_conviction_add env u k method f t)
  unfolding crc_conviction_add run
  convict-Refined k method f = Returns-then _ _ _ (
      Returns-then _ _ _ (
        Returns-bind _ _ _ λ r. Returns-then _ _ _ (
          posted method _ (
            Returns-step Refined _ _ λ x e.
              performed (convicting k (x ∷ [])) _ refl
                (conviction_form-OfPolicy f x (or_raise-ok _ _ x e))))))

  decide-Refined :
      (k : ℕ) (method : Method) (f : OverrideFields)
      → Returns Refined (crc_override env u k method f t)
  unfolding crc_override run
  decide-Refined k method f = Returns-then _ _ _ (
      Returns-then _ _ _ (
        Returns-bind _ _ _ λ r. Returns-then _ _ _ (
          Returns-then _ _ _ (
            posted method _ (
              Returns-step Refined _ _ λ q e.
                performed (deciding k q.0 q.1) _ refl
                  (override_form-Weighed k t.convictions f q.0 q.1 (or_raise-ok _ _ q e)))))))

  resolve-Refined :
      (k : ℕ) (method : Method) (o : Option NotClearOutcome)
      → Returns Refined (crc_resolve_not_clear env u k method o t)
  unfolding crc_resolve_not_clear run
  resolve-Refined k method o = Returns-then _ _ _ (
      Returns-then _ _ _ (
        Returns-bind _ _ _ λ r. Returns-then _ _ _ (
          posted method _ (
            Returns-step Refined _ _ λ x e.
              performed (resolving k x) _ refl (outcome_form-settles o x (or_raise-ok _ _ x e))))))

  posting-Refined :
      (op : Operation) (c : Capability) (method : Method) (m : Result Tenant)
      → run env op t ≡ m
      → Proper env u t op
      → Returns Refined (posting env u c method m)
  unfolding posting
  posting-Refined op c method m same proper =
      Returns-then _ _ _ (Returns-then _ _ _ (performed op m same proper))

  leaving_page-Refined :
      (method : Method) (on : Option Date) (ends : Bool)
      → Returns Refined (leaving_page env u method on ends t)
  unfolding leaving_page run
  leaving_page-Refined post on ends = performed (leaving u on ends) _ refl refl
  leaving_page-Refined get on ends =
      Returns-then _ _ _ (Returns-then _ _ _ (ok-Returns Refined shown tt))
  leaving_page-Refined other on ends = ok-Returns Refined shown tt

  serve-Refined : (method : Method) (r : Request) → Returns Refined (serve env u method r t)
  unfolding serve run
  serve-Refined method (complete_instance k f) = complete-Refined k method f
  serve-Refined method (start_instance k) = start-Refined k method
  serve-Refined method (waive_instance k f) = waive-Refined k method f
  serve-Refined method (reverse_waiver_of k f) = reverse-Refined k method f
  serve-Refined method (create_crc_record f) = check-Refined method f
  serve-Refined method (add_conviction k f) = convict-Refined k method f
  serve-Refined method (decide_override k f) = decide-Refined k method f
  serve-Refined method (resolve_crc k o) = resolve-Refined k method o
  serve-Refined method (create_assignment roles role on) =
      posting-Refined (placing u roles role on) _ method _ refl refl
  serve-Refined method (end_assignment_of k on) =
      posting-Refined (ending u k on) _ method _ refl refl
  serve-Refined method (deactivate_volunteer on ends) =
      Returns-then _ _ _ (Returns-then _ _ _ (leaving_page-Refined method on ends))
  serve-Refined method reactivate_volunteer = posting-Refined (reactivating u) _ method _ refl refl
  serve-Refined method resync_volunteer = posting-Refined (reconciling u) _ method _ refl refl

  -- What one of the thirteen routes of `serve` saves is what one operation on the file leaves,
  -- and the form has made sure of it: no completion or check of a later day, no Cleared check
  -- without the vulnerable sector search, a reason of ten characters at least that is not blank,
  -- a decision of twenty for its reasoning and its safeguards, about the check or one of its
  -- convictions that is not automatic, a conviction that is automatic exactly if the policy lists
  -- its category as such, and an outcome that settles the check. None of these routes decides an
  -- entry of the review queue, or acts as somebody else.
  pub serve-refines :
      (method : Method) (r : Request) (w : Tenant)
      → serve env u method r t ≡ ok (saved w)
      → (op : Operation) × (perform env op t ≡ ok w) × Proper env u t op
  serve-refines method r w e = (serve-Refined method r).at (saved w) e
