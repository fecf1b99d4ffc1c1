-- ===== src/Requirements/Forms/Accepted.antt =====
-- What the forms of apps/requirements/forms.py accept.
use risk_management.Common.{
  left_of_and_not, right_of_and_not, ℕ, ◌≡◌, ◌≤◌, refl, sym, ◌∙◌, ap, Bool, true, false, not, ◌&&◌,
  Option, none, some, List, [], ◌∷◌, ◌++◌, String, arith, ltb, ◌==◌, inl, inr, ◌⊎◌, Bool-cases,
  some_inj, no_value, past_guard, unguarded, any-Elem, Elem, find, find-Elem, Elem-select, ==_iff,
  is_blank, strip, text_length, right_stripped, left_stripped, is_space, all,
}
use Prim.Native.Char.{code}
use text.Mathlib.Text.{◌==◌ as same_text}
use text.Mathlib.TextEquality.{eq_iff}
use risk_management.Calendar.{Date, before}
use risk_management.Requirements.Records.{
  CrcResult, is_cleared, NotClearOutcome, pending, fingerprint_submitted, withdrew,
  DisqualifyingConviction, Decision,
}
use risk_management.Requirements.Decisions.{ConvictionEntry, DecisionForm}
use risk_management.Requirements.Forms.{
  substantive_reason, clean_reason, clean_past_date, both, CompleteFields, complete_form,
  ReasonFields, waive_form, reversal_form, CheckFields, with_sector, crc_form, automatic_categories,
  discretionary_choices, is_among, ConvictionFields, conviction_form, outcome_form, OverrideFields,
  discretionary_of, key_of_conviction, clean_conviction, as_decision, override_form,
}

-- What a text says: so many characters at least, and not only spaces.
pub record Says (minimum : ℕ) (r : String) : Type 0 where
  pub long_enough : minimum ≤ text_length r
  pub not_blank : is_blank r ≡ false

right_stripped-is_blank : (s : String) → is_blank (right_stripped s) ≡ is_blank s
right_stripped-is_blank String.[] = refl
right_stripped-is_blank (String.◌∷◌ c s) = elim (Bool-cases (is_space (code c) && is_blank s)) [
  | inl e ↦ rw e refl
  | inr e ↦ rw e (ap (λ b. is_space (code c) && b) (right_stripped-is_blank s) ∙ e)
]

right_stripped_left : (s : String) → 1 ≤ text_length (right_stripped s) → is_blank s ≡ false
right_stripped_left String.[] h = absurd (omega (arith, h))
right_stripped_left (String.◌∷◌ c s) h = elim (Bool-cases (is_space (code c) && is_blank s)) [
  | inl e ↦ absurd (omega (arith, rw e at h))
  | inr e ↦ e
]

both-some :
    {A B : Type 0} (o : Option A) (p : Option B) (a : A) (b : B)
    → both o p ≡ some (a, b)
    → (o ≡ some a) × (p ≡ some b)
both-some none p a b h = absurd (no_value h)
both-some (some x) none a b h = absurd (no_value h)
both-some (some x) (some y) a b h =
    let e = some_inj h in (ap (λ q. some q.0) e, ap (λ q. some q.1) e)

substantive_reason-Says :
    (value : String) (minimum : ℕ) (r : String)
    → 1 ≤ minimum
    → substantive_reason value minimum ≡ some r
    → Says minimum r
unfolding substantive_reason
substantive_reason-Says value minimum r positive h =
    let (long, same) = unguarded (ltb (text_length (strip value)) minimum) (strip value) h in
    let enough : minimum ≤ text_length (strip value) = ground (arith, long) in
    rw (← same) (record {
      long_enough = enough;
      not_blank =
          right_stripped-is_blank (left_stripped value)
          ∙ right_stripped_left (left_stripped value) (omega (arith, enough, positive));
    })

clean_reason-Says :
    (minimum : ℕ) (value : Option String) (r : String)
    → 1 ≤ minimum
    → clean_reason minimum value ≡ some r
    → Says minimum r
unfolding clean_reason
clean_reason-Says minimum none r positive h = absurd (no_value h)
clean_reason-Says minimum (some value) r positive h =
    substantive_reason-Says value minimum r positive h

clean_past_date-past :
    (today : Date) (value : Option Date) (on : Date)
    → clean_past_date today value ≡ some on
    → before today on ≡ false
unfolding clean_past_date
clean_past_date-past today none on h = absurd (no_value h)
clean_past_date-past today (some d) on h =
    let (past, same) = unguarded (before today d) d h in rw (← same) past

pub complete_form-past :
    (today : Date) (f : CompleteFields) (on : Date) (notes : String)
    → complete_form today f ≡ some (on, notes)
    → before today on ≡ false
unfolding complete_form
complete_form-past today f on notes h =
    clean_past_date-past today f.completed_on on (both-some _ _ on notes h).0

pub waive_form-Says :
    (f : ReasonFields) (reason by : String) → waive_form f ≡ some (reason, by) → Says 10 reason
unfolding waive_form
waive_form-Says f reason by h =
    clean_reason-Says 10 f.reason reason (omega arith) (both-some _ _ reason by h).0

pub reversal_form-Says :
    (f : ReasonFields) (reason by : String) → reversal_form f ≡ some (reason, by) → Says 10 reason
unfolding reversal_form
reversal_form-Says f reason by h =
    clean_reason-Says 10 f.reason reason (omega arith) (both-some _ _ reason by h).0

with_sector-some :
    (sector : Bool) (o : Option (CrcResult × Date)) (result : CrcResult) (on : Date)
    → with_sector sector o ≡ some (result, on)
    → (o ≡ some (result, on)) × ((is_cleared result && not sector) ≡ false)
with_sector-some sector none result on h = absurd (no_value h)
with_sector-some sector (some (r, d)) result on h =
    let (kept, same) = unguarded (is_cleared r && not sector) (r, d) h in
    (ap some same, ap (λ (q : CrcResult × Date). is_cleared q.0 && not sector) (sym same) ∙ kept)

-- A check that the form accepts is of today or before, and a Cleared one has its sector search.
pub crc_form-accepts :
    (today : Date) (f : CheckFields) (result : CrcResult) (on : Date)
    → crc_form today f ≡ some (result, on)
    → (before today on ≡ false) × ((is_cleared result && not f.includes_vulnerable_sector) ≡ false)
unfolding crc_form
crc_form-accepts today f result on h =
    let (fields, sector) = with_sector-some f.includes_vulnerable_sector _ result on h in
    (clean_past_date-past today f.report_date on (both-some _ _ result on fields).1, sector)

all-Elem : {A : Type 0} (p : A → Bool) (l : List A) (x : A) → all p l ≡ true → Elem x l → p x ≡ true
all-Elem p [] x h m = absurd m
all-Elem p (y ∷ l) x h (inl e) = rw e (ground (arith, h))
all-Elem p (y ∷ l) x h (inr m) = all-Elem p l x (ground (arith, h)) m

of_not : (b : Bool) → not b ≡ false → b ≡ true
of_not true h = refl
of_not false h = cc

is_among-Elem : (l : List String) (s : String) → is_among l s ≡ true → Elem s l
is_among-Elem l s h =
    let (x, m, e) = any-Elem (same_text s) l h in let same : s ≡ x = (eq_iff s x).0 e in rw same m

categories_not_blank :
    all (λ c. not (is_blank c)) (automatic_categories ++ discretionary_choices) ≡ true
categories_not_blank = refl

not_named : (s : String) → not (is_blank s) ≡ true → is_blank s ≡ false
not_named s h = elim (Bool-cases (is_blank s)) [ inl e ↦ cc | inr e ↦ e ]

-- An entry that the form accepts names one of the policy's categories, and is automatic exactly if
-- the policy says so of that category.
pub record OfPolicy (e : ConvictionEntry) : Type 0 where
  pub listed : Elem e.category (automatic_categories ++ discretionary_choices)
  pub automatic : e.is_automatic_disqualifier ≡ is_among automatic_categories e.category
  pub named : is_blank e.category ≡ false

pub conviction_form-OfPolicy :
    (f : ConvictionFields) (e : ConvictionEntry) → conviction_form f ≡ some e → OfPolicy e
unfolding conviction_form
conviction_form-OfPolicy f e h =
    let (known, h1) =
      past_guard (not (is_among (automatic_categories ++ discretionary_choices) f.category)) _ h in
    let (ack, same) =
      unguarded (is_among automatic_categories f.category && not f.acknowledge_permanent) _ h1 in
    let m =
      is_among-Elem (automatic_categories ++ discretionary_choices) f.category (of_not _ known) in
    rw (← same) (record {
      listed = m;
      automatic = refl;
      named = not_named f.category (
          all-Elem (λ c. not (is_blank c)) (automatic_categories ++ discretionary_choices)
            f.category categories_not_blank m);
    })

pub outcome_form-settles :
    (o : Option NotClearOutcome) (outcome : NotClearOutcome)
    → outcome_form o ≡ some outcome
    → (outcome ≡ fingerprint_submitted) ⊎ (outcome ≡ withdrew)
unfolding outcome_form
outcome_form-settles none outcome h = absurd (no_value h)
outcome_form-settles (some pending) outcome h = absurd (no_value h)
outcome_form-settles (some fingerprint_submitted) outcome h = inl (sym (some_inj h))
outcome_form-settles (some withdrew) outcome h = inr (sym (some_inj h))

-- What a decision is about: the whole check, or a conviction of that check which is not automatic.
abbrev pub About : ℕ → List DisqualifyingConviction → Option ℕ → Type 0
About check rows none = Unit {0}
About check rows (some k) =
    (c : DisqualifyingConviction) × Elem c rows
    × (c.pk ≡ k)
    × (c.crc_record ≡ check)
    × (c.is_automatic_disqualifier ≡ false)

-- What a decision says, with the words it needs.
pub record Weighed (check : ℕ) (rows : List DisqualifyingConviction) (k : Option ℕ)
    (f : DecisionForm) : Type 0 where
  pub about : About check rows k
  pub reasoning : Says 20 f.reasoning
  pub mitigation : Says 20 f.mitigation_steps

key_of_conviction-About :
    (check : ℕ) (rows : List DisqualifyingConviction) (k : ℕ) (o : Option DisqualifyingConviction)
    (conviction : Option ℕ)
    → find (λ c. c.pk == k) (discretionary_of check rows) ≡ o
    → key_of_conviction o ≡ some conviction
    → About check rows conviction
key_of_conviction-About check rows k none conviction found h = absurd (no_value h)
key_of_conviction-About check rows k (some c) conviction found h =
    let (m, same) = find-Elem _ (discretionary_of check rows) c found in
    let (row, kept) = (Elem-select c _ rows).0 m in
    rw (← some_inj h) (
      c,
      row,
      refl,
      (==_iff c.crc_record check).0 (left_of_and_not _ _ kept),
      right_of_and_not _ _ kept,
    )

clean_conviction-About :
    (check : ℕ) (rows : List DisqualifyingConviction) (raw conviction : Option ℕ)
    → clean_conviction check rows raw ≡ some conviction
    → About check rows conviction
unfolding clean_conviction
clean_conviction-About check rows none conviction h = rw (← some_inj h) tt
clean_conviction-About check rows (some k) conviction h =
    key_of_conviction-About check rows k _ conviction refl h

as_decision-some :
    (o : Option (Option ℕ × ((Decision × Date) × (String × (String × String)))))
    (conviction : Option ℕ) (f : DecisionForm)
    → as_decision o ≡ some (conviction, f)
    → o
      ≡ some (
        conviction,
        ((f.decision, f.decided_on), (f.decided_by, (f.reasoning, f.mitigation_steps))),
      )
as_decision-some none conviction f h = absurd (no_value h)
as_decision-some (some said) conviction f h =
    let e = some_inj h in
    ap
      (λ (q : Option ℕ × DecisionForm). some (
        q.0,
        ((q.1.decision, q.1.decided_on), (q.1.decided_by, (q.1.reasoning, q.1.mitigation_steps))),
      ))
      e

pub override_form-Weighed :
    (check : ℕ) (rows : List DisqualifyingConviction) (raw : OverrideFields) (conviction : Option ℕ)
    (f : DecisionForm)
    → override_form check rows raw ≡ some (conviction, f)
    → Weighed check rows conviction f
unfolding override_form
override_form-Weighed check rows raw conviction f h =
    let (about, said) = both-some _ _ conviction _ (as_decision-some _ conviction f h) in
    let texts =
      (both-some _ _ f.decided_by _ (both-some _ _ (f.decision, f.decided_on) _ said).1).1 in
    let (reasoning, mitigation) = both-some _ _ f.reasoning f.mitigation_steps texts in
    record {
      about = clean_conviction-About check rows raw.conviction conviction about;
      reasoning = clean_reason-Says 20 raw.reasoning f.reasoning (omega arith) reasoning;
      mitigation =
          clean_reason-Says 20 raw.mitigation_steps f.mitigation_steps (omega arith) mitigation;
    }
