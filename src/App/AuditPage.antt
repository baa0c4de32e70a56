-- ===== src/App/AuditPage.antt =====
-- internal/app/audit.go: the filters and the paging of `getAudit`.
use step_ui_ng.Base.{
  ℕ, List, String, Bool, Option, none, some, ok, err, if◌then◌else◌, ltb, take, length, suc, ◌+◌,
  not, ◌≡◌, drop, zero, ◌-◌, ◌==◌, arith, ◌∷◌, ◌*◌, Bool-cases, false, [], ◌<◌, inl, refl,
  string_eq, ap, ◌∙◌, sym, inr, true, ◌||◌, ◌&&◌, Option-cases, keep, subst,
}
use step_ui_ng.Audit.Log.{
  Event, list_events, Filter, LogEnv, Log, query_events, matches, newest_first,
}
use step_ui_ng.Base.Int.{leb_ℤ, ltb_ℤ, ℤ, negsuc, pos}
use step_ui_ng.App.Inventory.{page_number, wrap_int-small}
use step_ui_ng.Base.Number.{wrap_int, two_63}
use step_ui_ng.Audit.Paging.{matching}

abbrev pub audit_page_size : ℕ
audit_page_size = 50

-- The parameters of the query.
pub record AuditQuery : Type 0 where
  pub page_text : String
  pub action : String
  pub who : String
  pub from : String
  pub to : String

-- `auditFilterForm`
pub record AuditFilterForm : Type 0 where
  pub action : String
  pub who : String
  pub from : String
  pub to : String

-- `auditView`
pub record AuditView : Type 0 where
  pub events : List Event
  pub filter : AuditFilterForm
  pub has_more : Bool
  pub page : ℕ
  pub next_page : ℤ
  pub prev_page : ℤ

-- 24 hours less one second later, in seconds.
abbrev pub end_of_day : ℤ → ℤ
end_of_day (pos n) = pos (n + 86399)
end_of_day (negsuc n) = if ltb n 86399 then pos (86398 - n) else negsuc (n - 86399)

abbrev pub page_before : ℕ → ℤ
page_before zero = negsuc 0
page_before (suc n) = pos n

abbrev pub seconds_or_zero : Option ℤ → ℤ
seconds_or_zero none = pos 0
seconds_or_zero (some t) = t

abbrev pub or_nothing : {A : Type 0} → Option A → (A → A) → Option A
or_nothing none f = none
or_nothing (some t) f = some (f t)

-- The page of a list that may hold one event more than the page shows.
abbrev pub without_probe : {A : Type 0} → ℕ → List A → List A
without_probe size events = if ltb size (length events) then take size events else events

module _ (parse_date : String → Option ℤ) where
  -- The filter of a query; a date that does not parse sets no bound.
  abbrev pub filter_of : AuditQuery → Filter
  filter_of q =
      let page = page_number q.page_text in
      record {
        action = q.action;
        who = q.who;
        from = if not (q.from == "") then seconds_or_zero (parse_date q.from) else pos 0;
        to =
            if not (q.to == "")
            then seconds_or_zero (or_nothing (parse_date q.to) end_of_day)
            else pos 0;
        limit = pos (audit_page_size + 1);
        offset = wrap_int (page * audit_page_size);
      }

  abbrev pub audit_view : AuditQuery → List Event → AuditView
  audit_view q events =
      let page = page_number q.page_text in
      record {
        events = without_probe audit_page_size events;
        filter = record { action = q.action; who = q.who; from = q.from; to = q.to };
        has_more = ltb audit_page_size (length events);
        page = page;
        next_page = wrap_int (page + 1);
        prev_page = page_before page;
      }

  -- `getAudit`; `none` is the answer 500.
  unfoldable pub get_audit : LogEnv → AuditQuery → Option Log → Option AuditView
  get_audit env q log = elim (list_events env (filter_of q) log) [
    | err e ↦ none
    | ok events ↦ some (audit_view q events)
  ]

-- The event was not recorded before the day that the query names, if it names one.
abbrev not_before : (String → Option ℤ) → String → ℤ → Bool
not_before parse_date text at =
    if text == "" then true else elim (parse_date text) [ none ↦ true | some day ↦ leb_ℤ day at ]

-- The event was not recorded after the day that the query names, if it names one that does not end by
-- 1970.
abbrev not_after : (String → Option ℤ) → String → ℤ → Bool
not_after parse_date text at = if text == "" then true else elim (parse_date text) [
  | none ↦ true
  | some day ↦ leb_ℤ (end_of_day day) (pos 0) || leb_ℤ at (end_of_day day)
]

-- What the fields of the form ask of an event.
abbrev pub passes : (String → Option ℤ) → AuditQuery → Event → Bool
passes parse_date q e =
    (q.action == "" || e.action == q.action)
    && (q.who == "" || e.who == q.who)
    && not_before parse_date q.from (pos e.created_at)
    && not_after parse_date q.to (pos e.created_at)

lower_bound : (t : ℤ) (n : ℕ) → (not (ltb_ℤ (pos 0) t) || leb_ℤ t (pos n)) ≡ leb_ℤ t (pos n)
lower_bound (pos zero) n = ground arith
lower_bound (pos (suc k)) n = ground arith
lower_bound (negsuc k) n = ground arith

upper_bound :
    (t : ℤ) (n : ℕ)
    → (not (ltb_ℤ (pos 0) t) || leb_ℤ (pos n) t) ≡ (leb_ℤ t (pos 0) || leb_ℤ (pos n) t)
upper_bound (pos zero) n = ground arith
upper_bound (pos (suc k)) n = ground arith
upper_bound (negsuc k) n = ground arith

from_lem :
    (parse_date : String → Option ℤ) (q : AuditQuery) (n : ℕ)
    → let from = (filter_of parse_date q).from in
      (not (ltb_ℤ (pos 0) from) || leb_ℤ from (pos n)) ≡ not_before parse_date q.from (pos n)
from_lem parse_date q n = elim (Bool-cases (q.from == "")) [
  | inl x ↦ rw x (lower_bound (pos 0) n ∙ ground arith)
  | inr x ↦ elim (Option-cases (parse_date q.from)) [
    | inl y ↦ rw (x, y) (lower_bound (pos 0) n ∙ ground arith)
    | inr (day, y) ↦ rw (x, y) (lower_bound day n)
  ]
]

to_lem :
    (parse_date : String → Option ℤ) (q : AuditQuery) (n : ℕ)
    → let to = (filter_of parse_date q).to in
      (not (ltb_ℤ (pos 0) to) || leb_ℤ (pos n) to) ≡ not_after parse_date q.to (pos n)
to_lem parse_date q n = elim (Bool-cases (q.to == "")) [
  | inl x ↦ rw x (upper_bound (pos 0) n ∙ ground arith)
  | inr x ↦ elim (Option-cases (parse_date q.to)) [
    | inl y ↦ rw (x, y) (upper_bound (pos 0) n ∙ ground arith)
    | inr (day, y) ↦ rw (x, y) (upper_bound (end_of_day day) n)
  ]
]

matches-passes :
    (parse_date : String → Option ℤ) (q : AuditQuery) (e : Event)
    → matches (filter_of parse_date q) e ≡ passes parse_date q e
unfolding matches
matches-passes parse_date q e =
    rw (matches, from_lem parse_date q e.created_at, to_lem parse_date q e.created_at) refl

keep-eq {ℓ} :
    {A : Type ℓ} (p p' : A → Bool) → ((x : A) → p x ≡ p' x) → (xs : List A) → keep p xs ≡ keep p' xs
keep-eq p p' same [] = refl
keep-eq p p' same (x ∷ xs) = rw (same x, keep-eq p p' same xs) refl

ltb-suc : (a b : ℕ) → ltb (suc a) (suc b) ≡ ltb a b
ltb-suc a b = ground arith

without_probe_lem :
    {A : Type 0} (m : ℕ) (xs : List A) → without_probe m (take (suc m) xs) ≡ take m xs
without_probe_lem zero [] = refl
without_probe_lem zero (x ∷ xs) = refl
without_probe_lem (suc m) [] = let e : ltb (suc m) 0 ≡ false = ground arith in rw e
without_probe_lem (suc m) (x ∷ xs) =
    let h = without_probe_lem m xs in
    elim (Bool-cases (ltb m (length (take (suc m) xs)))) [
      | inl e ↦ rw (ltb-suc, e) (ap (λ ys. x ∷ ys) (rw e at h))
      | inr e ↦ rw (ltb-suc, e) (ap (λ ys. x ∷ ys) (rw e at h))
    ]

length-take-suc :
    {A : Type 0} (m : ℕ) (xs : List A) → ltb m (length (take (suc m) xs)) ≡ ltb m (length xs)
length-take-suc zero [] = refl
length-take-suc zero (x ∷ xs) = ground arith
length-take-suc (suc m) [] = refl
length-take-suc (suc m) (x ∷ xs) = rw (ltb-suc, ltb-suc) (length-take-suc m xs)

length-drop-ltb :
    {A : Type 0} (k m : ℕ) (xs : List A) → ltb m (length (drop k xs)) ≡ ltb (k + m) (length xs)
length-drop-ltb zero m xs = let e : 0 + m ≡ m = omega arith in rw e
length-drop-ltb (suc k) m [] = let e : ltb (suc k + m) 0 ≡ ltb m 0 = ground arith in rw e
length-drop-ltb (suc k) m (x ∷ xs) =
    let e : ltb (suc k + m) (suc (length xs)) ≡ ltb (k + m) (length xs) = ground arith in
    rw e (length-drop-ltb k m xs)

windowed_lem :
    (parse_date : String → Option ℤ) (env : LogEnv) (q : AuditQuery) (log : Log)
    → env.fails query_events ≡ false
    → (page_number q.page_text + 1) * audit_page_size < two_63
    → let n = page_number q.page_text in
      let all = matching (filter_of parse_date q) log in
      (v : AuditView) × (get_audit parse_date env q (some log) ≡ some v)
      × (v.events ≡ take audit_page_size (drop (n * audit_page_size) all))
      × (v.has_more ≡ ltb ((n + 1) * audit_page_size) (length all))
unfolding get_audit list_events page_number
windowed_lem parse_date env q log up fits =
    let n = page_number q.page_text in
    let all = matching (filter_of parse_date q) log in
    let offset = n * audit_page_size in
    let here : wrap_int offset ≡ pos offset = wrap_int-small offset (omega (arith, fits)) in
    let e : (n + 1) * audit_page_size ≡ offset + audit_page_size = omega arith in
    let rest = drop offset all in
    let listed : list_events env (filter_of parse_date q) (some log)
        ≡ ok (take (suc audit_page_size) rest) =
      rw (list_events, up, here) refl in
    let page_of : get_audit parse_date env q (some log)
        ≡ some (audit_view parse_date q (take (suc audit_page_size) rest)) =
      rw (get_audit, listed) refl in
    (
      audit_view parse_date q (take (suc audit_page_size) rest),
      page_of,
      without_probe_lem audit_page_size rest,
      length-take-suc audit_page_size rest
          ∙ length-drop-ltb offset audit_page_size all
          ∙ ap (λ k. ltb k (length all)) (sym e),
    )

-- While the driver works, a page of the audit log whose end fits an `int` shows its own window of 50 of
-- the events that pass the fields of the form, newest first, and no others; it says exactly whether
-- such events lie behind it. An event passes if its action and its account are those of the form,
-- where they are given, and if it was recorded between the first second of the day `from` and the last
-- second of the day `to`, where they are given as dates; a day `to` that ends by 1970 is no bound.
pub get_audit_lem :
    (parse_date : String → Option ℤ) (env : LogEnv) (q : AuditQuery) (log : Log)
    → env.fails query_events ≡ false
    → (page_number q.page_text + 1) * audit_page_size < two_63
    → let n = page_number q.page_text in
      let all = keep (passes parse_date q) (newest_first log.events) in
      (v : AuditView) × (get_audit parse_date env q (some log) ≡ some v)
      × (v.events ≡ take audit_page_size (drop (n * audit_page_size) all))
      × (v.has_more ≡ ltb ((n + 1) * audit_page_size) (length all))
get_audit_lem parse_date env q log up fits =
    let n = page_number q.page_text in
    subst
      (λ (all : List Event).
        (v : AuditView) × (get_audit parse_date env q (some log) ≡ some v)
        × (v.events ≡ take audit_page_size (drop (n * audit_page_size) all))
        × (v.has_more ≡ ltb ((n + 1) * audit_page_size) (length all)))
      (keep-eq (matches (filter_of parse_date q)) (passes parse_date q)
        (matches-passes parse_date q) (newest_first log.events))
      (windowed_lem parse_date env q log up fits)
