-- ===== src/Audit/Listing.antt =====
-- The order and the contents of what `List` returns.
use step_ui_ng.Base.Int.{pos, ◌≤ℤ◌, pos_part, ltb_ℤ}
use step_ui_ng.Audit.Log.{
  Filter, matches, Event, list_events, LogEnv, Log, newest_first, effective_limit,
}
use step_ui_ng.Base.{
  ℕ, ◌≡◌, List, Bool, ◌⊎◌, true, ◌≤◌, arith, All, ◌+◌, keep, drop, take, some, ◌∷◌, eq_iff, ◌<◌,
  length, Bool-cases, ok, suc, [], ◌++◌, inl, zero, All-append, if◌then◌else◌, inr, All-keep,
  All-take, All-drop, length-take,
}
use step_ui_ng.Audit.Paging.{IsDescending, matching}
use step_ui_ng.Audit.History.{IsNumbered}

-- What a filter asks of an event: equal texts where it names any, and a time within the bounds that
-- it sets by a number above 0.
pub record Fits (f : Filter) (e : Event) : Type 0 where
  pub fits_action : (f.action ≡ "") ⊎ (e.action ≡ f.action)
  pub fits_who : (f.who ≡ "") ⊎ (e.who ≡ f.who)
  pub fits_from : (f.from ≤ℤ pos 0) ⊎ (f.from ≤ℤ pos e.created_at)
  pub fits_to : (f.to ≤ℤ pos 0) ⊎ (pos e.created_at ≤ℤ f.to)

Fits-of_matches : (f : Filter) (e : Event) → matches f e ≡ true → Fits f e
unfolding matches
Fits-of_matches f e h = record {
  fits_action = ground (arith, eq_iff f.action "", eq_iff e.action f.action);
  fits_who = ground (arith, eq_iff f.who "", eq_iff e.who f.who);
  fits_from = ground arith;
  fits_to = ground arith;
}

IsDescending-append :
    (hi : ℕ) (es : List Event) (e : Event)
    → IsDescending hi es
    → All (λ x. e.id < x.id) es
    → e.id < hi
    → IsDescending hi (es ++ e ∷ [])
IsDescending-append hi [] e h above lt = (lt, tt)
IsDescending-append hi (x ∷ es) e (l, h) (a, above) lt =
    (l, IsDescending-append x.id es e h above a)

newest_first-above :
    (lo k : ℕ) (es : List Event) → IsNumbered lo es → k ≤ lo → All (λ x. k < x.id) (newest_first es)
newest_first-above lo k [] h le = tt
newest_first-above lo k (e ∷ es) (n, h) le =
    All-append (λ (x : Event). k < x.id) (newest_first es) (e ∷ [])
      (newest_first-above (lo + 1) k es h (omega arith)) (omega arith, tt)

newest_first-IsDescending :
    (lo : ℕ) (es : List Event)
    → IsNumbered lo es
    → IsDescending (lo + length es + 1) (newest_first es)
newest_first-IsDescending lo [] h = tt
newest_first-IsDescending lo (e ∷ es) (n, h) =
    let hi : lo + suc (length es) + 1 ≡ lo + 1 + length es + 1 = omega arith in
    rw hi (
      IsDescending-append (lo + 1 + length es + 1) (newest_first es) e
        (newest_first-IsDescending (lo + 1) es h)
        (newest_first-above (lo + 1) e.id es h (omega arith)) (omega arith))

IsDescending-weaken :
    (hi hi' : ℕ) (es : List Event) → hi ≤ hi' → IsDescending hi es → IsDescending hi' es
IsDescending-weaken hi hi' [] le h = tt
IsDescending-weaken hi hi' (e ∷ es) le (l, h) = (omega arith, h)

IsDescending-keep :
    (p : Event → Bool) (hi : ℕ) (es : List Event) → IsDescending hi es → IsDescending hi (keep p es)
IsDescending-keep p hi [] h = tt
IsDescending-keep p hi (e ∷ es) (l, h) = elim (Bool-cases (p e)) [
  | inl kept ↦ rw kept (l, IsDescending-keep p e.id es h)
  | inr dropped ↦
      rw dropped (IsDescending-keep p hi es (IsDescending-weaken e.id hi es (omega arith) h))
]

IsDescending-drop : (n hi : ℕ) (es : List Event) → IsDescending hi es → IsDescending hi (drop n es)
IsDescending-drop zero hi es h = h
IsDescending-drop (suc n) hi [] h = tt
IsDescending-drop (suc n) hi (e ∷ es) (l, h) =
    IsDescending-drop n hi es (IsDescending-weaken e.id hi es (omega arith) h)

IsDescending-take : (n hi : ℕ) (es : List Event) → IsDescending hi es → IsDescending hi (take n es)
IsDescending-take zero hi es h = tt
IsDescending-take (suc n) hi [] h = tt
IsDescending-take (suc n) hi (e ∷ es) (l, h) = (l, IsDescending-take n e.id es h)

-- From a log whose ids count up, `List` returns events that fit the filter, newest first, and no more
-- than the limit, which is 50 where the filter sets none.
pub list_events_lem :
    (env : LogEnv) (f : Filter) (lo : ℕ) (log : Log) (es : List Event)
    → IsNumbered lo log.events
    → list_events env f (some log) ≡ ok es
    → IsDescending (lo + length log.events + 1) es
      × All (Fits f) es
      × (length es ≤ pos_part (if ltb_ℤ (pos 0) f.limit then f.limit else pos 50))
unfolding list_events
list_events_lem env f lo log es numbered h =
    let all = matching f log in
    let some_of = drop (pos_part f.offset) all in
    let limit = pos_part (effective_limit f.limit) in
    let same : es ≡ take limit some_of = ground arith in
    let down = newest_first-IsDescending lo log.events numbered in
    let hi = lo + length log.events + 1 in
    let kept = IsDescending-keep (matches f) hi (newest_first log.events) down in
    let fit = All-keep (Fits f) (matches f) (newest_first log.events) (Fits-of_matches f) in
    rw same (
      IsDescending-take limit hi some_of (IsDescending-drop (pos_part f.offset) hi all kept),
      All-take (Fits f) limit some_of (All-drop (Fits f) (pos_part f.offset) all fit),
      ground (arith, length-take limit some_of),
    )
