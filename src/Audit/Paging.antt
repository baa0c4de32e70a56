-- ===== src/Audit/Paging.antt =====
-- What `List` returns, and how its pages fit together.
use step_ui_ng.Base.{
  ℕ, List, Result, ◌<◌, keep, ◌∷◌, ok, ◌≡◌, [], ◌*◌, false, suc, some, take, drop, arith, ◌++◌,
  zero, ◌+◌, take-add, ◌>>=◌,
}
use step_ui_ng.Base.Int.{pos}
use step_ui_ng.Audit.Log.{
  Event, Filter, LogEnv, Log, matches, LogError, list_events, query_events, newest_first,
}

-- The ids fall.
abbrev pub IsDescending : ℕ → List Event → Type 0
IsDescending hi [] = Unit
IsDescending hi (e ∷ es) = (e.id < hi) × IsDescending e.id es

-- All events that a filter lets through, newest first.
abbrev pub matching : Filter → Log → List Event
matching f log = keep (matches f) (newest_first log.events)

module _ (env : LogEnv) (f : Filter) (log : Log) (size : ℕ) where
  -- One page of the given size.
  abbrev pub page : ℕ → Result LogError (List Event)
  page p = list_events env (record f { limit = pos size; offset = pos (p * size) }) (some log)

  -- The first pages one behind the other.
  unfoldable pub pages : ℕ → Result LogError (List Event)
  pages zero = ok []
  pages (suc p) = do xs ← pages p; ys ← page p; ok (xs ++ ys)

  page_lem :
      (p : ℕ)
      → 0 < size
      → env.fails query_events ≡ false
      → page p ≡ ok (take size (drop (p * size) (matching f log)))
  unfolding list_events matches
  page_lem p some_size up = ground arith

  -- While the driver works, the pages of a size above 0 hold, in order, without gap and without
  -- overlap, all that the filter lets through.
  pub pages-eq-take :
      (n : ℕ)
      → 0 < size
      → env.fails query_events ≡ false
      → pages n ≡ ok (take (n * size) (matching f log))
  unfolding pages
  pages-eq-take zero some_size up = let e : 0 * size ≡ 0 = omega arith in rw e
  pages-eq-take (suc n) some_size up =
      let e : suc n * size ≡ n * size + size = omega arith in
      rw (pages-eq-take n some_size up, page_lem n some_size up, e, take-add)
