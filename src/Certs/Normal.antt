-- ===== src/Certs/Normal.antt =====
-- What `normalizeSANs` returns, against a plain description of it.
use mathlib.Core.List.{append-nil, append_assoc}
use step_ui_ng.Base.{
  List, String, ◌≡◌, ◌∷◌, if◌then◌else◌, ◌==◌, ◌||◌, ◌++◌, [], arith, Bool-cases, map, sym, inl,
  refl, string_eq, true, inr, false, ◌∙◌, ◌⊎◌, ◌≢◌, All, not, eq_iff, ◌&&◌, ap,
}
use step_ui_ng.Certs.Sans.{contains, Names, add_name, add_names, normalize_sans}
use step_ui_ng.Base.Text.{trim_space, trim_space_idem}

-- The names of a list that are not blank and occur neither before it nor earlier in it.
unfoldable pub fresh : List String → List String → List String
fresh before [] = []
fresh before (v ∷ vs) =
    if v == "" || contains v before then fresh before vs else v ∷ fresh (before ++ v ∷ []) vs

contains-append :
    (v : String) (xs ys : List String) → contains v (xs ++ ys) ≡ contains v xs || contains v ys
unfolding contains
contains-append v [] ys = refl
contains-append v (x ∷ xs) ys = ground (arith, contains-append v xs ys)

abbrev SeesOut : Names → Type 0
SeesOut st = (v : String) → contains v st.seen ≡ contains v st.out

add_name-SeesOut : (st : Names) (s : String) → SeesOut st → SeesOut (add_name st s)
unfolding contains add_name
add_name-SeesOut st s h v =
    let w = trim_space s in
    elim (Bool-cases (w == "" || contains w st.seen)) [
      | inl e ↦ rw (e, add_name) (h v)
      | inr e ↦ rw (e, add_name) (ground (arith, h v, contains-append v st.out (w ∷ [])))
    ]

add_name-cases :
    (st : Names) (s : String)
    → SeesOut st
    → (((trim_space s == "" || contains (trim_space s) st.out) ≡ true) × (add_name st s ≡ st))
      ⊎ (((trim_space s == "" || contains (trim_space s) st.out) ≡ false)
          × (add_name st s
              ≡ record { seen = trim_space s ∷ st.seen; out = st.out ++ trim_space s ∷ [] }))
unfolding add_name
add_name-cases st s h =
    let w = trim_space s in
    elim (Bool-cases (w == "" || contains w st.out)) [
      | inl e ↦ inl (e, ground (arith, h w))
      | inr e ↦ inr (e, ground (arith, h w))
    ]

add_names-eq-fresh :
    (st : Names) (ss : List String)
    → SeesOut st
    → (add_names st ss).out ≡ st.out ++ fresh st.out (map trim_space ss)
unfolding add_names fresh
add_names-eq-fresh st [] h = sym (append-nil st.out)
add_names-eq-fresh st (s ∷ ss) h = elim (add_name-cases st s h) [
  | inl (e, same) ↦
      let skip : fresh st.out (map trim_space (s ∷ ss)) ≡ fresh st.out (map trim_space ss) =
        rw (e, fresh) in
      ap (λ x. (add_names x ss).out) same
      ∙ add_names-eq-fresh st ss h
      ∙ ap (λ x. st.out ++ x) (sym skip)
  | inr (e, new) ↦
      let w = trim_space s in
      let sees = add_name-SeesOut st s h in
      let longer = st.out ++ w ∷ [] in
      let keeps : fresh st.out (map trim_space (s ∷ ss)) ≡ w ∷ fresh longer (map trim_space ss) =
        rw (e, fresh) in
      ap (λ x. (add_names x ss).out) new
      ∙ add_names-eq-fresh (record { seen = w ∷ st.seen; out = longer }) ss (rw new at sees)
      ∙ append_assoc st.out (w ∷ []) (fresh longer (map trim_space ss))
      ∙ ap (λ x. st.out ++ x) (sym keeps)
]

-- `normalizeSANs` trims its arguments and keeps each name that is not blank at its first place.
pub normalize_sans-eq-fresh :
    (cn : String) (extra : List String)
    → normalize_sans cn extra ≡ fresh [] (trim_space cn ∷ map trim_space extra)
unfolding normalize_sans add_names
normalize_sans-eq-fresh cn extra =
    add_names-eq-fresh (record { seen = []; out = [] }) (cn ∷ extra) (λ v. refl)

-- No name is blank, has spaces around it, or occurs among the names before it.
abbrev pub IsDistinct : List String → List String → Type 0
IsDistinct before [] = Unit
IsDistinct before (v ∷ vs) = (contains v before ≡ false) × IsDistinct (before ++ v ∷ []) vs

abbrev pub IsClean : String → Type 0
IsClean v = (v ≢ "") × (trim_space v ≡ v)

fresh-IsDistinct : (before vs : List String) → IsDistinct before (fresh before vs)
unfolding fresh
fresh-IsDistinct before [] = tt
fresh-IsDistinct before (v ∷ vs) = elim (Bool-cases (v == "" || contains v before)) [
  | inl e ↦ rw e (fresh-IsDistinct before vs)
  | inr e ↦ rw e (ground arith, fresh-IsDistinct (before ++ v ∷ []) vs)
]

fresh-All :
    (before vs : List String) → All (λ v. trim_space v ≡ v) vs → All IsClean (fresh before vs)
unfolding fresh
fresh-All before [] h = tt
fresh-All before (v ∷ vs) (t, h) = elim (Bool-cases (v == "" || contains v before)) [
  | inl e ↦ rw e (fresh-All before vs h)
  | inr e ↦ rw e ((ground (arith, eq_iff v ""), t), fresh-All (before ++ v ∷ []) vs h)
]

fresh_of_IsDistinct :
    (before vs : List String) → IsDistinct before vs → All IsClean vs → fresh before vs ≡ vs
unfolding fresh
fresh_of_IsDistinct before [] d c = refl
fresh_of_IsDistinct before (v ∷ vs) (new, d) ((some_text, _), c) =
    ground (arith, eq_iff v "", fresh_of_IsDistinct (before ++ v ∷ []) vs d c)

contains-fresh :
    (w : String) (before vs : List String)
    → contains w before || contains w (fresh before vs)
      ≡ contains w before || not (w == "") && contains w vs
unfolding fresh contains
contains-fresh w before [] = ground arith
contains-fresh w before (v ∷ vs) = elim (Bool-cases (v == "" || contains v before)) [
  | inl e ↦
      rw e (ground (arith, e, eq_iff w v, eq_iff v "", eq_iff w "", contains-fresh w before vs))
  | inr e ↦ rw e (
      ground (
        arith,
        e,
        eq_iff w v,
        eq_iff v "",
        eq_iff w "",
        contains-fresh w (before ++ v ∷ []) vs,
        contains-append w before (v ∷ []),
      ))
]

map-trim_space : (ss : List String) → All (λ v. trim_space v ≡ v) (map trim_space ss)
map-trim_space [] = tt
map-trim_space (s ∷ ss) = (trim_space_idem s, map-trim_space ss)

map-trim_space_of_IsClean : (vs : List String) → All IsClean vs → map trim_space vs ≡ vs
map-trim_space_of_IsClean [] h = refl
map-trim_space_of_IsClean (v ∷ vs) ((_, t), h) = rw (t, map-trim_space_of_IsClean vs h)

fresh_blank : (c : String) (vs : List String) → (c == "") ≡ true → fresh [] (c ∷ vs) ≡ fresh [] vs
unfolding fresh contains
fresh_blank c vs e = ground (arith, e)

fresh_first :
    (c : String) (vs : List String) → (c == "") ≡ false → fresh [] (c ∷ vs) ≡ c ∷ fresh (c ∷ []) vs
unfolding fresh contains
fresh_first c vs e = ground (arith, e)

fresh_known : (c : String) (vs : List String) → fresh (c ∷ []) (c ∷ vs) ≡ fresh (c ∷ []) vs
unfolding fresh contains
fresh_known c vs = ground (arith, eq_iff c c)

fresh_again :
    (c : String) (rest : List String)
    → All IsClean (fresh [] (c ∷ rest))
    → fresh [] (c ∷ fresh [] (c ∷ rest)) ≡ fresh [] (c ∷ rest)
fresh_again c rest clean = elim (Bool-cases (c == "")) [
  | inl blank ↦
      fresh_blank c _ blank ∙ fresh_of_IsDistinct [] _ (fresh-IsDistinct [] (c ∷ rest)) clean
  | inr text ↦
      let first = fresh_first c rest text in
      let kept = rw first at clean in
      ap (λ x. fresh [] (c ∷ x)) first
      ∙ fresh_first c (c ∷ fresh (c ∷ []) rest) text
      ∙ ap (λ x. c ∷ x)
          (fresh_known c (fresh (c ∷ []) rest)
            ∙ fresh_of_IsDistinct (c ∷ []) _ (fresh-IsDistinct (c ∷ []) rest) kept.1)
      ∙ sym first
]

-- The list of names that `normalizeSANs` makes of a common name and further names: no name occurs
-- twice, none is blank or has spaces around it; it holds exactly the trimmed names of its arguments
-- that are not blank; and to make it again with the same common name changes nothing.
pub normalize_sans_lem :
    (cn : String) (extra : List String)
    → let out = normalize_sans cn extra in
      IsDistinct [] out
      × All IsClean out
      × ((v : String)
          → contains v out
            ≡ not (v == "") && (v == trim_space cn || contains v (map trim_space extra)))
      × (normalize_sans cn out ≡ out)
unfolding contains
normalize_sans_lem cn extra =
    let vs = trim_space cn ∷ map trim_space extra in
    let same = normalize_sans-eq-fresh cn extra in
    let clean = fresh-All [] vs (trim_space_idem cn, map-trim_space extra) in
    let again = normalize_sans-eq-fresh cn (fresh [] vs) in
    rw same (
      fresh-IsDistinct [] vs,
      clean,
      λ v. contains-fresh v [] vs,
      again
          ∙ ap (λ x. fresh [] (trim_space cn ∷ x)) (map-trim_space_of_IsClean (fresh [] vs) clean)
          ∙ fresh_again (trim_space cn) (map trim_space extra) clean,
    )
