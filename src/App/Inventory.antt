-- ===== src/App/Inventory.antt =====
-- internal/app/inventory.go: how `getInventory` cuts the list of certificates into pages.
use step_ui_ng.Base.{
  ℕ, List, String, Bool, Option, drop, length, take, if◌then◌else◌, ◌*◌, ltb, ◌+◌, none, some, [],
  ◌≡◌, ◌≤◌, ◌<◌, arith, ◌∷◌, Bool-cases, suc, inl, zero, inr, refl,
}
use step_ui_ng.Base.Int.{pos_part, ltb_ℤ, pos}
use step_ui_ng.Base.Number.{atoi, wrap_int, two_63}
use Prim.Native.Nat.{min}

abbrev pub inventory_page_size : ℕ
inventory_page_size = 50

-- The fields of `inventoryView` that depend on the page.
pub record PageView (A : Type 0) : Type 0 where
  pub items : List A
  pub total : ℕ
  pub page : ℕ
  pub has_more : Bool
  pub range_from : ℕ
  pub range_to : ℕ

-- The page number that `getInventory` reads.
unfoldable pub page_number : String → ℕ
page_number text = pos_part (atoi text).0

module _ {A : Type 0} where
  -- The part from `total` to `rangeTo`, for an offset of at least 0.
  unfoldable pub cut : List A → ℕ → ℕ → Bool → PageView A
  cut list page offset has_more =
      let total = length list in
      if ltb offset total
      then record {
        items = drop offset (take (min (offset + inventory_page_size) total) list);
        total = total;
        page = page;
        has_more = has_more;
        range_from = offset + 1;
        range_to = min (offset + inventory_page_size) total;
      }
      else record {
        items = [];
        total = total;
        page = page;
        has_more = has_more;
        range_from = 0;
        range_to = 0;
      }

  -- The paging of `getInventory`, with the wrap-around of `int`; `none` is the panic of a slice
  -- expression with a negative bound.
  unfoldable pub inventory_view : String → List A → Option (PageView A)
  inventory_view text list =
      let page = page_number text in
      let offset = wrap_int (page * inventory_page_size) in
      let has_more =
        ltb_ℤ (wrap_int (page * inventory_page_size + inventory_page_size)) (pos (length list)) in
      if ltb_ℤ offset (pos 0) then none else some (cut list page (pos_part offset) has_more)

take-min : {A : Type 0} (k : ℕ) (xs : List A) → take (min k (length xs)) xs ≡ take k xs
take-min zero xs = let e : min 0 (length xs) ≡ 0 = omega arith in rw e
take-min (suc k) [] = let e : min (suc k) 0 ≡ 0 = omega arith in rw e
take-min (suc k) (x ∷ xs) =
    let e : min (suc k) (suc (length xs)) ≡ suc (min k (length xs)) = omega arith in
    rw (e, take-min k xs)

take-nil : {A : Type 0} (k : ℕ) → [] ≡ take {A = A} k []
take-nil zero = refl
take-nil (suc k) = refl

drop-take :
    {A : Type 0} (n k : ℕ) (xs : List A)
    → drop n (take (min (n + k) (length xs)) xs) ≡ take k (drop n xs)
drop-take zero k xs = let e : 0 + k ≡ k = omega arith in rw (e, take-min k xs)
drop-take (suc n) k [] = let e : min (suc n + k) 0 ≡ 0 = omega arith in rw e (take-nil k)
drop-take (suc n) k (x ∷ xs) =
    let e : min (suc n + k) (suc (length xs)) ≡ suc (min (n + k) (length xs)) = omega arith in
    rw (e, drop-take n k xs)

drop-beyond : {A : Type 0} (n : ℕ) (xs : List A) → length xs ≤ n → drop n xs ≡ []
drop-beyond zero [] le = refl
drop-beyond zero (x ∷ xs) le = absurd (omega (arith, le))
drop-beyond (suc n) [] le = refl
drop-beyond (suc n) (x ∷ xs) le = drop-beyond n xs (omega arith)

pub wrap_int-small : (n : ℕ) → n < two_63 → wrap_int n ≡ pos n
unfolding wrap_int
wrap_int-small n lt = ground arith

-- A page whose end fits an `int` shows the certificates of its own window of 50 and no others, and says
-- exactly whether certificates lie behind it; no slice expression panics.
pub inventory_view_lem :
    {A : Type 0} (text : String) (list : List A)
    → (page_number text + 1) * inventory_page_size < two_63
    → let n = page_number text in
      (v : PageView A) × (inventory_view text list ≡ some v)
      × (v.items ≡ take inventory_page_size (drop (n * inventory_page_size) list))
      × (v.has_more ≡ ltb ((n + 1) * inventory_page_size) (length list))
unfolding inventory_view cut
inventory_view_lem text list fits =
    let n = page_number text in
    let offset = n * inventory_page_size in
    let here : wrap_int offset ≡ pos offset = wrap_int-small offset (omega (arith, fits)) in
    let next : wrap_int (offset + inventory_page_size) ≡ pos (offset + inventory_page_size) =
      wrap_int-small (offset + inventory_page_size) (omega (arith, fits)) in
    let more = ltb (offset + inventory_page_size) (length list) in
    let whole : inventory_view text list ≡ some (cut list n offset more) =
      ground (arith, here, next) in
    let e : (n + 1) * inventory_page_size ≡ offset + inventory_page_size = omega arith in
    elim (Bool-cases (ltb offset (length list))) [
      | inl inside ↦ (
        cut list n offset more,
        whole,
        rw (inside, cut) (drop-take offset inventory_page_size list),
        rw (inside, cut, e),
      )
      | inr beyond ↦ (
        cut list n offset more,
        whole,
        rw (beyond, cut, drop-beyond offset list (ground (arith, beyond))),
        rw (beyond, cut, e),
      )
    ]
