-- ===== src/Ca/Paging.antt =====
-- The loops of internal/ca over the pages of a list.
use step_ui_ng.Ca.Net.{Net, CaWorld, Call, ◌>>=◌, Page, pure, after, Provisioner, lift, Trust}
use step_ui_ng.Base.{
  true, String, List, ℕ, ◌≡◌, Option, suc, ◌≤◌, ◌==◌, ok, false, ◌++◌, some, none, All, refl, arith,
  ap, zero, string_eq, ◌∙◌, sym, Result-cases, inl, inr, All-append, Bool-cases, subst, [],
}
use step_ui_ng.Ca.Provisioners.{follow, list_provisioners, provisioners_page}
use mathlib.Core.List.{append_assoc}
use step_ui_ng.Ca.Pinned.{pinned_client_for}
use step_ui_ng.Ca.Fingerprint.{base_url}
use step_ui_ng.Ca.Steps.{after_err, after_ok}

-- From a cursor, and after some calls, the list has so many pages, with these entries in all; the
-- calls that were made when it has been read come last.
pub data Pages {ℓ} {A : Type ℓ} (ask : String → Net (Page A))
    : String → List Call → ℕ → List A → List Call → Type ℓ where
  last :
      (cursor : String) (l l' : List Call) (xs : List A)
      → ask cursor l ≡ (ok (xs, ""), l')
      → Pages ask cursor l 1 xs l'
  more :
      (cursor next : String) (l l' l'' : List Call) (xs ys : List A) (n : ℕ)
      → ask cursor l ≡ (ok (xs, next), l')
      → (next == "") ≡ false
      → Pages ask next l' n ys l''
      → Pages ask cursor l (suc n) (xs ++ ys) l''

module _ {ℓ} {A : Type ℓ} (ask : String → Net (Page A)) where
  next_page : ℕ → List A → Page A → Net (Option (List A))
  next_page fuel out page = elim (page.1 == "") [
    | true ↦ pure (some (out ++ page.0))
    | false ↦ follow ask fuel page.1 (out ++ page.0)
  ]

  follow-suc :
      (fuel : ℕ) (cursor : String) (out : List A) (l : List Call)
      → follow ask (suc fuel) cursor out l ≡ after (next_page fuel out) (ask cursor l)
  unfolding follow ◌>>=◌ next_page
  follow-suc fuel cursor out l = refl

  next_page-last :
      (fuel : ℕ) (out : List A) (page : Page A) (l : List Call)
      → (page.1 == "") ≡ true
      → (next_page fuel out page l).0 ≡ ok (some (out ++ page.0))
  unfolding next_page pure
  next_page-last fuel out page l b = rw (next_page, b) refl

  next_page-more :
      (fuel : ℕ) (out : List A) (page : Page A) (l : List Call)
      → (page.1 == "") ≡ false
      → next_page fuel out page l ≡ follow ask fuel page.1 (out ++ page.0) l
  unfolding next_page
  next_page-more fuel out page l b = rw (next_page, b) refl

  -- The loop ends after the last page, and returns the entries of all pages in their order.
  pub follow-Pages :
      (fuel : ℕ) (cursor : String) (out : List A) (l l' : List Call) (n : ℕ) (xs : List A)
      → Pages ask cursor l n xs l'
      → n ≤ fuel
      → follow ask fuel cursor out l ≡ (ok (some (out ++ xs)), l')
  unfolding next_page pure
  follow-Pages zero cursor out l l' n xs (last c a b ys e) h = absurd (omega arith)
  follow-Pages zero cursor out l l' n xs (more c next a b d ys zs m e k p) h = absurd (omega arith)
  follow-Pages (suc fuel) cursor out l l' n xs (last c a b ys e) h =
      follow-suc fuel cursor out l ∙ ap (after (next_page fuel out)) e
  follow-Pages (suc fuel) cursor out l l' n xs (more c next a b d ys zs m e k p) h =
      follow-suc fuel cursor out l
      ∙ ap (after (next_page fuel out)) e
      ∙ rw (next_page, k)
          (follow-Pages fuel next (out ++ ys) b d m zs p (omega arith)
            ∙ ap (λ r. (ok (some r), d)) (append_assoc out ys zs))

  -- A cursor that leads back to itself is followed for ever.
  pub follow_forever :
      (cursor : String) (answer : List Call → List A × List Call)
      → (cursor == "") ≡ false
      → ((l : List Call) → ask cursor l ≡ (ok ((answer l).0, cursor), (answer l).1))
      → (fuel : ℕ) (out : List A) (l : List Call) → (follow ask fuel cursor out l).0 ≡ ok none
  unfolding next_page pure follow
  follow_forever cursor answer k e zero out l = refl
  follow_forever cursor answer k e (suc fuel) out l =
      ap (λ o. o.0) (follow-suc fuel cursor out l ∙ ap (after (next_page fuel out)) (e l))
      ∙ rw (next_page, k) (follow_forever cursor answer k e fuel (out ++ (answer l).0) (answer l).1)

  -- What every entry of every page has, every entry of the list has.
  pub follow-All {κ} :
      (P : A → Type κ)
      → ((cursor : String) (l : List Call) (page : Page A)
          → (ask cursor l).0 ≡ ok page
          → All P page.0)
      → (fuel : ℕ) (cursor : String) (out : List A) (l : List Call) (xs : List A) → All P out
      → (follow ask fuel cursor out l).0 ≡ ok (some xs)
      → All P xs
  unfolding next_page pure follow
  follow-All P every zero cursor out l xs h e = absurd (cc e)
  follow-All P every (suc fuel) cursor out l xs h e =
      let e' = sym (ap (λ o. o.0) (follow-suc fuel cursor out l)) ∙ e in
      elim (Result-cases (ask cursor l).0) [
        | inl (x, a) ↦
            absurd
              (cc (sym (ap (λ o. o.0) (after_err (next_page fuel out) (ask cursor l) x a)) ∙ e'))
        | inr (page, a) ↦
            let e'' =
              sym (ap (λ o. o.0) (after_ok (next_page fuel out) (ask cursor l) page a)) ∙ e' in
            let good = All-append P out page.0 h (every cursor l page a) in
            elim (Bool-cases (page.1 == "")) [
              | inl b ↦
                  subst (All P) (cc (sym (next_page-last fuel out page (ask cursor l).1 b) ∙ e''))
                    good
              | inr b ↦
                  follow-All P every fuel page.1 (out ++ page.0) (ask cursor l).1 xs good
                    (sym (ap (λ o. o.0) (next_page-more fuel out page (ask cursor l).1 b)) ∙ e'')
            ]
      ]

listing : CaWorld → ℕ → String → String → String → Net (Option (List Provisioner))
listing w fuel ca_url fingerprint base = pinned_client_for w ca_url fingerprint >>= λ client.
    follow (provisioners_page w client base) fuel "" []

-- If the connection is made and the CA answers with a list of `n` pages, then a search that is
-- allowed `n` pages ends, and returns the provisioners of all pages in their order.
pub list_provisioners-Pages :
    (w : CaWorld) (fuel n : ℕ) (ca_url fingerprint base : String) (c : Trust) (l l' l'' : List Call)
    (xs : List Provisioner)
    → base_url ca_url ≡ ok base
    → pinned_client_for w ca_url fingerprint l ≡ (ok c, l')
    → Pages (provisioners_page w c base) "" l' n xs l''
    → n ≤ fuel
    → list_provisioners w fuel ca_url fingerprint l ≡ (ok (some xs), l'')
unfolding list_provisioners listing ◌>>=◌ lift
list_provisioners-Pages w fuel n ca_url fingerprint base c l l' l'' xs b p pages h =
    ap (λ r. after (listing w fuel ca_url fingerprint) (r, l)) b
    ∙ ap (after (λ client. follow (provisioners_page w client base) fuel "" [])) p
    ∙ follow-Pages (provisioners_page w c base) fuel "" [] l' l'' n xs pages h
