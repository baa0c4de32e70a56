-- ===== src/Ca/Ready.antt =====
-- internal/ca/ca.go, pinnedClientFor: the connection that it returns is ready for secrets.
use step_ui_ng.Ca.Net.{
  ◌>>=◌, Net, CaWorld, Call, Trust, fetch, admin_request, Body, send, no_body, lift, fetched, Reply,
  replied, untrusted, undelivered, or_raise, ◌>>◌, pure, anchored_in, after, any_chain,
}
use step_ui_ng.Ca.Pinned.{match_fingerprint, verify, unverified, pinned_client_for, parse_roots}
use step_ui_ng.Base.{
  String, List, ◌≡◌, some, arith, inl, ◌∷◌, Bool-cases, ◌==◌, refl, inr, [], string_eq, eq_iff, ap,
  ok, true, err, false, Result, Result-cases, Option, none, subst, ◌∙◌,
}
use step_ui_ng.Ca.Keeps.{Keeps, bind-Keeps, send-Keeps, lift-Keeps}
use step_ui_ng.Ca.Vouched.{Guards, Stays, send-Stays, is_answered, AreGuarded, IsReady, IsBare}
use step_ui_ng.Ca.Fingerprint.{
  unreachable, CaError, normalize_fingerprint, roots_endpoint, fingerprint_mismatch,
}
use step_ui_ng.Ca.Steps.{after_err, after_ok}

match_fingerprint-sum :
    (w : CaWorld) (roots : List String) (want root : String)
    → match_fingerprint w roots want ≡ some root
    → w.sha256_hex root ≡ want
unfolding match_fingerprint
match_fingerprint-sum w [] want root h = absurd (ground arith)
match_fingerprint-sum w (c ∷ cs) want root h = elim (Bool-cases (w.sha256_hex c == want)) [
  | inl e ↦ (ground (arith, eq_iff (w.sha256_hex c) want, ap (λ o. o) h))
  | inr e ↦ match_fingerprint-sum w cs want root (ground arith)
]

module _ (w : CaWorld) (want : String) where
  abbrev pub Sound {ℓ} : {A : Type ℓ} → Net A → Type 0
  Sound m = Keeps (Guards w want) (λ l g. g) (λ a b c f g x. g (f x)) m

  abbrev pub KeepsReady {ℓ} : {A : Type ℓ} → Trust → Net A → Type 0
  KeepsReady c m = Keeps (Stays w want c) (λ l g. g) (λ a b c f g x. g (f x)) m

  -- A GET without a token or a document, over any connection.
  pub fetch-Sound : (c : Trust) (url : String) → Sound (fetch w c url)
  unfolding fetch
  fetch-Sound c url =
      bind-Keeps _ _ _ (send w _) _ (send-Keeps _ _ _ w _ (λ l g. (inl (refl, refl, refl), g)))
        (λ r. lift-Keeps _ _ _ _)

  pub fetch-KeepsReady : (c : Trust) (url : String) → KeepsReady c (fetch w c url)
  unfolding fetch
  fetch-KeepsReady c url =
      bind-Keeps _ _ _ (send w _) _
        (send-Keeps _ _ _ w _ (send-Stays w want "GET" url "" no_body c)) (λ r. lift-Keeps _ _ _ _)

  pub admin_request-KeepsReady :
      (c : Trust) (method url token : String) (body : Body)
      → KeepsReady c (admin_request w c method url token body)
  unfolding admin_request
  admin_request-KeepsReady c method url token body =
      bind-Keeps _ _ _ (send w _) _
        (send-Keeps _ _ _ w _ (send-Stays w want method url token body c)) (λ r. lift-Keeps _ _ _ _)

  abbrev get_call : Trust → String → Call
  get_call c url = record {
    trust = c;
    method = "GET";
    url = url;
    authorization = "";
    body = no_body;
  }

  pub send_called :
      (call : Call) (l : List Call)
      → w.is_url call.url ≡ true
      → send w call l ≡ (ok (w.answer l call), call ∷ l)
  unfolding send
  send_called call l e = rw e

  pub send_refused :
      (call : Call) (l : List Call)
      → w.is_url call.url ≡ false
      → send w call l ≡ (err unreachable, l)
  unfolding send
  send_refused call l e = rw e

  fetch_called :
      (c : Trust) (url : String) (l : List Call)
      → w.is_url url ≡ true
      → fetch w c url l ≡ (fetched w (w.answer l (get_call c url)), get_call c url ∷ l)
  unfolding fetch ◌>>=◌ lift
  fetch_called c url l e = ap (after (λ r. lift (fetched w r))) (send_called (get_call c url) l e)

  fetch_refused :
      (c : Trust) (url : String) (l : List Call)
      → w.is_url url ≡ false
      → fetch w c url l ≡ (err unreachable, l)
  unfolding fetch ◌>>=◌
  fetch_refused c url l e = ap (after (λ r. lift (fetched w r))) (send_refused (get_call c url) l e)

  fetched-is_answered : (r : Reply) (body : String) → fetched w r ≡ ok body → is_answered r ≡ true
  fetched-is_answered untrusted body h = absurd (cc h)
  fetched-is_answered undelivered body h = absurd (cc h)
  fetched-is_answered (replied status text complete) body h = ground arith

  -- An operation keeps the calls guarded, and what it returns fits the calls made.
  abbrev pub Yields {ℓ} : {A : Type ℓ} → (A → List Call → Type 0) → Net A → Type ℓ
  Yields {A = A} Q m =
      (l : List Call)
      → AreGuarded w want l
      → AreGuarded w want (m l).1 × ((a : A) → (m l).0 ≡ ok a → Q a (m l).1)

  pub bind-lift {ℓ κ} :
      {A : Type ℓ} {B : Type κ} (Q : B → List Call → Type 0) (r : Result CaError A) (f : A → Net B)
      → ((a : A) → r ≡ ok a → Yields Q (f a))
      → Yields Q (lift r >>= f)
  unfolding ◌>>=◌ lift
  bind-lift Q (ok a) f k l g = k a refl l g
  bind-lift Q (err e) f k l g = (g, λ b h. absurd (cc h))

  pub bind-or_raise {ℓ κ} :
      {A : Type ℓ} {B : Type κ} (Q : B → List Call → Type 0) (o : Option A) (e : CaError)
      (f : A → Net B)
      → ((a : A) → o ≡ some a → Yields Q (f a))
      → Yields Q (or_raise o e >>= f)
  unfolding ◌>>=◌ or_raise
  bind-or_raise Q (some a) e f k l g = k a refl l g
  bind-or_raise Q none e f k l g = (g, λ b h. absurd (cc h))

  pub bind-Sound {ℓ κ} :
      {A : Type ℓ} {B : Type κ} (Q : B → List Call → Type 0) (m : Net A) (f : A → Net B)
      → Sound m
      → ((a : A) → Yields Q (f a))
      → Yields Q (m >>= f)
  unfolding ◌>>=◌
  bind-Sound Q m f s k l g = elim (Result-cases (m l).0) [
    | inl (e, x) ↦ rw (after_err f (m l) e x) (s.kept l g, λ b h. absurd (cc h))
    | inr (a, x) ↦ rw (after_ok f (m l) a x) (k a (m l).1 (s.kept l g))
  ]

  -- A call that proves the chain of the root makes its connection ready.
  ready :
      (root : String) (call : Call) (l : List Call)
      → w.sha256_hex root ≡ want
      → (c : Trust) → anchored_in root ≡ c
      → (call.trust ≡ anchored_in root) × IsBare call × (is_answered (w.answer l call) ≡ true)
      → IsReady w want c (call ∷ l)
  ready root call l sum c e h = subst (λ x. IsReady w want x (call ∷ l)) e (sum, inl h)

  -- The second fetch vouches for the root, or fails.
  verify-Yields :
      (root url : String)
      → w.sha256_hex root ≡ want
      → Yields (IsReady w want) (verify w (anchored_in root) url >> pure (anchored_in root))
  unfolding verify ◌>>◌ ◌>>=◌ pure
  verify-Yields root url sum l g =
      let finish = after (λ (u : Unit {0}). pure (anchored_in root)) in
      elim (Bool-cases (w.is_url url)) [
        | inr e ↦
            rw (ap finish (ap (unverified w) (fetch_refused (anchored_in root) url l e)))
              (g, λ b h. absurd (cc h))
        | inl e ↦
            rw (ap finish (ap (unverified w) (fetch_called (anchored_in root) url l e)))
              (elim (Result-cases (fetched w (w.answer l (get_call (anchored_in root) url)))) [
                | inl (x, f) ↦ rw f ((inl (refl, refl, refl), g), λ b h. absurd (cc h))
                | inr (body, f) ↦ rw f (
                  (inl (refl, refl, refl), g),
                  λ b h. ready root (get_call (anchored_in root) url) l sum b (cc h) (
                    refl,
                    (refl, refl, refl),
                    fetched-is_answered (w.answer l (get_call (anchored_in root) url)) body f,
                  ),
                )
              ])
      ]

  -- A connection that is returned is ready: its root has the pinned sum, and vouched for itself.
  pub pinned-Yields :
      (ca_url fingerprint : String)
      → ((a : String) → normalize_fingerprint fingerprint ≡ ok a → a ≡ want)
      → Yields (IsReady w want) (pinned_client_for w ca_url fingerprint)
  unfolding pinned_client_for
  pinned-Yields ca_url fingerprint agrees =
      bind-lift (IsReady w want) (normalize_fingerprint fingerprint) _ (λ sum n.
        bind-lift (IsReady w want) (roots_endpoint ca_url) _ (λ url _.
          bind-Sound (IsReady w want) (fetch w any_chain url) _ (fetch-Sound any_chain url) (λ body.
            bind-lift (IsReady w want) (parse_roots w body) _ (λ roots _.
              bind-or_raise (IsReady w want) (match_fingerprint w roots sum) fingerprint_mismatch _
                (λ root m.
                  verify-Yields root url
                    (match_fingerprint-sum w roots sum root m ∙ agrees sum n))))))
