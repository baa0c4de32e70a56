-- ===== src/Ca/Pinned.antt =====
-- internal/ca/ca.go: the connection that trusts only the pinned root.
use step_ui_ng.Ca.Net.{
  ◌>>=◌, ◌>>◌, Net, CaWorld, Trust, fetch, lift, any_chain, or_raise, anchored_in, pure, Call,
}
use step_ui_ng.Base.{
  List, Result, String, Option, ok, none, err, ◌∷◌, if◌then◌else◌, some, [], ◌++◌, ◌==◌, string_eq,
}
use step_ui_ng.Ca.Fingerprint.{
  CaError, normalize_fingerprint, malformed_response, bad_tls, roots_endpoint, fingerprint_mismatch,
}

module _ (w : CaWorld) where
  bundles : List String → Result CaError (List String)
  bundles [] = ok []
  bundles (p ∷ ps) = elim (w.certs_of_pem p) [
    | none ↦ err malformed_response
    | some certs ↦ elim (bundles ps) [ err e ↦ err e | ok rest ↦ ok (certs ++ rest) ]
  ]

  some_roots : Result CaError (List String) → Result CaError (List String)
  some_roots (err e) = err e
  some_roots (ok []) = err malformed_response
  some_roots (ok (c ∷ cs)) = ok (c ∷ cs)

  -- `parseRoots`
  unfoldable pub parse_roots : String → Result CaError (List String)
  unfolding bundles some_roots
  parse_roots body = elim (w.roots_of_json body) [
    | none ↦ err malformed_response
    | some [] ↦ err malformed_response
    | some (p ∷ ps) ↦ some_roots (bundles (p ∷ ps))
  ]

  -- `matchFingerprint`
  unfoldable pub match_fingerprint : List String → String → Option String
  match_fingerprint [] want = none
  match_fingerprint (c ∷ cs) want =
      if w.sha256_hex c == want then some c else match_fingerprint cs want

  abbrev pub unverified : Result CaError String × List Call → Result CaError (Unit {0}) × List Call
  unverified (ok body, calls) = (ok tt, calls)
  unverified (err e, calls) = (err bad_tls, calls)

  -- The second fetch of the roots, whatever is wrong with it.
  unfoldable pub verify : Trust → String → Net (Unit {0})
  verify trust url calls = unverified (fetch w trust url calls)

  -- `TestConnection`
  unfoldable pub test_connection : String → String → Net (List String)
  test_connection ca_url fingerprint = do
    want ← lift (normalize_fingerprint fingerprint)
    url ← lift (roots_endpoint ca_url)
    body ← fetch w any_chain url
    roots ← lift (parse_roots body)
    pinned ← or_raise (match_fingerprint roots want) fingerprint_mismatch
    verify (anchored_in pinned) url
    pure roots

  -- `pinnedClientFor`; the client is what its TLS trusts.
  unfoldable pub pinned_client_for : String → String → Net Trust
  pinned_client_for ca_url fingerprint = do
    want ← lift (normalize_fingerprint fingerprint)
    url ← lift (roots_endpoint ca_url)
    body ← fetch w any_chain url
    roots ← lift (parse_roots body)
    pinned ← or_raise (match_fingerprint roots want) fingerprint_mismatch
    verify (anchored_in pinned) url
    pure (anchored_in pinned)
