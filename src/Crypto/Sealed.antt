-- ===== src/Crypto/Sealed.antt =====
-- The box of internal/crypto/crypto.go, and the settings that are stored with it.
use step_ui_ng.Base.{
  String, List, [], ◌∷◌, Option, none, some, false, ◌≡◌, ok, length, ap, subst, All, take, drop,
  take-append, drop-append, ltb, arith, refl, ◌==◌, string_eq, ◌++◌, length-append, Result,
}
use step_ui_ng.Crypto.Box.{
  Bytes, Cipher, IsCipher, seal, open_text, box_seal, box_open, opened, BoxError,
}
use step_ui_ng.Settings.Store.{SettingsEnv}
use step_ui_ng.Settings.Spec.{Command, IsSealer, Represents}
use step_ui_ng.Settings.History.{perform_all, apply_all, perform_all-Refines}

module _ (c : Cipher) where
  -- The nonce is a fresh one of the cipher's size, or `rand.Read` has failed.
  abbrev pub IsNonce : Option Bytes → Type 0
  IsNonce none = Unit
  IsNonce (some nonce) = length nonce ≡ c.nonce_size

  module _ (key : Bytes) where
    -- The box of a call, in the place of the parameters.
    abbrev pub with_box : Option Bytes → SettingsEnv → SettingsEnv
    with_box nonce env = record env { seal = box_seal c key nonce; unseal = box_open c key }

    -- A sequence of calls, each with what its nonce is filled with.
    abbrev pub boxed : List (Option Bytes × SettingsEnv × Command) → List (SettingsEnv × Command)
    boxed [] = []
    boxed ((nonce, env, command) ∷ l) = (with_box nonce env, command) ∷ boxed l

module _ (c : Cipher) (laws : IsCipher c) (key : Bytes) where
  split_take :
      (nonce rest : Bytes) → length nonce ≡ c.nonce_size → take c.nonce_size (nonce ++ rest) ≡ nonce
  split_take nonce rest size =
      subst (λ n. take n (nonce ++ rest) ≡ nonce) size (take-append nonce rest)

  split_drop :
      (nonce rest : Bytes) → length nonce ≡ c.nonce_size → drop c.nonce_size (nonce ++ rest) ≡ rest
  split_drop nonce rest size =
      subst (λ n. drop n (nonce ++ rest) ≡ rest) size (drop-append nonce rest)

  long_enough :
      (nonce rest : Bytes)
      → length nonce ≡ c.nonce_size
      → ltb (length (nonce ++ rest)) c.nonce_size ≡ false
  long_enough nonce rest size = ground (arith, length-append nonce rest)

  same_text : (a b : String) → ◌≡◌ {A = Result BoxError String} (ok a) (ok b) → a ≡ b
  same_text a b e = cc

  same_sealed : (a b : String) → ◌≡◌ {A = Option String} (some a) (some b) → a ≡ b
  same_sealed a b e = cc

  -- What `Seal` returns, `Open` with the same key opens to the plaintext.
  pub open-seal :
      (nonce plain : Bytes) (text : String)
      → length nonce ≡ c.nonce_size
      → seal c key (some nonce) plain ≡ ok text
      → open_text c key text ≡ ok plain
  unfolding seal open_text
  open-seal nonce plain text size e =
      let rest = c.aead_seal key nonce plain in
      subst (λ t. opened c key (c.decode t) ≡ ok plain)
        (same_text (c.encode (nonce ++ rest)) text e)
        (rw (
          laws.decodes (nonce ++ rest),
          long_enough nonce rest size,
          split_take nonce rest size,
          split_drop nonce rest size,
          laws.opens key nonce plain,
        ))

  box_seal-shows :
      (nonce : Bytes) (rest : Bytes)
      → length nonce ≡ c.nonce_size
      → (c.encode (nonce ++ rest) == "") ≡ false
  box_seal-shows [] rest size = absurd (omega (arith, laws.has_nonce))
  box_seal-shows (x ∷ nonce) rest size = laws.shows x (nonce ++ rest)

  box-IsSealer :
      (nonce : Option Bytes) (env : SettingsEnv)
      → IsNonce c nonce
      → IsSealer (box_open c key) (with_box c key nonce env)
  unfolding box_seal box_open seal
  box-IsSealer none env size s t e = absurd (cc e)
  box-IsSealer (some nonce) env size s t e =
      let rest = c.aead_seal key nonce (c.to_bytes s) in
      (
        rw
            (
              open-seal nonce (c.to_bytes s) t size
                  (ap ok (same_sealed (c.encode (nonce ++ rest)) t e)),
              laws.converts s,
            )
            refl,
        subst (λ (u : String). (u == "") ≡ false) (same_sealed (c.encode (nonce ++ rest)) t e)
            (box_seal-shows nonce rest size),
      )

  boxed-IsSealer :
      (l : List (Option Bytes × SettingsEnv × Command))
      → All (λ e. IsNonce c e.0) l
      → All (λ e. IsSealer (box_open c key) e.0) (boxed c key l)
  boxed-IsSealer [] h = tt
  boxed-IsSealer ((nonce, env, command) ∷ l) h = (box-IsSealer nonce env h.0, boxed-IsSealer l h.1)

  -- With the box of internal/crypto, whatever sequence of operations of internal/settings is performed
  -- on a fresh database, whichever of them fail, and whatever nonces of the right size they draw: the
  -- stored row, opened with the key, stands for the settings that the operations that took effect
  -- amount to: those that report no error, and those that report that there are no settings although
  -- there is a row.
  pub boxed-Refines :
      (l : List (Option Bytes × SettingsEnv × Command))
      → All (λ e. IsNonce c e.0) l
      → Represents
          (box_open c key)
          (perform_all (boxed c key l) none)
          (apply_all (boxed c key l) none none)
  boxed-Refines l h =
      perform_all-Refines (box_open c key) (boxed c key l) none none (boxed-IsSealer l h) tt
