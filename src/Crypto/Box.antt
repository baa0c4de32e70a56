-- ===== src/Crypto/Box.antt =====
-- internal/crypto/crypto.go: to seal and to open a secret. AES-256-GCM and base64 are parameters.
use step_ui_ng.Base.{
  ℕ, String, List, Option, Result, none, some, ok, err, ◌++◌, ◌≡◌, ltb, length, take, drop,
  if◌then◌else◌, ◌≤◌, ◌∷◌, ◌==◌, false, string_eq,
}

-- The bytes of a secret, a key, a nonce or a sealed text, each below 256.
abbrev pub Bytes : Type 0
Bytes = List ℕ

-- The AEAD that a key selects, the standard base64 encoding, and the bytes of a text.
pub record Cipher : Type 0 where
  pub nonce_size : ℕ
  pub aead_seal : Bytes → Bytes → Bytes → Bytes
  pub aead_open : Bytes → Bytes → Bytes → Option Bytes
  pub encode : Bytes → String
  pub decode : String → Option Bytes
  pub to_bytes : String → Bytes
  pub of_bytes : Bytes → String

-- What the packages that the source calls, and the conversions `[]byte(s)` and `string(b)`, document:
-- each is undone by its counterpart, a nonce has a byte, and a byte is not encoded as no text.
pub record IsCipher (c : Cipher) : Type 0 where
  pub opens :
      (key nonce plain : Bytes) → c.aead_open key nonce (c.aead_seal key nonce plain) ≡ some plain
  pub decodes : (raw : Bytes) → c.decode (c.encode raw) ≡ some raw
  pub converts : (s : String) → c.of_bytes (c.to_bytes s) ≡ s
  pub has_nonce : 1 ≤ c.nonce_size
  pub shows : (x : ℕ) (raw : Bytes) → (c.encode (x ∷ raw) == "") ≡ false

pub data BoxError : Type 0 where
  no_nonce not_base64 too_short not_authentic : BoxError

module _ (c : Cipher) (key : Bytes) where
  -- `Box.Seal`, with what `rand.Read` fills the nonce with, if it works.
  unfoldable pub seal : Option Bytes → Bytes → Result BoxError String
  seal none plain = err no_nonce
  seal (some nonce) plain = ok (c.encode (nonce ++ c.aead_seal key nonce plain))

  abbrev pub authenticated : Option Bytes → Result BoxError Bytes
  authenticated none = err not_authentic
  authenticated (some plain) = ok plain

  abbrev pub opened : Option Bytes → Result BoxError Bytes
  opened none = err not_base64
  opened (some raw) =
      if ltb (length raw) c.nonce_size
      then err too_short
      else authenticated (c.aead_open key (take c.nonce_size raw) (drop c.nonce_size raw))

  -- `Box.Open`
  unfoldable pub open_text : String → Result BoxError Bytes
  open_text text = opened (c.decode text)

  abbrev pub text_or_none : Result BoxError Bytes → Option String
  text_or_none (err e) = none
  text_or_none (ok plain) = some (c.of_bytes plain)

  abbrev pub sealed_or_none : Result BoxError String → Option String
  sealed_or_none (err e) = none
  sealed_or_none (ok text) = some text

  -- `box.Seal([]byte(s))`, and `box.Open` with `string(plain)`, as the callers use them.
  unfoldable pub box_seal : Option Bytes → String → Option String
  box_seal nonce s = sealed_or_none (seal nonce (c.to_bytes s))

  unfoldable pub box_open : String → Option String
  box_open text = text_or_none (open_text text)
