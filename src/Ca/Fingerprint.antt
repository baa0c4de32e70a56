-- ===== src/Ca/Fingerprint.antt =====
-- internal/ca/ca.go: the errors of the package, and what it accepts as a root fingerprint and as the
-- URL of a CA.
use Prim.Native.Char.{code}
use Prim.Native.String.{len, ◌++◌}
use step_ui_ng.Base.{
  ℕ, String, Bool, Result, leb, true, if◌then◌else◌, ◌≡◌, ◌&&◌, false, ok, ◌||◌, err,
}
use step_ui_ng.Base.Prefix.{remove_all, to_lower, trim_right_slash, has_prefix}
use step_ui_ng.Base.Text.{trim_space, trim_space_idem}

-- The sentinel errors of internal/ca; `other_error` is any error without one.
pub data CaError : Type 0 where
  invalid_fingerprint unreachable bad_tls fingerprint_mismatch malformed_response
        provisioner_not_found provisioner_key ca_invalid_csr sign_rejected sign_failed
        revoke_invalid revoke_failed admin_unauthorized admin_request_failed
        invalid_admin_credential invalid_provisioner other_error :
      CaError

abbrev pub min_fingerprint_len : ℕ
min_fingerprint_len = 40

abbrev pub max_fingerprint_len : ℕ
max_fingerprint_len = 64

-- A hexadecimal digit, as `hex.DecodeString` reads it.
unfoldable pub is_hex : ℕ → Bool
is_hex c = leb b'0' c && leb c b'9' || leb b'a' c && leb c b'f' || leb b'A' c && leb c b'F'

-- `hex.DecodeString` returns no error: hexadecimal digits in pairs.
unfoldable pub decodes_as_hex : String → Bool
unfolding is_hex
decodes_as_hex String.[] = true
decodes_as_hex (String.◌∷◌ c String.[]) = false
decodes_as_hex (String.◌∷◌ c (String.◌∷◌ d s)) =
    is_hex (code c) && is_hex (code d) && decodes_as_hex s

-- The text without spaces around it, in lower case and without separators. (Letters outside of
-- ASCII are left alone; Go changes some of them, none to a hexadecimal digit.)
unfoldable pub canonical : String → String
canonical fp = remove_all b'-' (remove_all b':' (to_lower (trim_space fp)))

-- `ValidFingerprint`
unfoldable pub valid_fingerprint : String → Bool
valid_fingerprint fp =
    let s = canonical fp in
    leb min_fingerprint_len (len s) && leb (len s) max_fingerprint_len && decodes_as_hex s

-- `normalizeFingerprint`
unfoldable pub normalize_fingerprint : String → Result CaError String
normalize_fingerprint fp =
    let s = canonical fp in if valid_fingerprint s then ok s else err invalid_fingerprint

-- `baseURL`
unfoldable pub base_url : String → Result CaError String
base_url ca_url =
    let u = trim_right_slash (trim_space ca_url) in
    if has_prefix u "https://" then ok u else err bad_tls

-- `rootsEndpoint`
unfoldable pub roots_endpoint : String → Result CaError String
roots_endpoint ca_url =
    let u = trim_right_slash (trim_space ca_url) in
    if has_prefix u "https://" then ok (u ++ "/roots") else err bad_tls

pub canonical-trim_space : (fp : String) → canonical (trim_space fp) ≡ canonical fp
unfolding canonical
canonical-trim_space fp = rw (trim_space_idem fp)
