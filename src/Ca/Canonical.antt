-- ===== src/Ca/Canonical.antt =====
-- The fingerprints that internal/ca and internal/settings accept, and what a connection makes of them.
use Prim.Native.Char.{code}
use Prim.Native.String.{len}
use step_ui_ng.Base.{
  ℕ, String, ◌≡◌, ◌==◌, true, false, refl, arith, nat_eq, ◌≤◌, ok, subst, leb, ◌&&◌,
}
use step_ui_ng.Ca.Fingerprint.{
  decodes_as_hex, is_hex, canonical, valid_fingerprint, normalize_fingerprint, canonical-trim_space,
}
use step_ui_ng.Base.Prefix.{
  remove_all, to_lower, IsLower, IsLower-remove_all, IsLower-to_lower, to_lower-IsLower,
}
use step_ui_ng.Base.Text.{is_space, IsSolid, trim_space-IsSolid, trim_space}
use step_ui_ng.Settings.Repo.{validate_fingerprint}
use step_ui_ng.Settings.Refines.{validate_fingerprint-eq-ok}

abbrev AllHex : String → Type 0
AllHex String.[] = Unit
AllHex (String.◌∷◌ c s) = (is_hex (code c) ≡ true) × AllHex s

decodes-AllHex : (s : String) → decodes_as_hex s ≡ true → AllHex s
unfolding decodes_as_hex
decodes-AllHex String.[] h = tt
decodes-AllHex (String.◌∷◌ c String.[]) h = absurd (ground arith)
decodes-AllHex (String.◌∷◌ c (String.◌∷◌ d s)) h =
    (ground arith, (ground arith, decodes-AllHex s (ground arith)))

AllHex-IsSolid : (s : String) → AllHex s → IsSolid s
unfolding is_hex is_space
AllHex-IsSolid String.[] h = tt
AllHex-IsSolid (String.◌∷◌ c s) h = (ground (arith, h.0), AllHex-IsSolid s h.1)

-- No hexadecimal digit is a separator.
remove_all-AllHex :
    (sep : ℕ) (s : String)
    → ((c : ℕ) → is_hex c ≡ true → (c == sep) ≡ false)
    → AllHex s
    → remove_all sep s ≡ s
unfolding remove_all
remove_all-AllHex sep String.[] apart h = refl
remove_all-AllHex sep (String.◌∷◌ c s) apart h =
    rw (apart (code c) h.0, remove_all-AllHex sep s apart h.1)

dash-apart : (c : ℕ) → is_hex c ≡ true → (c == b'-') ≡ false
unfolding is_hex
dash-apart c h = ground arith

colon-apart : (c : ℕ) → is_hex c ≡ true → (c == b':') ≡ false
unfolding is_hex
colon-apart c h = ground arith

canonical-IsLower : (fp : String) → IsLower (canonical fp)
unfolding canonical
canonical-IsLower fp =
    IsLower-remove_all b'-' (remove_all b':' (to_lower (trim_space fp)))
      (IsLower-remove_all b':' (to_lower (trim_space fp)) (IsLower-to_lower (trim_space fp)))

canonical-AllHex : (s : String) → AllHex s → IsLower s → canonical s ≡ s
unfolding canonical
canonical-AllHex s h l =
    rw
      (
        trim_space-IsSolid s (AllHex-IsSolid s h),
        to_lower-IsLower s l,
        remove_all-AllHex b':' s colon-apart h,
        remove_all-AllHex b'-' s dash-apart h,
      )
      refl

-- What a fingerprint must be to be compared with a SHA-256 or SHA-1 sum: 40 to 64 hexadecimal digits
-- in pairs, in lower case.
abbrev pub IsSum : String → Type 0
IsSum s = (40 ≤ len s) × (len s ≤ 64) × (decodes_as_hex s ≡ true) × IsLower s

valid-IsSum : (fp : String) → valid_fingerprint fp ≡ true → IsSum (canonical fp)
unfolding valid_fingerprint
valid-IsSum fp h = (ground arith, ground arith, ground arith, canonical-IsLower fp)

canonical_idem :
    (fp : String) → valid_fingerprint fp ≡ true → canonical (canonical fp) ≡ canonical fp
canonical_idem fp h =
    canonical-AllHex (canonical fp) (decodes-AllHex (canonical fp) (valid-IsSum fp h).2)
      (canonical-IsLower fp)

valid_fingerprint-canonical :
    (fp : String) → valid_fingerprint fp ≡ true → valid_fingerprint (canonical fp) ≡ true
unfolding valid_fingerprint
valid_fingerprint-canonical fp h = rw (canonical_idem fp h) h

normalize-valid :
    (fp : String) → valid_fingerprint fp ≡ true → normalize_fingerprint fp ≡ ok (canonical fp)
unfolding normalize_fingerprint
normalize-valid fp h = rw (valid_fingerprint-canonical fp h)

accepted :
    (raw stored : String)
    → validate_fingerprint raw ≡ ok stored
    → valid_fingerprint (trim_space raw) ≡ true
unfolding validate_fingerprint
accepted raw stored h = ground arith

-- A text that the settings accept as a fingerprint is stored trimmed, and a connection with the
-- stored text never reports an invalid fingerprint: it looks for the same sum as with the text that
-- was entered, which consists of 40 to 64 hexadecimal digits in pairs and in lower case.
pub validate_fingerprint-normalize :
    (raw stored : String)
    → validate_fingerprint raw ≡ ok stored
    → (stored ≡ trim_space raw)
      × (normalize_fingerprint stored ≡ ok (canonical raw))
      × (normalize_fingerprint raw ≡ ok (canonical raw))
      × IsSum (canonical raw)
unfolding valid_fingerprint
validate_fingerprint-normalize raw stored h =
    let e = validate_fingerprint-eq-ok raw stored h in
    let valid = accepted raw stored h in
    let valid_raw : valid_fingerprint raw ≡ true =
      subst (λ s. (leb 40 (len s) && leb (len s) 64 && decodes_as_hex s) ≡ true)
        (canonical-trim_space raw) valid in
    (
      e,
      rw (e, ← canonical-trim_space raw) (normalize-valid (trim_space raw) valid),
      normalize-valid raw valid_raw,
      valid-IsSum raw valid_raw,
    )
