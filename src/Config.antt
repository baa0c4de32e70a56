-- ===== src/Config.antt =====
-- internal/config/config.go: the configuration from the environment and the flags.
use step_ui_ng.Base.{
  none, some, true, false, [], ◌∷◌, ◌==◌, string_eq, nat_eq, ◌||◌, ◌&&◌, String, Bool,
  if◌then◌else◌, ◌≡◌, not, Bool-cases, inl, inr, refl, Option, List,
}
use Prim.Native.Char.{code, Char}
use step_ui_ng.Base.Text.{concat}
use step_ui_ng.Base.Prefix.{to_lower}
use step_ui_ng.Pages.Fields.{is_positive}
use step_ui_ng.Base.Int.{ℤ, pos}
use step_ui_ng.Pages.Handlers.{default_renew_days}
use step_ui_ng.Base.Number.{atoi}

-- `Config`
pub record Config : Type 0 where
  pub addr : String
  pub data_dir : String
  pub secure_cookies : Bool
  pub renew_default_days : ℤ

-- `os.Getenv` is given; a variable that is not set reads as the empty text.
abbrev pub Environment : Type 0
Environment = String → String

abbrev pub env_or : Environment → String → String → String
env_or getenv key def = if not (getenv key == "") then getenv key else def

-- `boolEnv`
abbrev pub bool_env : Environment → String → Bool
bool_env getenv key = let v = to_lower (getenv key) in v == "1" || v == "true"

-- `intEnv`
abbrev pub int_env : Environment → String → ℤ → ℤ
int_env getenv key def =
    let (n, valid) = atoi (getenv key) in if valid && is_positive n then n else def

-- `Load`
unfoldable pub load : Environment → Config
load getenv = record {
  addr = concat (":" ∷ env_or getenv "PORT" "8080" ∷ []);
  data_dir = env_or getenv "DATA_DIR" "./data";
  secure_cookies = bool_env getenv "COOKIE_SECURE";
  renew_default_days = int_env getenv "RENEW_DEFAULT_DAYS" default_renew_days;
}

-- The flags that were set, with their values.
pub record Flags : Type 0 where
  pub addr : Option String
  pub data_dir : Option String
  pub cookie_secure : Option Bool
  pub renew_default_days : Option ℤ
  pub version : Option Bool

abbrev pub no_flags : Flags
no_flags = record {
  addr = none;
  data_dir = none;
  cookie_secure = none;
  renew_default_days = none;
  version = none;
}

-- What `parseOne` of the package `flag` makes of one argument: the end of the flags, a bad flag, or a
-- name with the value behind an equals sign.
pub data Token : Type 0 where
  stop bad : Token
  named : String → Option String → Token

-- The name up to the first equals sign that is not its first character, and the rest.
abbrev pub with_char : Char → String × Option String → String × Option String
with_char c (name, value) = (String.◌∷◌ c name, value)

unfoldable pub cut_equals : String → String × Option String
cut_equals String.[] = (String.[], none)
cut_equals (String.◌∷◌ c s) =
    let rest = cut_equals s in if code c == b'=' then (String.[], some s) else with_char c rest

abbrev pub token_of_name : String → Token
token_of_name String.[] = bad
token_of_name (String.◌∷◌ c s) =
    let (name, value) = cut_equals s in
    if code c == b'-' || code c == b'=' then bad else named (String.◌∷◌ c name) value

abbrev pub token_of_dash : String → Token
token_of_dash String.[] = stop
token_of_dash (String.◌∷◌ c s) =
    if code c == b'-'
    then (if s == "" then stop else token_of_name s)
    else token_of_name (String.◌∷◌ c s)

unfoldable pub token_of : String → Token
token_of String.[] = stop
token_of (String.◌∷◌ c s) = if code c == b'-' then token_of_dash s else stop

-- `strconv.ParseBool`
unfoldable pub parse_bool : String → Option Bool
parse_bool s =
    if s == "1" || s == "t" || s == "T" || s == "TRUE" || s == "true" || s == "True"
    then some true
    else if s == "0" || s == "f" || s == "F" || s == "FALSE" || s == "false" || s == "False"
    then some false
    else none

abbrev pub or_set : {A : Type 0} → Option A → A → A
or_set none a = a
or_set (some b) a = b

abbrev pub is_bool_flag : String → Bool
is_bool_flag name = name == "cookie-secure" || name == "version"

-- The `Set` of a flag; `strconv.ParseInt` at base 0 is given.
module _ (parse_int : String → Option ℤ) where
  abbrev pub with_days : Flags → Option ℤ → Option Flags
  with_days fl none = none
  with_days fl (some n) = some (record fl { renew_default_days = some n })

  abbrev pub with_cookie : Flags → Option Bool → Option Flags
  with_cookie fl none = none
  with_cookie fl (some b) = some (record fl { cookie_secure = some b })

  abbrev pub with_version : Flags → Option Bool → Option Flags
  with_version fl none = none
  with_version fl (some b) = some (record fl { version = some b })

  unfoldable pub set_flag : String → String → Flags → Option Flags
  set_flag name value fl =
      if name == "addr"
      then some (record fl { addr = some value })
      else if name == "data-dir"
      then some (record fl { data_dir = some value })
      else if name == "cookie-secure"
      then with_cookie fl (parse_bool value)
      else if name == "renew-default-days"
      then with_days fl (parse_int value)
      else if name == "version"
      then with_version fl (parse_bool value)
      else none

  -- A flag that has its value, or needs none.
  abbrev pub complete : String → Option String → Option String
  complete name (some value) = some value
  complete name none = if is_bool_flag name then some "true" else none

  -- `Parse`; `none` is an error.
  unfoldable pub parse_flags : List String → Flags → Option Flags
  parse_flags [] fl = some fl
  parse_flags (s ∷ []) fl = elim (token_of s) [
    | stop ↦ some fl
    | bad ↦ none
    | named name value ↦ elim (complete name value) [ none ↦ none | some v ↦ set_flag name v fl ]
  ]
  parse_flags (s ∷ next ∷ args) fl = elim (token_of s) [
    | stop ↦ some fl
    | bad ↦ none
    | named name value ↦ elim (complete name value) [
      | some v ↦ elim (set_flag name v fl) [
        | none ↦ none
        | some fl' ↦ parse_flags (next ∷ args) fl'
      ]
      | none ↦ elim (set_flag name next fl) [ none ↦ none | some fl' ↦ parse_flags args fl' ]
    ]
  ]

  abbrev pub overridden : Config → Flags → Config
  overridden cfg fl = record {
    addr = or_set fl.addr cfg.addr;
    data_dir = or_set fl.data_dir cfg.data_dir;
    secure_cookies = or_set fl.cookie_secure cfg.secure_cookies;
    renew_default_days = or_set fl.renew_default_days cfg.renew_default_days;
  }

  -- `LoadWithFlags`, with `showVersion`.
  unfoldable pub load_with_flags : Environment → List String → Option (Config × Bool)
  load_with_flags getenv args = elim (parse_flags args no_flags) [
    | none ↦ none
    | some fl ↦ some (overridden (load getenv) fl, or_set fl.version false)
  ]

-- A variable overrides a default, and a flag both.
precedence_test :
    load_with_flags
      (λ s. none)
      (λ key. if key == "PORT" then "9" else "")
      ("--data-dir" ∷ "/d" ∷ "-cookie-secure" ∷ "-version=f" ∷ "rest" ∷ [])
    ≡ some (
      record { addr = ":9"; data_dir = "/d"; secure_cookies = true; renew_default_days = pos 90 },
      false,
    )
unfolding load_with_flags parse_flags token_of cut_equals set_flag parse_bool load to_lower atoi
precedence_test = refl

positive_of : (a b : Bool) → (a && b) ≡ true → b ≡ true
positive_of true b h = h
positive_of false b h = absurd (cc h)

-- The environment always gives a positive number of days.
is_positive-load : (getenv : Environment) → is_positive (load getenv).renew_default_days ≡ true
unfolding load
is_positive-load getenv =
    let (n, valid) = atoi (getenv "RENEW_DEFAULT_DAYS") in
    elim (Bool-cases (valid && is_positive n)) [
      | inl x ↦ rw x (positive_of valid (is_positive n) x)
      | inr x ↦ rw x refl
    ]
