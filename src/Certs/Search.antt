-- ===== src/Certs/Search.antt =====
-- The search term of the inventory, as SQLite reads it.
use Prim.Native.Char.{Char, code}
use step_ui_ng.Base.{
  Bool, String, List, [], false, ◌∷◌, ◌≡◌, if◌then◌else◌, Bool-cases, ◌==◌, true, inl, arith,
  nat_eq, inr, refl,
}
use step_ui_ng.Certs.Inventory.{escape_like, escape_char}

-- What a pattern of `LIKE` is made of.
pub data Token : Type 0 where
  any_run any_one : Token
  literal : Char → Token

-- How SQLite documents `LIKE` with ESCAPE '\': `%` stands for any run, `_` for any one character, and a
-- character behind the escape character for itself. The flag says that the escape character came last.
unfoldable pub tokens : Bool → String → List Token
tokens escaped String.[] = []
tokens true (String.◌∷◌ c s) = literal c ∷ tokens false s
tokens false (String.◌∷◌ c s) =
    let rest = tokens false s in
    if code c == b'\\'
    then tokens true s
    else (if code c == b'%' then any_run else if code c == b'_' then any_one else literal c) ∷ rest

abbrev pub literals : String → List Token
literals String.[] = []
literals (String.◌∷◌ c s) = literal c ∷ literals s

-- Whatever is searched for is looked for as it stands: the pattern that `List` makes of a term has one
-- literal for each of its characters, also for `%`, `_` and the backslash.
pub escape_like-literal : (s : String) → tokens false (escape_like s) ≡ literals s
unfolding tokens escape_like escape_char
escape_like-literal String.[] = refl
escape_like-literal (String.◌∷◌ c s) = elim (Bool-cases (code c == b'\\')) [
  | inl e ↦ ground (arith, e, escape_like-literal s)
  | inr e ↦ elim (Bool-cases (code c == b'%')) [
    | inl f ↦ ground (arith, e, f, escape_like-literal s)
    | inr f ↦ elim (Bool-cases (code c == b'_')) [
      | inl g ↦ ground (arith, e, f, g, escape_like-literal s)
      | inr g ↦ ground (arith, e, f, g, escape_like-literal s)
    ]
  ]
]
