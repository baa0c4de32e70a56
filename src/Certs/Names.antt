-- ===== src/Certs/Names.antt =====
-- internal/certs/inventory.go: the provisioners that the stored certificates name.
use step_ui_ng.Certs.Monad.{◌>>=◌, ◌>>◌}
use Prim.Native.String.{compare}
use Prim.Native.Nat.{Ordering}
use step_ui_ng.Base.{
  String, Option, List, ◌∷◌, some, if◌then◌else◌, none, [], ◌==◌, ◌≡◌, refl, string_eq,
}
use step_ui_ng.Certs.World.{World, list_names, failed}
use step_ui_ng.Certs.Store.{CertRow, Op, raise_if, gets, pure}

-- SQLite compares texts by their bytes in UTF-8, which is the order of their characters.
unfoldable pub insert_name : String → List String → List String
insert_name name [] = name ∷ []
insert_name name (n ∷ ns) =
    let rest = insert_name name ns in
    elim (compare name n) [
      | Ordering.lt ↦ name ∷ n ∷ ns
      | Ordering.eq ↦ n ∷ ns
      | Ordering.gt ↦ n ∷ rest
    ]

abbrev pub with_name : Option String → List String → List String
with_name none names = names
with_name (some name) names = if name == "" then names else insert_name name names

-- The query of `ListProvisioners`: distinct names, in their order, without NULL and "".
unfoldable pub names_in : List CertRow → List String
names_in [] = []
names_in (r ∷ rs) = with_name r.provisioner (names_in rs)

-- `ListProvisioners`
unfoldable pub list_provisioner_names : World → Op (List String)
list_provisioner_names w = do
  raise_if (w.fails list_names) (failed list_names)
  rows ← gets (λ db. db.certificates.rows)
  pure (names_in rows)

names_in_tests :
    (r : CertRow)
    → names_in (
        record r { provisioner = some "b" }
        ∷ record r { provisioner = some "" }
        ∷ record r { provisioner = some "a" }
        ∷ record r { provisioner = none }
        ∷ record r { provisioner = some "b" }
        ∷ [])
      ≡ "a" ∷ "b" ∷ []
unfolding names_in insert_name
names_in_tests r = refl
