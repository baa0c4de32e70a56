-- ===== src/Crypto/Rely.antt =====
-- What one process of the key's code may rely on while the others run, and what it has to keep.
use step_ui_ng.Base.{ℕ, Option, none, some, true, false, ◌≡◌, refl, length, ◌==◌, nat_eq, ◌∙◌, Bool}
use step_ui_ng.Crypto.Files.{File, Files, Sys, chmod_key, link_temp, Fate, meet}
use step_ui_ng.Crypto.Key.{◌>>=◌, owner_only, is_tight, key_size, Prog, ret, ask}

-- A file that holds a whole key and is its owner's only.
abbrev pub IsFresh : File → Type 0
IsFresh f = (length f.content ≡ key_size) × (f.mode ≡ owner_only)

-- The key that is there stays, with its content, and its mode is not loosened.
pub record Stays (fs gs : Files) : Type 0 where
  pub key_stays :
      (f : File)
      → fs.key ≡ some f
      → (g : File) × (gs.key ≡ some g)
        × (g.content ≡ f.content)
        × (is_tight f.mode ≡ true → is_tight g.mode ≡ true)

pub Stays-refl : (fs : Files) → Stays fs fs
Stays-refl fs = record { key_stays = λ f e. (f, e, refl, λ t. t) }

pub Stays-trans : {fs gs hs : Files} → Stays fs gs → Stays gs hs → Stays fs hs
Stays-trans a b = record {
  key_stays = λ f e.
      let (g, e1, c1, t1) = a.key_stays f e in
      let (h, e2, c2, t2) = b.key_stays g e1 in (h, e2, c2 ∙ c1, λ t. t2 (t1 t));
}

-- What process `i` meets after steps of the others.
pub record Later (i : ℕ) (fs gs : Files) : Type 0 where
  pub stays : Stays fs gs
  pub mine : gs.temp i ≡ fs.temp i

-- The first content of the key's file, if it was there when the processes started.
module _ (first : Option File) where
  pub record Inv (fs : Files) : Type 0 where
    pub kept :
        (g : File) → first ≡ some g → (f : File) × (fs.key ≡ some f) × (f.content ≡ g.content)
    pub fresh : first ≡ none → (f : File) → fs.key ≡ some f → IsFresh f

-- A key that the processes found was whole.
abbrev pub IsWhole : Option File → Type 0
IsWhole first = (g : File) → first ≡ some g → length g.content ≡ key_size

-- What a process may ask for: only an owner's mode, and to publish only a whole key.
unfoldable pub Proper : ℕ → Sys → Files → Type 0
Proper i (chmod_key m) gs = m ≡ owner_only
Proper i link_temp gs = (f : File) → gs.temp i ≡ some f → IsFresh f
Proper i _ gs = Unit

-- A call keeps the key, and the temporary files of the others.
pub record Keeps (i : ℕ) (gs hs : Files) : Type 0 where
  pub holds : Stays gs hs
  pub others : (j : ℕ) → (j == i) ≡ false → hs.temp j ≡ gs.temp j

module _ (calm : Bool) (first : Option File) where
  -- The process is where every run of it, whatever the others do in between and whatever its own
  -- calls meet, is proper and ends with a result for which `post` holds. In calm, its calls work.
  unfoldable pub Ends : {A : Type 0} → ℕ → (A → Files → Type 0) → Prog A → Files → Type 0
  Ends i post (ret a) fs = post a fs
  Ends i post (ask c k) fs =
      (gs : Files)
      → Later i fs gs
      → Inv first gs
      → Proper i c gs
        × ((w : Fate)
            → (calm ≡ true → w.works ≡ true)
            → Ends i post (k (meet i w c gs).0) (meet i w c gs).1)

  pub Ends-bind :
      {A B : Type 0} (i : ℕ) (mid : A → Files → Type 0) (post : B → Files → Type 0) (p : Prog A)
      (f : A → Prog B) (fs : Files)
      → ((a : A) (gs : Files) → mid a gs → Ends i post (f a) gs)
      → Ends i mid p fs
      → Ends i post (p >>= f) fs
  unfolding Ends ◌>>=◌
  Ends-bind i mid post (ret a) f fs next h = next a fs h
  Ends-bind i mid post (ask c k) f fs next h = λ gs l inv. (
    (h gs l inv).0,
    λ w q. Ends-bind i mid post (k (meet i w c gs).0) f (meet i w c gs).1 next ((h gs l inv).1 w q),
  )

  pub Ends-Later :
      {A : Type 0} (i : ℕ) (post : A → Files → Type 0) (p : Prog A) (fs gs : Files)
      → ((a : A) → post a fs → post a gs)
      → Later i fs gs
      → Ends i post p fs
      → Ends i post p gs
  unfolding Ends
  Ends-Later i post (ret a) fs gs stable l h = stable a h
  Ends-Later i post (ask c k) fs gs stable l h =
      λ hs m inv. h hs (record { stays = Stays-trans l.stays m.stays; mine = m.mine ∙ l.mine }) inv
