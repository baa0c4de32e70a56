-- ===== src/Crypto/Agreement.antt =====
-- The processes that load or create the key at the same time, in any order of their calls.
use step_ui_ng.Base.{
  ℕ, List, [], ◌∷◌, Option, Bool, some, true, false, ◌≡◌, inl, inr, refl, ok, length, ◌==◌, nat_eq,
  sym, subst, Bool-cases, ◌∙◌, All, ◌⊎◌, none, err, Option-cases,
}
use step_ui_ng.Crypto.Box.{Bytes}
use step_ui_ng.Crypto.Files.{File, Files, Fate, Reply, meet, same_index}
use step_ui_ng.Crypto.Key.{
  Prog, ret, ask, Outcome, System, turn, turn_of, moved, run, start, is_tight, key_size,
}
use step_ui_ng.Crypto.Rely.{Stays-refl, Inv, Keeps, Ends, Ends-Later, IsWhole, IsFresh}
use step_ui_ng.Crypto.Calls.{meet-Keeps}
use step_ui_ng.Crypto.Rules.{Post, Post-Stays}
use step_ui_ng.Crypto.Load.{load_or_create-At}

module _ (calm : Bool) (first : Option File) where
  record IsSound (s : System) : Type 0 where
    inv : Inv first s.files
    each : (i : ℕ) → Ends calm first i (Post calm first) (s.procs i) s.files

  -- Every turn's call works, if it is calm.
  abbrev pub Permitted : List (ℕ × Fate) → Type 0
  Permitted = All (λ t. calm ≡ true → t.1.works ≡ true)

  moved-IsSound :
      (s : System) (i : ℕ) (w : Fate) (k : Reply → Prog Outcome) (o : Reply × Files)
      → Keeps i s.files o.1
      → Inv first o.1
      → Ends calm first i (Post calm first) (k o.0) o.1
      → IsSound s
      → IsSound (moved s i k o)
  moved-IsSound s i w k o keeps inv mine sound = record {
    inv = inv;
    each = λ j. elim (Bool-cases (j == i)) [
      | inl x ↦
          rw x
            (subst (λ n. Ends calm first n (Post calm first) (k o.0) o.1) (same_index j i x) mine)
      | inr x ↦ rw x (
          Ends-Later calm first j (Post calm first) (s.procs j) s.files o.1
            (λ a. Post-Stays calm first s.files o.1 keeps.holds a)
            (record { stays = keeps.holds; mine = keeps.others j x }) (sound.each j))
    ];
  }

  turn_of-IsSound :
      (s : System) (i : ℕ) (w : Fate) (p : Prog Outcome)
      → s.procs i ≡ p
      → (calm ≡ true → w.works ≡ true)
      → IsSound s
      → IsSound (turn_of s i w p)
  unfolding Ends
  turn_of-IsSound s i w (ret o) e q sound = sound
  turn_of-IsSound s i w (ask c k) e q sound =
      let here = subst (λ p. Ends calm first i (Post calm first) p s.files) e (sound.each i) in
      let step = here s.files (record { stays = Stays-refl s.files; mine = refl }) sound.inv in
      let (keeps, inv) = meet-Keeps first i w c s.files step.0 sound.inv in
      moved-IsSound s i w k (meet i w c s.files) keeps inv (step.1 w q) sound

  run-IsSound : (ts : List (ℕ × Fate)) (s : System) → Permitted ts → IsSound s → IsSound (run s ts)
  unfolding run turn
  run-IsSound [] s q sound = sound
  run-IsSound ((i, w) ∷ ts) s q sound =
      run-IsSound ts (turn s (i, w)) q.1 (turn_of-IsSound s i w (s.procs i) refl q.0 sound)

start-IsSound : (calm : Bool) (fs : Files) → IsSound calm fs.key (start fs)
start-IsSound calm fs = record {
  inv = record { kept = λ g e. (g, e, refl); fresh = λ e f e'. absurd (cc (sym e ∙ e')) };
  each = λ i. load_or_create-At calm fs.key i fs;
}

-- What a process that has ended with a key knows of the file.
abbrev pub Holds : Files → Bytes → Type 0
Holds fs key =
    (f : File) × (fs.key ≡ some f)
    × (f.content ≡ key)
    × (length key ≡ key_size)
    × (is_tight f.mode ≡ true)

any-Permitted : (first : Option File) (ts : List (ℕ × Fate)) → Permitted false first ts
any-Permitted first [] = tt
any-Permitted first (t ∷ ts) = (λ e. absurd (cc e), any-Permitted first ts)

held :
    (fs : Files) (ts : List (ℕ × Fate)) (i : ℕ) (a : Bytes)
    → (run (start fs) ts).procs i ≡ ret (ok a)
    → Holds (run (start fs) ts).files a
unfolding Ends Post
held fs ts i a e =
    let sound =
      run-IsSound false fs.key ts (start fs) (any-Permitted fs.key ts) (start-IsSound false fs) in
    subst (λ p. Ends false fs.key i (Post false fs.key) p (run (start fs) ts).files) e
      (sound.each i)

same_content : (o : Option File) (f g : File) → o ≡ some f → o ≡ some g → f.content ≡ g.content
same_content o f g e e' = cc

same_key : (fs : Files) (a b : Bytes) → Holds fs a → Holds fs b → a ≡ b
same_key fs a b (f, e, c, l, t) (g, e', c', l', t') = sym c ∙ same_content fs.key f g e e' ∙ c'

-- However the calls of any number of processes that start with the same files are ordered, whichever
-- of them fail, and wherever processes crash: two processes that have ended with a key have the same,
-- it has 32 bytes, and the key's file holds it and is not readable by group or others.
pub one_key :
    (fs : Files) (ts : List (ℕ × Fate)) (i j : ℕ) (a b : Bytes)
    → (run (start fs) ts).procs i ≡ ret (ok a)
    → (run (start fs) ts).procs j ≡ ret (ok b)
    → (a ≡ b) × Holds (run (start fs) ts).files a
one_key fs ts i j a b e e' =
    let h = held fs ts i a e in (same_key (run (start fs) ts).files a b h (held fs ts j b e'), h)

-- The file of the key is never seen unfinished: at any moment it is absent, or holds what the
-- processes found there, or, if they found none, 32 bytes that only the owner reads.
pub key_file :
    (fs : Files) (ts : List (ℕ × Fate)) (f : File)
    → (run (start fs) ts).files.key ≡ some f
    → ((g : File) × (fs.key ≡ some g) × (f.content ≡ g.content)) ⊎ (fs.key ≡ none) × IsFresh f
key_file fs ts f e =
    let inv =
      (run-IsSound false fs.key ts (start fs) (any-Permitted fs.key ts)
        (start-IsSound false fs)).inv in
    elim (Option-cases fs.key) [
      | inl h ↦ inr (h, inv.fresh h f e)
      | inr (g, h) ↦
          let (f', e', c) = inv.kept g h in
          inl (g, h, same_content (run (start fs) ts).files.key f f' e e' ∙ c)
    ]

-- What a process ends with, if its calls and those of the others work and a key that it finds is
-- whole.
pub calm_end :
    (fs : Files) (ts : List (ℕ × Fate)) (i : ℕ) (o : Outcome)
    → IsWhole fs.key
    → Permitted true fs.key ts
    → (run (start fs) ts).procs i ≡ ret o
    → (a : Bytes) × (o ≡ ok a)
unfolding Ends Post
calm_end fs ts i (ok a) whole calm e = (a, refl)
calm_end fs ts i (err x) whole calm e =
    let sound = run-IsSound true fs.key ts (start fs) calm (start-IsSound true fs) in
    absurd (
      subst (λ p. Ends true fs.key i (Post true fs.key) p (run (start fs) ts).files) e
        (sound.each i) refl whole)
