-- ===== src/Crypto/Load.antt =====
-- `loadOrCreateKey` of internal/crypto/crypto.go: a process that runs it ends well.
use step_ui_ng.Base.{
  ℕ, Option, Bool, none, some, ◌≡◌, inl, inr, refl, ok, length, sym, subst, Bool-cases, ◌∙◌,
  Option-cases, nat_eq,
}
use step_ui_ng.Crypto.Box.{Bytes}
use step_ui_ng.Crypto.Files.{
  File, Files, perform, read_key, stat_key, chmod_key, make_dir, content_reply, has_mode,
  mode_reply,
}
use step_ui_ng.Crypto.Key.{
  owner_only, is_tight, key_size, ensure_key_perm, load_or_create_key, checked, moded, loaded,
}
use step_ui_ng.Crypto.Rely.{Inv, Proper}
use step_ui_ng.Crypto.Rules.{Post, At, ret-At, ask-At, try-At, wild-Post}
use step_ui_ng.Crypto.Publish.{create-At, checked_cases}

module _ (calm : Bool) (first : Option File) (i : ℕ) where
  moded-At :
      (key : Bytes) (gs : Files) (g : File)
      → gs.key ≡ some g
      → g.content ≡ key
      → length key ≡ key_size
      → At calm first i (moded key (has_mode g.mode)) gs
  unfolding Proper perform Post
  moded-At key gs g e c size = elim (Bool-cases (is_tight g.mode)) [
    | inl x ↦ rw x (ret-At calm first i (ok key) gs (g, e, c, size, x))
    | inr x ↦ rw x (
        try-At calm first i (chmod_key owner_only) _ _ gs
          (λ hs l inv.
            let (f, e', c', t) = l.stays.key_stays g e in
            (
              refl,
              λ w. (
                rw e',
                ret-At calm first i (ok key) _
                    (record f { mode = owner_only }, rw e', c' ∙ c, size, refl),
              ),
            ))
          (λ gs n. wild-Post calm first i _ gs n))
  ]

  ensure-At :
      (key : Bytes) (fs : Files) (f : File)
      → fs.key ≡ some f
      → f.content ≡ key
      → length key ≡ key_size
      → At calm first i (ensure_key_perm key) fs
  unfolding Proper perform
  ensure-At key fs f e c size =
      ask-At calm first i stat_key _ fs
        (λ gs l inv.
          let (g, e', c', t) = l.stays.key_stays f e in
          (
            tt,
            λ w.
                subst (λ k. At calm first i (moded key (mode_reply k)) gs) (sym e')
                  (moded-At key gs g e' (c' ∙ c) size),
          ))
        (λ gs n. wild-Post calm first i _ gs n)

  -- A key that is absent was not there when the processes started.
  nothing_before : (gs : Files) → gs.key ≡ none → Inv first gs → first ≡ none
  nothing_before gs h inv = elim (Option-cases first) [
    | inl e ↦ e
    | inr (g, e) ↦ let (f, e', c) = inv.kept g e in absurd (cc (sym h ∙ e'))
  ]

  loaded-At :
      (gs : Files) → Inv first gs → At calm first i (loaded (checked (content_reply gs.key))) gs
  unfolding Proper perform Post
  loaded-At gs inv = elim (Option-cases gs.key) [
    | inl h ↦
        subst (λ k. At calm first i (loaded (checked (content_reply k))) gs) (sym h)
          (try-At calm first i make_dir _ _ gs
            (λ hs l inv'. (tt, λ w. (refl, create-At calm first i (nothing_before gs h inv) hs)))
            (λ hs n. wild-Post calm first i _ hs n))
    | inr (f, h) ↦ elim (checked_cases first gs f h inv) [
      | inl (x, size) ↦
          subst (λ o. At calm first i (loaded o) gs) x (ensure-At f.content gs f h refl size)
      | inr (x, n) ↦
          subst (λ o. At calm first i (loaded o) gs) x (ret-At calm first i _ gs (λ q. n))
    ]
  ]

  -- The whole of `loadOrCreateKey`.
  pub load_or_create-At : (fs : Files) → At calm first i load_or_create_key fs
  unfolding load_or_create_key Proper perform
  load_or_create-At fs =
      ask-At calm first i read_key _ fs (λ gs l inv. (tt, λ w. loaded-At gs inv))
        (λ gs n. wild-Post calm first i _ gs n)
