-- ===== src/Crypto/Publish.antt =====
-- `createKey` of internal/crypto/crypto.go: the process that publishes its key, and one that adopts
-- the key of another.
use step_ui_ng.Base.{
  ℕ, Option, Bool, none, some, true, ◌≡◌, inl, inr, refl, ok, err, length, sym, ap, subst,
  Bool-cases, ◌∙◌, Option-cases, ◌==◌, nat_eq, ◌⊎◌, arith,
}
use step_ui_ng.Crypto.Box.{Bytes}
use step_ui_ng.Crypto.Files.{
  File, Files, perform, perform_broken, read_key, draw, create_temp, write_temp, chmod_temp,
  sync_temp, close_temp, link_temp, remove_temp, with_mode, link, content_reply, set_temp-temp,
  length-fill, with_content,
}
use step_ui_ng.Crypto.Key.{
  Prog, Outcome, owner_only, is_tight, key_size, try_call, load_key, close_after, link_key,
  publish_key, removed, with_temp, create_key, checked, wrong_size, linked, no_close, no_sync,
  no_temp_mode,
}
use step_ui_ng.Crypto.Rely.{IsFresh, Inv, Proper, Ends-bind, IsWhole}
use step_ui_ng.Crypto.Rules.{
  Post, At, ask-At, ret-At, try-At, call-At, wild-Post, close_after-At, Post-Stays,
}

module _ (first : Option File) where
  short : (f f' : File) (b : Bytes) → f' ≡ f → f'.content ≡ b → b ≡ f.content
  short f f' b e c = cc

  same_file : (g f : File) → ◌≡◌ {A = Option File} (some g) (some f) → f ≡ g
  same_file g f e = cc

  -- The key that is there is read, and is whole if the key that the processes found was.
  pub checked_cases :
      (gs : Files) (f : File)
      → gs.key ≡ some f
      → Inv first gs
      → (ok f.content ≡ checked (content_reply gs.key)) × (length f.content ≡ key_size)
        ⊎ (err wrong_size ≡ checked (content_reply gs.key)) × ¬ IsWhole first
  checked_cases gs f e inv = elim (Bool-cases (length f.content == key_size)) [
    | inl x ↦ inl (rw (e, x), ground arith)
    | inr x ↦ inr (
      rw (e, x),
      λ whole. elim (Option-cases first) [
        | inl h ↦ ground (arith, (inv.fresh h f e).0)
        | inr (g, h) ↦
            let (f', e', c) = inv.kept g h in
            let same =
              subst (λ b. length b ≡ key_size) (short f f' g.content (cc (sym e' ∙ e)) c)
                (whole g h) in
            ground arith
      ],
    )
  ]

module _ (calm : Bool) (first : Option File) (i : ℕ) where
  adopt-At : (fs : Files) (f : File) → first ≡ none → fs.key ≡ some f → At calm first i load_key fs
  unfolding Proper perform Post
  adopt-At fs f none_first e =
      ask-At calm first i read_key _ fs
        (λ gs l inv.
          let (g, e', c, t) = l.stays.key_stays f e in
          let (whole, mode) = inv.fresh none_first g e' in
          (
            tt,
            λ w. elim (checked_cases first gs g e' inv) [
              | inl (x, b) ↦
                  subst (λ o. At calm first i (Prog.ret o) gs) x
                    (ret-At calm first i _ gs (g, e', refl, whole, rw mode refl))
              | inr (x, n) ↦
                  subst (λ o. At calm first i (Prog.ret o) gs) x (ret-At calm first i _ gs (λ q. n))
            ],
          ))
        (λ gs n. wild-Post calm first i _ gs n)

  linked-At :
      (key : Bytes) (k o : Option File) (f : File) (gs : Files)
      → first ≡ none
      → gs.key ≡ k
      → o ≡ some f
      → IsFresh f
      → f.content ≡ key
      → At calm first i (linked key (link k o gs).0) (link k o gs).1
  unfolding Post
  linked-At key (some g) o f gs none_first h e whole c = adopt-At gs g none_first h
  linked-At key none none f gs none_first h e whole c = absurd (cc e)
  linked-At key none (some g) f gs none_first h e whole c = ret-At calm first i _ _ (
    g,
    refl,
    cc,
    subst (λ b. length b ≡ key_size) c whole.0,
    subst (λ (x : File). is_tight x.mode ≡ true) (same_file first g f e) (rw whole.1 refl),
  )

  link-At :
      (key : Bytes) (fs : Files) (f : File)
      → first ≡ none
      → fs.temp i ≡ some f
      → IsFresh f
      → f.content ≡ key
      → At calm first i (link_key key) fs
  unfolding Proper perform Post
  link-At key fs f none_first e whole c =
      ask-At calm first i link_temp _ fs
        (λ gs l inv. (
          λ g e'. subst IsFresh (cc (sym e ∙ sym l.mine ∙ e')) whole,
          λ w. linked-At key gs.key (gs.temp i) f gs none_first refl (l.mine ∙ e) whole c,
        ))
        (λ gs n. wild-Post calm first i _ gs n)

  -- From each call on the temporary file on, by what it holds.
  module _ (none_first : first ≡ none) (key : Bytes) (size : length key ≡ key_size) where
    close-At :
        (fs : Files)
        → fs.temp i ≡ some (record { content = key; mode = owner_only })
        → At calm first i (try_call close_temp (Prog.ret (err no_close)) (link_key key)) fs
    unfolding Proper perform
    close-At fs e =
        try-At calm first i close_temp _ _ fs
          (λ gs l inv.
            (tt, λ w. (refl, link-At key gs _ none_first (l.mine ∙ e) (size, refl) refl)))
          (λ gs n. wild-Post calm first i _ gs n)

    sync-At :
        (fs : Files)
        → fs.temp i ≡ some (record { content = key; mode = owner_only })
        → At calm first i
            (try_call sync_temp
              (close_after no_sync)
              (try_call close_temp (Prog.ret (err no_close)) (link_key key)))
            fs
    unfolding Proper perform
    sync-At fs e =
        try-At calm first i sync_temp _ _ fs
          (λ gs l inv. (tt, λ w. (refl, close-At gs (l.mine ∙ e))))
          (λ gs n. close_after-At calm first i _ gs n)

    chmod-At :
        (fs : Files) (f : File)
        → fs.temp i ≡ some f
        → f.content ≡ key
        → At calm first i
            (try_call (chmod_temp owner_only) (close_after no_temp_mode) (
              try_call sync_temp
                (close_after no_sync)
                (try_call close_temp (Prog.ret (err no_close)) (link_key key))))
            fs
    unfolding Proper perform
    chmod-At fs f e c =
        try-At calm first i (chmod_temp owner_only) _ _ fs
          (λ gs l inv. (
            tt,
            λ w. (
              refl,
              sync-At _ (
                  set_temp-temp i (with_mode owner_only (gs.temp i)) gs
                  ∙ ap (with_mode owner_only) (l.mine ∙ e)
                  ∙ ap (λ b. some (record { content = b; mode = owner_only })) c),
            ),
          ))
          (λ gs n. close_after-At calm first i _ gs n)

    publish-At : (fs : Files) (f : File) → fs.temp i ≡ some f → At calm first i (publish_key key) fs
    unfolding Proper perform
    publish-At fs f e =
        try-At calm first i (write_temp key) _ _ fs
          (λ gs l inv. (
            tt,
            λ w. (
              refl,
              chmod-At _ (record f { content = key })
                  (set_temp-temp i (with_content key (gs.temp i)) gs
                    ∙ ap (with_content key) (l.mine ∙ e))
                  refl,
            ),
          ))
          (λ gs n. close_after-At calm first i _ gs n)

    removed-At : (o : Outcome) (fs : Files) → Post calm first o fs → At calm first i (removed o) fs
    unfolding Proper perform perform_broken
    removed-At o fs h =
        call-At calm first i remove_temp _ fs
          (λ gs l inv. (
            tt,
            λ w.
                ret-At calm first i o _
                  (Post-Stays calm first fs _ (record { key_stays = l.stays.key_stays }) o h),
          ))
          (λ gs l w n. ret-At calm first i o gs (Post-Stays calm first fs gs l.stays o h))

    with_temp-At : (fs : Files) → At calm first i (with_temp (publish_key key)) fs
    unfolding Proper perform with_temp
    with_temp-At fs =
        try-At calm first i create_temp _ _ fs
          (λ gs l inv. (
            tt,
            λ w. (
              refl,
              Ends-bind calm first i (Post calm first) (Post calm first) (publish_key key) removed _
                  (λ o hs. removed-At o hs) (publish-At _ _ (set_temp-temp i (some _) gs)),
            ),
          ))
          (λ gs n. wild-Post calm first i _ gs n)

  pub create-At : first ≡ none → (fs : Files) → At calm first i create_key fs
  unfolding Proper perform
  create-At none_first fs =
      ask-At calm first i (draw key_size) _ fs
        (λ gs l inv. (tt, λ w. with_temp-At none_first _ (length-fill key_size w.entropy) _))
        (λ gs n. wild-Post calm first i _ gs n)
