-- ===== src/Crypto/Rules.antt =====
-- What one call of the key's code does to the claim that its process ends well.
use step_ui_ng.Base.{
  ℕ, Option, Bool, some, true, false, ◌≡◌, inl, inr, ok, err, length, sym, subst, ◌∙◌, nat_eq,
}
use step_ui_ng.Crypto.Files.{
  File, Files, Sys, Reply, Fate, perform, perform_broken, close_temp, meet_cases, broken, done,
}
use step_ui_ng.Crypto.Key.{Prog, Outcome, is_tight, key_size, try_call, close_after, KeyError}
use step_ui_ng.Crypto.Rely.{Stays, Inv, Proper, Ends, Later, IsWhole}

module _ (calm : Bool) (first : Option File) where
  -- What a process may end with.
  unfoldable pub Post : Outcome → Files → Type 0
  Post (ok b) fs =
      (f : File) × (fs.key ≡ some f)
      × (f.content ≡ b)
      × (length b ≡ key_size)
      × (is_tight f.mode ≡ true)
  Post (err e) fs = calm ≡ true → ¬ IsWhole first

  pub Post-Stays : (fs gs : Files) → Stays fs gs → (o : Outcome) → Post o fs → Post o gs
  unfolding Post
  Post-Stays fs gs s (ok b) (f, e, c, l, t) =
      let (g, e', c', t') = s.key_stays f e in (g, e', c' ∙ c, l, t' t)
  Post-Stays fs gs s (err e) h = h

  module _ (i : ℕ) where
    abbrev pub At : Prog Outcome → Files → Type 0
    At = Ends calm first i Post

    abbrev Permits : Fate → Type 0
    Permits w = calm ≡ true → w.works ≡ true

    -- A call breaks only if it is not calm.
    pub broken_lem : (w : Fate) → Permits w → w.works ≡ false → ¬ (calm ≡ true)
    broken_lem w q e h = cc (sym (q h) ∙ e)

    abbrev Wild : Type 0
    Wild = ¬ (calm ≡ true)

    pub wild-Post : (e : KeyError) (fs : Files) → Wild → At (Prog.ret (err e)) fs
    unfolding Ends Post
    wild-Post e fs n c = absurd (n c)

    -- A call that works, or breaks.
    pub call-At :
        (c : Sys) (k : Reply → Prog Outcome) (fs : Files)
        → ((gs : Files)
            → Later i fs gs
            → Inv first gs
            → Proper i c gs × ((w : Fate) → At (k (perform i w c gs).0) (perform i w c gs).1))
        → ((gs : Files)
            → Later i fs gs
            → (w : Fate) → Wild
            → At (k broken) (perform_broken i w c gs))
        → At (Prog.ask c k) fs
    unfolding Ends
    call-At c k fs h wild = λ gs l inv. (
      (h gs l inv).0,
      λ w q. elim (meet_cases i w c gs) [
        | inl (e, m) ↦ subst (λ o. At (k o.0) o.1) m ((h gs l inv).1 w)
        | inr (e, m) ↦ subst (λ o. At (k o.0) o.1) m (wild gs l w (broken_lem w q e))
      ],
    )

    pub ask-At :
        (c : Sys) (k : Reply → Prog Outcome) (fs : Files)
        → ((gs : Files)
            → Later i fs gs
            → Inv first gs
            → Proper i c gs × ((w : Fate) → At (k (perform i w c gs).0) (perform i w c gs).1))
        → ((gs : Files) → Wild → At (k broken) gs)
        → At (Prog.ask c k) fs
    ask-At c k fs h wild = call-At c k fs h (λ gs l w n. wild _ n)

    -- A call that is done when it works.
    pub try-At :
        (c : Sys) (failed next : Prog Outcome) (fs : Files)
        → ((gs : Files)
            → Later i fs gs
            → Inv first gs
            → Proper i c gs
              × ((w : Fate) → ((perform i w c gs).0 ≡ done) × At next (perform i w c gs).1))
        → ((gs : Files) → Wild → At failed gs)
        → At (try_call c failed next) fs
    try-At c failed next fs h wild =
        ask-At c _ fs (λ gs l inv. ((h gs l inv).0, λ w. let (e, n) = (h gs l inv).1 w in rw e n))
          wild

    pub close_after-At : (e : KeyError) (fs : Files) → Wild → At (close_after e) fs
    unfolding Proper
    close_after-At e fs n =
        ask-At close_temp _ fs (λ gs l inv. (tt, λ w. wild-Post e _ n)) (λ gs n. wild-Post e gs n)

    pub ret-At : (o : Outcome) (fs : Files) → Post o fs → At (Prog.ret o) fs
    unfolding Ends
    ret-At o fs h = h
