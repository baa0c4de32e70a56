-- ===== src/Crypto/Calls.antt =====
-- Every proper call keeps the key that is there, and the temporary files of the other processes.
use step_ui_ng.Base.{ℕ, Option, none, some, ◌≡◌, inl, inr, refl, nat_eq, sym, ap, subst, ◌∙◌}
use step_ui_ng.Crypto.Files.{
  File, Files, Sys, Fate, meet, perform, perform_broken, read_key, stat_key, chmod_key, make_dir,
  draw, create_temp, write_temp, chmod_temp, sync_temp, close_temp, link_temp, remove_temp,
  with_mode, set_temp, link, meet_cases,
}
use step_ui_ng.Crypto.Key.{owner_only}
use step_ui_ng.Crypto.Rely.{IsFresh, Stays-refl, Inv, Proper, Keeps}

module _ (first : Option File) where
  -- What a proper call does to the files.
  Fine : ℕ → Files → Files → Type 0
  Fine i gs hs = Keeps i gs hs × Inv first hs

  same-Fine : (i : ℕ) (gs : Files) → Inv first gs → Fine i gs gs
  unfolding Fine
  same-Fine i gs inv = (record { holds = Stays-refl gs; others = λ j e. refl }, inv)

  temp-Fine : (i : ℕ) (o : Option File) (gs : Files) → Inv first gs → Fine i gs (set_temp i o gs)
  unfolding Fine
  temp-Fine i o gs inv = (
    record { holds = record { key_stays = λ f e. (f, e, refl, λ t. t) }; others = λ j e. rw e },
    record { kept = inv.kept; fresh = inv.fresh },
  )

  chmod-Fine :
      (i : ℕ) (o : Option File) (gs : Files)
      → gs.key ≡ o
      → Inv first gs
      → Fine i gs (record gs { key = with_mode owner_only gs.key })
  unfolding Fine
  chmod-Fine i none gs h inv =
      subst (λ k. Fine i gs (record gs { key = k })) (h ∙ ap (with_mode owner_only) (sym h))
        (same-Fine i gs inv)
  chmod-Fine i (some f) gs h inv =
      let e = ap (with_mode owner_only) h in
      (
        record {
          holds = record {
            key_stays = λ g e'. (record f { mode = owner_only }, e, cc (sym h ∙ e'), λ t. refl);
          };
          others = λ j e'. refl;
        },
        record {
          kept = λ g e'. let (f', e1, c) = inv.kept g e' in (record f { mode = owner_only }, e, cc);
          fresh = λ e' g e1. subst IsFresh (cc (sym e ∙ e1)) ((inv.fresh e' f h).0, refl);
        },
      )

  link-Fine :
      (i : ℕ) (k o : Option File) (gs : Files)
      → gs.key ≡ k
      → ((f : File) → o ≡ some f → IsFresh f)
      → Inv first gs
      → Fine i gs (link k o gs).1
  unfolding Fine
  link-Fine i (some f) o gs h whole inv = same-Fine i gs inv
  link-Fine i none none gs h whole inv = same-Fine i gs inv
  link-Fine i none (some f) gs h whole inv = (
    record { holds = record { key_stays = λ g e. absurd (cc (sym h ∙ e)) }; others = λ j e. refl },
    record {
      kept = λ g e. let (f', e', c) = inv.kept g e in absurd (cc (sym h ∙ e'));
      fresh = λ e f' e'. subst IsFresh (cc e') (whole f refl);
    },
  )

  perform-Fine :
      (i : ℕ) (w : Fate) (c : Sys) (gs : Files)
      → Proper i c gs
      → Inv first gs
      → Fine i gs (perform i w c gs).1
  unfolding perform Proper
  perform-Fine i w read_key gs p inv = same-Fine i gs inv
  perform-Fine i w stat_key gs p inv = same-Fine i gs inv
  perform-Fine i w (chmod_key m) gs p inv =
      subst (λ m. Fine i gs (record gs { key = with_mode m gs.key })) (sym p)
        (chmod-Fine i gs.key gs refl inv)
  perform-Fine i w make_dir gs p inv = same-Fine i gs inv
  perform-Fine i w (draw n) gs p inv = same-Fine i gs inv
  perform-Fine i w create_temp gs p inv = temp-Fine i _ gs inv
  perform-Fine i w (write_temp b) gs p inv = temp-Fine i _ gs inv
  perform-Fine i w (chmod_temp m) gs p inv = temp-Fine i _ gs inv
  perform-Fine i w sync_temp gs p inv = same-Fine i gs inv
  perform-Fine i w close_temp gs p inv = same-Fine i gs inv
  perform-Fine i w link_temp gs p inv = link-Fine i gs.key (gs.temp i) gs refl p inv
  perform-Fine i w remove_temp gs p inv = temp-Fine i none gs inv

  broken-Fine :
      (i : ℕ) (w : Fate) (c : Sys) (gs : Files) → Inv first gs → Fine i gs (perform_broken i w c gs)
  unfolding perform_broken
  broken-Fine i w (write_temp b) gs inv = temp-Fine i _ gs inv
  broken-Fine i w _ gs inv = same-Fine i gs inv

  pub meet-Keeps :
      (i : ℕ) (w : Fate) (c : Sys) (gs : Files)
      → Proper i c gs
      → Inv first gs
      → Keeps i gs (meet i w c gs).1 × Inv first (meet i w c gs).1
  unfolding Fine
  meet-Keeps i w c gs p inv = elim (meet_cases i w c gs) [
    | inl (e, h) ↦ subst (λ o. Fine i gs o.1) h (perform-Fine i w c gs p inv)
    | inr (e, h) ↦ subst (λ o. Fine i gs o.1) h (broken-Fine i w c gs inv)
  ]
