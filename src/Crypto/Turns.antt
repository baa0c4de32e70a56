-- ===== src/Crypto/Turns.antt =====
-- How many turns a process of internal/crypto/crypto.go needs to end.
use step_ui_ng.Base.{
  ℕ, suc, zero, List, [], ◌∷◌, true, false, ◌≡◌, ◌≤◌, ◌+◌, inl, inr, refl, ok, err, ◌==◌, nat_eq,
  if◌then◌else◌, sym, ap, subst, Bool-cases, ◌∙◌, arith, ◌-◌,
}
use step_ui_ng.Crypto.Box.{Bytes}
use step_ui_ng.Crypto.Files.{
  Files, Fate, Reply, meet, Sys, done, absent, exists, broken, got, has_mode, write_temp,
  create_temp, chmod_key, make_dir, chmod_temp, sync_temp, close_temp, same_index,
}
use step_ui_ng.Crypto.Key.{
  Prog, ◌>>=◌, ret, ask, Outcome, System, turn, turn_of, run, start, is_tight, load_or_create_key,
  try_call, linked, moded, publish_key, removed, with_temp, loaded, checked, owner_only, if_done,
  drawn, key_absent, key_unread, wrong_size, no_stat, no_chmod, no_dir, no_entropy, no_temp,
  no_write, no_temp_mode, no_sync, no_close, no_link,
}
use step_ui_ng.Crypto.Rely.{IsWhole}
use step_ui_ng.Crypto.Agreement.{Permitted, Holds, calm_end, one_key}

-- The turns that process `i` gets.
abbrev pub turns_of : ℕ → List (ℕ × Fate) → ℕ
turns_of i [] = 0
turns_of i ((j, w) ∷ ts) = let rest = turns_of i ts in if i == j then suc rest else rest

-- Whatever the replies, the program makes at most `n` calls.
abbrev pub Within : {A : Type 0} → ℕ → Prog A → Type 0
Within n (ret a) = Unit
Within n (ask c k) = (m : ℕ) × (n ≡ suc m) × ((r : Reply) → Within m (k r))

Within-le : {A : Type 0} (n m : ℕ) (p : Prog A) → n ≤ m → Within n p → Within m p
Within-le n m (ret a) le h = tt
Within-le n zero (ask c k) le (n', e, h) = absurd (omega (arith, e))
Within-le n (suc m) (ask c k) le (n', e, h) =
    (m, refl, λ r. Within-le n' m (k r) (omega (arith, e)) (h r))

Within-bind :
    {A B : Type 0} (n m : ℕ) (p : Prog A) (f : A → Prog B)
    → Within n p
    → ((a : A) → Within m (f a))
    → Within (n + m) (p >>= f)
unfolding ◌>>=◌
Within-bind n m (ret a) f h g = Within-le m (n + m) (f a) (omega arith) (g a)
Within-bind n m (ask c k) f (n', e, h) g =
    (n' + m, omega (arith, e), λ r. Within-bind n' m (k r) f (h r) g)

if_done-Within :
    (n : ℕ) (failed next : Prog Outcome) (r : Reply)
    → Within n failed
    → Within n next
    → Within n (if_done failed next r)
if_done-Within n failed next done h g = g
if_done-Within n failed next absent h g = h
if_done-Within n failed next exists h g = h
if_done-Within n failed next broken h g = h
if_done-Within n failed next (got b) h g = h
if_done-Within n failed next (has_mode m) h g = h

try-Within :
    (n : ℕ) (c : Sys) {failed next : Prog Outcome}
    → Within n failed
    → Within n next
    → Within (suc n) (try_call c failed next)
try-Within n c h g = (n, refl, λ r. if_done-Within n _ _ r h g)

linked-Within : (key : Bytes) (r : Reply) → Within 1 (linked key r)
linked-Within key done = tt
linked-Within key exists = (0, refl, λ r. tt)
linked-Within key absent = tt
linked-Within key broken = tt
linked-Within key (got b) = tt
linked-Within key (has_mode m) = tt

publish_key-Within : (key : Bytes) → Within 6 (publish_key key)
publish_key-Within key =
    try-Within 5 (write_temp key) (4, refl, λ r. tt)
      (try-Within 4 (chmod_temp owner_only) (3, refl, λ r. tt)
        (try-Within 3 sync_temp (2, refl, λ r. tt)
          (try-Within 2 close_temp tt (1, refl, linked-Within key))))

with_temp-Within : (key : Bytes) → Within 8 (with_temp (publish_key key))
unfolding with_temp
with_temp-Within key =
    try-Within 7 create_temp tt
      (Within-bind 6 1 (publish_key key) removed (publish_key-Within key) (λ o. (0, refl, λ r. tt)))

drawn-Within : (r : Reply) → Within 8 (drawn r)
drawn-Within (got key) = with_temp-Within key
drawn-Within done = tt
drawn-Within absent = tt
drawn-Within exists = tt
drawn-Within broken = tt
drawn-Within (has_mode m) = tt

moded-Within : (key : Bytes) (r : Reply) → Within 1 (moded key r)
moded-Within key (has_mode m) = elim (Bool-cases (is_tight m)) [
  | inl e ↦ rw e tt
  | inr e ↦ rw e (try-Within 0 (chmod_key owner_only) tt tt)
]
moded-Within key done = tt
moded-Within key absent = tt
moded-Within key exists = tt
moded-Within key broken = tt
moded-Within key (got b) = tt

loaded-Within : (o : Outcome) → Within 10 (loaded o)
loaded-Within (ok key) =
    (9, refl, λ r. Within-le 1 9 (moded key r) (omega arith) (moded-Within key r))
loaded-Within (err key_absent) = try-Within 9 make_dir tt (8, refl, drawn-Within)
loaded-Within (err key_unread) = tt
loaded-Within (err wrong_size) = tt
loaded-Within (err no_stat) = tt
loaded-Within (err no_chmod) = tt
loaded-Within (err no_dir) = tt
loaded-Within (err no_entropy) = tt
loaded-Within (err no_temp) = tt
loaded-Within (err no_write) = tt
loaded-Within (err no_temp_mode) = tt
loaded-Within (err no_sync) = tt
loaded-Within (err no_close) = tt
loaded-Within (err no_link) = tt

load_or_create-Within : Within 11 load_or_create_key
unfolding load_or_create_key
load_or_create-Within = (10, refl, λ r. loaded-Within (checked r))

-- The process has ended.
abbrev pub HasEnded : Prog Outcome → Type 0
HasEnded p = (o : Outcome) × (p ≡ ret o)

turned-Within :
    (s : System) (i j : ℕ) (w : Fate) (p : Prog Outcome) (n : ℕ)
    → s.procs j ≡ p
    → (i == j) ≡ true
    → Within n p
    → Within (n - 1) ((turn_of s j w p).procs i)
turned-Within s i j w (ret o) n e x h =
    subst (Within (n - 1)) (sym (ap s.procs (sym (same_index i j x)) ∙ e)) tt
turned-Within s i j w (ask c k) n e x (m, q, h) =
    let r = (meet j w c s.files).0 in rw x (subst (λ d. Within d (k r)) (omega (arith, q)) (h r))

other_lem :
    (s : System) (i j : ℕ) (w : Fate) (p : Prog Outcome)
    → (i == j) ≡ false
    → (turn_of s j w p).procs i ≡ s.procs i
other_lem s i j w (ret o) x = refl
other_lem s i j w (ask c k) x = rw x

zero-HasEnded : (p : Prog Outcome) → Within 0 p → HasEnded p
zero-HasEnded (ret o) h = (o, refl)
zero-HasEnded (ask c k) (m, q, h) = absurd (omega (arith, q))

run-HasEnded :
    (ts : List (ℕ × Fate)) (s : System) (i n : ℕ)
    → Within n (s.procs i)
    → n ≤ turns_of i ts
    → HasEnded ((run s ts).procs i)
unfolding run turn
run-HasEnded [] s i n h le = zero-HasEnded (s.procs i) (Within-le n 0 (s.procs i) le h)
run-HasEnded ((j, w) ∷ ts) s i n h le = elim (Bool-cases (i == j)) [
  | inl x ↦
      run-HasEnded ts (turn s (j, w)) i (n - 1)
        (turned-Within s i j w (s.procs j) n refl x
          (subst (λ d. Within n (s.procs d)) (sym (same_index i j x)) h))
        (ground (arith, le))
  | inr x ↦
      run-HasEnded ts (turn s (j, w)) i n
        (subst (Within n) (sym (other_lem s i j w (s.procs j) x)) h) (ground (arith, le))
]

-- If the calls work and a key that the processes find is whole, every process that gets eleven turns,
-- however those of the others lie between them, ends with the key that the file then holds.
pub starts :
    (fs : Files) (ts : List (ℕ × Fate)) (i : ℕ)
    → IsWhole fs.key
    → Permitted true fs.key ts
    → 11 ≤ turns_of i ts
    → (a : Bytes) × ((run (start fs) ts).procs i ≡ ret (ok a)) × Holds (run (start fs) ts).files a
starts fs ts i whole calm many =
    let (o, e) = run-HasEnded ts (start fs) i 11 load_or_create-Within many in
    let (a, e') = calm_end fs ts i o whole calm e in
    (a, e ∙ ap ret e', (one_key fs ts i i a a (e ∙ ap ret e') (e ∙ ap ret e')).1)
