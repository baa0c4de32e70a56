-- ===== src/Crypto/Files.antt =====
-- internal/crypto/crypto.go: the files in the data directory that the key's code touches, and the
-- calls of the operating system, each of which is one step of a process.
use step_ui_ng.Base.{
  ℕ, suc, zero, Option, Bool, none, some, [], ◌∷◌, ◌≡◌, ◌==◌, nat_eq, if◌then◌else◌, length, refl,
  ap, true, ◌⊎◌, false, inl, inr, Bool-cases, arith,
}
use step_ui_ng.Crypto.Box.{Bytes}

pub record File : Type 0 where
  pub content : Bytes
  pub mode : ℕ

-- `secret.key`, and the temporary file of each process: `os.CreateTemp` picks a name that is free.
pub record Files : Type 0 where
  pub key : Option File
  pub temp : ℕ → Option File

pub data Sys : Type 0 where
  read_key stat_key make_dir create_temp sync_temp close_temp link_temp remove_temp : Sys
  chmod_key chmod_temp : ℕ → Sys
  draw : ℕ → Sys
  write_temp : Bytes → Sys

-- `absent` and `exists` stand for fs.ErrNotExist and fs.ErrExist, `broken` for any other error.
pub data Reply : Type 0 where
  done absent exists broken : Reply
  got : Bytes → Reply
  has_mode : ℕ → Reply

-- What a call meets: whether it works, the random bytes, the mode that the umask leaves to a new
-- file, and what a write that breaks off has written.
pub record Fate : Type 0 where
  pub works : Bool
  pub entropy : ℕ → ℕ
  pub umasked : ℕ
  pub written : Bytes

abbrev pub fill : ℕ → (ℕ → ℕ) → Bytes
fill zero e = []
fill (suc n) e = e n ∷ fill n e

pub length-fill : (n : ℕ) (e : ℕ → ℕ) → length (fill n e) ≡ n
length-fill zero e = refl
length-fill (suc n) e = ap suc (length-fill n e)

abbrev pub set_temp : ℕ → Option File → Files → Files
set_temp i f s = record s { temp = λ j. if j == i then f else s.temp j }

abbrev pub with_content : Bytes → Option File → Option File
with_content b none = none
with_content b (some f) = some (record f { content = b })

abbrev pub with_mode : ℕ → Option File → Option File
with_mode m none = none
with_mode m (some f) = some (record f { mode = m })

abbrev pub content_reply : Option File → Reply
content_reply none = absent
content_reply (some f) = got f.content

abbrev pub mode_reply : Option File → Reply
mode_reply none = absent
mode_reply (some f) = has_mode f.mode

abbrev pub done_reply : Option File → Reply
done_reply none = absent
done_reply (some f) = done

-- link(2): the key's name and the temporary one are names of one file from here on, of which the
-- temporary one is only removed. A name that is there is left alone.
abbrev pub link : Option File → Option File → Files → Reply × Files
link (some f) source s = (exists, s)
link none none s = (absent, s)
link none (some f) s = (done, record s { key = some f })

-- A call of process `i` that works.
unfoldable pub perform : ℕ → Fate → Sys → Files → Reply × Files
perform i w read_key s = (content_reply s.key, s)
perform i w stat_key s = (mode_reply s.key, s)
perform i w (chmod_key m) s = (done_reply s.key, record s { key = with_mode m s.key })
perform i w make_dir s = (done, s)
perform i w (draw n) s = (got (fill n w.entropy), s)
perform i w create_temp s = (done, set_temp i (some (record { content = []; mode = w.umasked })) s)
perform i w (write_temp b) s = (done, set_temp i (with_content b (s.temp i)) s)
perform i w (chmod_temp m) s = (done, set_temp i (with_mode m (s.temp i)) s)
perform i w sync_temp s = (done, s)
perform i w close_temp s = (done, s)
perform i w link_temp s = link s.key (s.temp i) s
perform i w remove_temp s = (done_reply (s.temp i), set_temp i none s)

-- A call that breaks changes nothing, but for a write that breaks off.
unfoldable pub perform_broken : ℕ → Fate → Sys → Files → Files
perform_broken i w (write_temp b) s = set_temp i (with_content w.written (s.temp i)) s
perform_broken i w _ s = s

unfoldable pub meet : ℕ → Fate → Sys → Files → Reply × Files
meet i w c s = if w.works then perform i w c s else (broken, perform_broken i w c s)

pub meet_cases :
    (i : ℕ) (w : Fate) (c : Sys) (s : Files)
    → (w.works ≡ true) × (perform i w c s ≡ meet i w c s)
      ⊎ (w.works ≡ false) × ((broken, perform_broken i w c s) ≡ meet i w c s)
unfolding meet
meet_cases i w c s = split (Bool-cases w.works) (perform i w c s) (broken, perform_broken i w c s)
  where
    split :
        {b : Bool}
        → (b ≡ true) ⊎ (b ≡ false)
        → (x y : Reply × Files)
        → (b ≡ true) × (x ≡ (if b then x else y)) ⊎ (b ≡ false) × (y ≡ (if b then x else y))
    split (inl e) x y = inl (e, rw e)
    split (inr e) x y = inr (e, rw e)

pub set_temp-temp : (i : ℕ) (o : Option File) (s : Files) → (set_temp i o s).temp i ≡ o
set_temp-temp i o s = ground arith

pub same_index : (j i : ℕ) → (j == i) ≡ true → i ≡ j
same_index j i e = ground arith
