-- ===== src/Crypto/Key.antt =====
-- internal/crypto/crypto.go: to load the master key or to create it, as a program over the calls of
-- the operating system, and the processes that run it at the same time.
use step_ui_ng.Base.{
  ℕ, [], ◌∷◌, List, Result, ok, err, Bool, ◌==◌, nat_eq, if◌then◌else◌, length, ◌%◌, not,
}
use step_ui_ng.Crypto.Box.{Bytes}
use step_ui_ng.Crypto.Files.{
  Files, Sys, Reply, Fate, meet, read_key, stat_key, chmod_key, make_dir, draw, create_temp,
  write_temp, chmod_temp, sync_temp, close_temp, link_temp, remove_temp, done, absent, exists, got,
  has_mode,
}

-- A program: a result, or a call and what follows each of its replies.
pub data Prog (A : Type 0) : Type 0 where
  ret : A → Prog A
  ask : Sys → (Reply → Prog A) → Prog A

infixl 5 ◌>>=◌
unfoldable pub ◌>>=◌ : {A B : Type 0} → Prog A → (A → Prog B) → Prog B
ret a >>= f = f a
ask c k >>= f = ask c (λ r. k r >>= f)

pub data KeyError : Type 0 where
  key_absent key_unread wrong_size no_stat no_chmod no_dir no_entropy no_temp no_write no_temp_mode
        no_sync no_close no_link :
      KeyError

abbrev pub Outcome : Type 0
Outcome = Result KeyError Bytes

-- 0600
abbrev pub owner_only : ℕ
owner_only = 384

-- `Mode().Perm()&0o077 == 0`
abbrev pub is_tight : ℕ → Bool
is_tight mode = mode % 64 == 0

abbrev pub key_size : ℕ
key_size = 32

abbrev pub checked : Reply → Outcome
checked (got key) = if length key == key_size then ok key else err wrong_size
checked absent = err key_absent
checked _ = err key_unread

-- `loadKey`
abbrev pub load_key : Prog Outcome
load_key = ask read_key λ r. ret (checked r)

-- A call after whose failure the program ends with an error, and what it ends with otherwise.
abbrev pub if_done : Prog Outcome → Prog Outcome → Reply → Prog Outcome
if_done failed next done = next
if_done failed next _ = failed

abbrev pub try_call : Sys → Prog Outcome → Prog Outcome → Prog Outcome
try_call c failed next = ask c (if_done failed next)

abbrev pub moded : Bytes → Reply → Prog Outcome
moded key (has_mode m) =
    if not (is_tight m)
    then try_call (chmod_key owner_only) (ret (err no_chmod)) (ret (ok key))
    else ret (ok key)
moded key _ = ret (err no_stat)

-- `ensureKeyPerm`, and then the key
abbrev pub ensure_key_perm : Bytes → Prog Outcome
ensure_key_perm key = ask stat_key (moded key)

-- `_ = tmp.Close()` before an error is returned
abbrev pub close_after : KeyError → Prog Outcome
close_after e = ask close_temp λ r. ret (err e)

abbrev pub linked : Bytes → Reply → Prog Outcome
linked key done = ret (ok key)
linked key exists = load_key
linked key _ = ret (err no_link)

abbrev pub link_key : Bytes → Prog Outcome
link_key key = ask link_temp (linked key)

-- What `createKey` does with the temporary file.
abbrev pub publish_key : Bytes → Prog Outcome
publish_key key = try_call (write_temp key) (close_after no_write) (
    try_call (chmod_temp owner_only) (close_after no_temp_mode) (
      try_call sync_temp (close_after no_sync)
        (try_call close_temp (ret (err no_close)) (link_key key))))

-- The deferred `os.Remove`
abbrev pub removed : Outcome → Prog Outcome
removed o = ask remove_temp λ r. ret o

unfoldable pub with_temp : Prog Outcome → Prog Outcome
unfolding ◌>>=◌
with_temp p = try_call create_temp (ret (err no_temp)) (p >>= removed)

abbrev pub drawn : Reply → Prog Outcome
drawn (got key) = with_temp (publish_key key)
drawn _ = ret (err no_entropy)

-- `createKey`
abbrev pub create_key : Prog Outcome
create_key = ask (draw key_size) drawn

abbrev pub loaded : Outcome → Prog Outcome
loaded (ok key) = ensure_key_perm key
loaded (err key_absent) = try_call make_dir (ret (err no_dir)) create_key
loaded (err e) = ret (err e)

-- `loadOrCreateKey`
unfoldable pub load_or_create_key : Prog Outcome
unfolding ◌>>=◌
load_or_create_key = load_key >>= loaded

-- The files, and where each process stands.
pub record System : Type 0 where
  pub files : Files
  pub procs : ℕ → Prog Outcome

abbrev pub update : (ℕ → Prog Outcome) → ℕ → Prog Outcome → ℕ → Prog Outcome
update f i p j = if j == i then p else f j

abbrev pub moved : System → ℕ → (Reply → Prog Outcome) → Reply × Files → System
moved s i k (r, fs) = record { files = fs; procs = update s.procs i (k r) }

abbrev pub turn_of : System → ℕ → Fate → Prog Outcome → System
turn_of s i w (ret o) = s
turn_of s i w (ask c k) = moved s i k (meet i w c s.files)

-- One call of one process; a process that has ended stays where it is.
unfoldable pub turn : System → ℕ × Fate → System
turn s (i, w) = turn_of s i w (s.procs i)

-- The turns that the scheduler gives; a process that gets no more has crashed.
unfoldable pub run : System → List (ℕ × Fate) → System
run s [] = s
run s (t ∷ ts) = run (turn s t) ts

-- Every process is about to call `NewBox`.
abbrev pub start : Files → System
start fs = record { files = fs; procs = λ i. load_or_create_key }
