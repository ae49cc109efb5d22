-- ===== src/SelfUpdate/Host.antt =====
-- The machine that internal/selfupdate/updater.go runs on: its files, the answers of the network,
-- and the programs that it starts. Every system call happens at a moment of its own, and what it
-- meets then is the environment's choice. Permissions, time and log lines are not modelled.
pub mod Keep
pub mod Success
use zimaos_monitor.Base.{
  ℕ, ◌+◌, Bool, true, false, not, ◌&&◌, List, [], ◌∷◌, ◌++◌, Option, none, some, if◌then◌else◌,
  Bytes, codes, str_eq,
}
use zimaos_monitor.Base.Int.{ℤ}
use zimaos_monitor.Text.{has_prefix}
use zimaos_monitor.SelfUpdate.Release.{GithubRelease, HttpAnswer}

-- An entry of a tar archive: the bytes that can be read of it, and whether that is all.
pub record Entry : Type 0 where
  pub name : Bytes
  pub is_regular : Bool
  pub size : ℤ
  pub content : Bytes
  pub intact : Bool

-- The entries up to the end, or up to a read error.
pub record Archive : Type 0 where
  pub entries : List Entry
  pub complete : Bool

-- What the program does not implement. The moments are numbered.
pub record Environment : Type 0 where
  -- the system call of this moment fails
  pub fails : ℕ → Bool
  -- what a failed write leaves of a content
  pub partial : ℕ → Bytes → Bytes
  -- the answer to a GET of a URL
  pub answer : ℕ → Bytes → HttpAnswer
  -- the JSON decoder for releases
  pub decode_release : Bytes → Option GithubRelease
  -- the SHA-256 digest in lower-case hexadecimal
  pub sha256_hex : Bytes → Bytes
  -- the gzip and tar readers; none if the gzip header is refused
  pub unpack : Bytes → Option Archive
  -- the directory that `os.MkdirTemp` makes
  pub new_dir : ℕ → Bytes
  -- `os.RemoveAll` removes this file of the directory
  pub removes : ℕ → Bytes → Bool
  -- what a program of this content prints for `--version`; none if it fails
  pub version_output : ℕ → Bytes → Option Bytes
  -- a command succeeds
  pub command_succeeds : ℕ → List Bytes → Bool
  -- the context has been cancelled
  pub cancelled : ℕ → Bool

-- A command, the files when it was started, and whether it succeeded.
pub record Call : Type 0 where
  pub args : List Bytes
  pub found : Bytes → Option Bytes
  pub succeeded : Bool

-- `calls` has the last command first.
pub record World : Type 0 where
  pub clock : ℕ
  pub files : Bytes → Option Bytes
  pub calls : List Call

pub data Result (E A : Type 0) : Type 0 where
  ok : A → Result E A
  err : E → Result E A

abbrev pub Io : Type 0 → Type 0 → Type 0
Io E A = World → Result E A × World

abbrev pub update : (Bytes → Option Bytes) → Bytes → Option Bytes → Bytes → Option Bytes
update files path content p = if str_eq p path then content else files p

-- Go on after a result.
abbrev pub bind_result : {E A B : Type 0} → Result E A → World → (A → Io E B) → Result E B × World
bind_result (ok a) w f = f a w
bind_result (err e) w f = (err e, w)

infixl 5 ◌>>=◌ ◌>>◌
unfoldable pub ◌>>=◌ : {E A B : Type 0} → Io E A → (A → Io E B) → Io E B
◌>>=◌ m f w = let (r, w') = m w in bind_result r w' f

abbrev pub ◌>>◌ : {E B : Type 0} → Io E (Unit {0}) → Io E B → Io E B
m >> k = m >>= λ _. k

module _ {E : Type 0} where
  abbrev pub pure : {A : Type 0} → A → Io E A
  pure a w = (ok a, w)

  abbrev pub raise : {A : Type 0} → E → Io E A
  raise e w = (err e, w)

  -- `if !test { return error }`
  abbrev pub check : Bool → E → Io E (Unit {0})
  check test e w = (if test then ok tt else err e, w)

  abbrev pub or_raise : {A : Type 0} → Option A → E → Io E A
  or_raise none e = raise e
  or_raise (some a) e = pure a

  -- What the environment has at this moment.
  abbrev pub ask : {A : Type 0} → (ℕ → A) → Io E A
  ask f w = (ok (f w.clock), record w { clock = w.clock + 1 })

  abbrev pub content_of : Bytes → Io E (Option Bytes)
  content_of path w = (ok (w.files path), w)

  abbrev pub put : Bytes → Option Bytes → Io E (Unit {0})
  put path content w = (ok tt, record w { files = update w.files path content })

  -- The result, with its error under another name.
  abbrev pub relabel : {E' A : Type 0} → (E → E') → Result E A → Result E' A
  relabel f (ok a) = ok a
  relabel f (err e) = err (f e)

unfoldable pub as_error : {E E' A : Type 0} → (E → E') → Io E A → Io E' A
as_error f m w = let (r, w') = m w in (relabel f r, w')

-- `filepath.Join` of a directory and a name without a slash
abbrev pub join_path : Bytes → Bytes → Bytes
join_path dir name = dir ++ (b'/' ∷ name)

module _ (env : Environment) {E : Type 0} where
  -- A system call that may fail, with no other effect.
  unfoldable pub attempt : E → Io E (Unit {0})
  unfolding ◌>>=◌
  attempt e = do fails ← ask env.fails; check (not fails) e

  -- `os.ReadFile`, or `os.Open` and reading to the end
  unfoldable pub read : Bytes → E → Io E Bytes
  unfolding attempt
  read path e = do attempt e; content ← content_of path; or_raise content e

  -- `os.OpenFile` with `O_CREATE|O_EXCL`
  unfoldable pub create : Bytes → E → Io E (Unit {0})
  unfolding attempt
  create path e = do
    content ← content_of path
    check (elim content [ none ↦ true | some _ ↦ false ]) e
    attempt e
    put path (some [])

  -- `io.Copy` into an open file: a failure leaves some part.
  unfoldable pub write : Bytes → Bytes → E → Io E (Unit {0})
  unfolding ◌>>=◌
  write path content e = do
    (fails, part) ← ask λ t. (env.fails t, if env.fails t then env.partial t content else content)
    put path (some part)
    check (not fails) e

  -- `os.Rename`
  unfoldable pub rename : Bytes → Bytes → E → Io E (Unit {0})
  unfolding read
  rename source target e = do content ← read source e; put source none; put target (some content)

  -- `os.Remove`; a missing file is an error of its own.
  unfoldable pub remove : Bytes → E → E → Io E (Unit {0})
  unfolding attempt
  remove path missing e = do
    content ← content_of path
    check (elim content [ none ↦ false | some _ ↦ true ]) missing
    attempt e
    put path none

  -- `exec.Command(name, args...)` run to its end
  unfoldable pub run : List Bytes → E → Io E (Unit {0})
  run args e w =
      let succeeded = env.command_succeeds w.clock args in
      (
        if succeeded then ok tt else err e,
        record w {
          clock = w.clock + 1;
          calls = (record { args = args; found = w.files; succeeded = succeeded }) ∷ w.calls;
        },
      )

-- `os.RemoveAll` of a directory, deferred: its error is dropped, and a failure may leave files.
unfoldable pub remove_all : Environment → Bytes → World → World
remove_all env dir w = record w {
  clock = w.clock + 1;
  files = λ p. if env.removes w.clock p && has_prefix p (join_path dir []) then none else w.files p;
}

-- `defer`: the world is cleaned whatever the result.
unfoldable pub finally : {E A : Type 0} → (World → World) → Io E A → Io E A
finally clean m w = let (r, w') = m w in (r, clean w')

abbrev pub handle_result :
    {E E' A : Type 0} → Result E A → World → (E → Io E' A) → Result E' A × World
handle_result (ok a) w handle = (ok a, w)
handle_result (err e) w handle = handle e w

-- `if err := m; err != nil { … }`
unfoldable pub on_error : {E E' A : Type 0} → Io E A → (E → Io E' A) → Io E' A
on_error m handle w = let (r, w') = m w in handle_result r w' handle
