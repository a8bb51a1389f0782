-- ===== src/Fs/Files.antt =====
-- What io.ts and apply.ts see of a file: TargetState, Expected and Identity. The strings of the source
-- that hold numbers are numbers. `links` is the link count, and `is_text` tells whether `inspect` takes
-- the file otherwise: a regular file on the mount, bounded, in UTF-8 without NUL.
use gatekeeper_os.Prelude.{none, some, true, false, nat_eq, ◌==◌, ◌&&◌, ℕ, List, Bool, Option}
use gatekeeper_os.Cli.Json.{Text, text_eq}

pub record FileState : Type 0 where
  pub dev : ℕ
  pub ino : ℕ
  pub size : ℕ
  pub mtime_ns : ℕ
  pub ctime_ns : ℕ
  pub mode : ℕ
  pub uid : ℕ
  pub links : ℕ
  pub bytes : List ℕ
  pub is_text : Bool

pub record Identity : Type 0 where
  pub dev : ℕ
  pub ino : ℕ

-- The modification and change times are compared where they are known.
pub record Baseline : Type 0 where
  pub dev : ℕ
  pub ino : ℕ
  pub size : ℕ
  pub sha256 : Text
  pub mtime_ns : Option ℕ
  pub ctime_ns : Option ℕ

pub data Expected : Type 0 where
  absent : Expected
  present : Baseline → Expected

abbrev pub identity_of : FileState → Identity
identity_of f = record { dev = f.dev; ino = f.ino }

abbrev agrees : ℕ → Option ℕ → Bool
agrees n none = true
agrees n (some m) = n == m

abbrev pub same : Option FileState → Identity → Bool
same none i = false
same (some f) i = f.dev == i.dev && f.ino == i.ino

abbrev pub is_regular : FileState → Bool
is_regular f = f.links == 1 && f.is_text

-- `expected` without `ctimeNs`
abbrev pub without_ctime : Expected → Expected
without_ctime absent = absent
without_ctime (present b) = present (record b { ctime_ns = none })

module _ (digest : List ℕ → Text) where
  unfoldable pub matches : Option FileState → Expected → Bool
  matches none absent = true
  matches none (present b) = false
  matches (some f) absent = false
  matches (some f) (present b) =
      f.dev == b.dev
      && f.ino == b.ino
      && f.size == b.size
      && digest f.bytes == b.sha256
      && agrees f.mtime_ns b.mtime_ns
      && agrees f.ctime_ns b.ctime_ns
