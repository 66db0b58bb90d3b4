-- ===== src/Cli/Shell.antt =====
-- cmd/s3db/main.go: what a command acts on, and what it is told.
use s3db.Base.{
  ℕ, ℤ, pos, negsuc, Text, codes, text_eq, Bool, Option, none, some, List, [], ◌∷◌, ◌++◌, ◌*◌, ◌==◌,
  nat_eq, leb, if◌then◌else◌,
}
use s3db.Base.Decimal.{show_int}
use s3db.Result.{Result, ok}
use s3db.Result.Exec.{Exec}

-- The operating system, over the state `L` of the local files.
pub record Os (L : Type 0) : Type 0 where
  pub read_file : Text → L → Result Text
  pub write_file : Text → Text → Exec L (Unit {0})
  -- whether `os.Stat` succeeds
  pub exists : Text → L → Bool
  pub getenv : Text → Text

-- What the command acts on: the outside, the local files, and the lines that it has printed to
-- the standard output and to the standard error, the last first.
pub record Shell (S L : Type 0) : Type 0 where
  pub out : S
  pub files : L
  pub printed : List Text
  pub warned : List Text

module _ {S L : Type 0} where
  unfoldable pub at_store : {A : Type 0} → Exec S A → Exec (Shell S L) A
  at_store m sh = let (r, s) = m sh.out in (r, record sh { out = s })

  unfoldable pub at_files : {A : Type 0} → Exec L A → Exec (Shell S L) A
  at_files m sh = let (r, l) = m sh.files in (r, record sh { files = l })

  unfoldable pub say : Text → Exec (Shell S L) (Unit {0})
  say line sh = (ok tt, record sh { printed = line ∷ sh.printed })

  unfoldable pub warn : Text → Exec (Shell S L) (Unit {0})
  warn line sh = (ok tt, record sh { warned = line ∷ sh.warned })

-- The flags that all commands have, and the arguments after the flags, as `flag` parses them.
pub record Given : Type 0 where
  pub args : List Text
  pub bucket : Text
  pub prefix : Text

pub record InitFlags : Type 0 where
  pub given : Given
  pub file : Text

pub record PullFlags : Type 0 where
  pub given : Given
  pub out : Text
  pub no_seq : Bool

-- -2 is no -seq
pub record PushFlags : Type 0 where
  pub given : Given
  pub file : Text
  pub seq : ℤ
  pub force : Bool
  pub create : Bool

pub record GcFlags : Type 0 where
  pub given : Given
  pub grace : ℤ

-- `path + ".seq"`
abbrev pub sidecar : Text → Text
sidecar path = path ++ codes ".seq"

-- `formatBytes`; `fixed1 n d` is `%.1f` of n / d.
module _ (fixed1 : ℕ → ℕ → Text) where
  abbrev kibi : ℕ
  kibi = 1024

  unfoldable pub format_bytes : ℤ → Text
  format_bytes (negsuc n) = show_int (negsuc n) ++ codes " B"
  format_bytes (pos n) =
      if n == 0
      then codes "unknown"
      else if leb (kibi * kibi * kibi) n
      then fixed1 n (kibi * kibi * kibi) ++ codes " GiB"
      else if leb (kibi * kibi) n
      then fixed1 n (kibi * kibi) ++ codes " MiB"
      else if leb kibi n
      then fixed1 n kibi ++ codes " KiB"
      else show_int (pos n) ++ codes " B"

-- What `newStore` tells the AWS client.
pub record ClientOptions : Type 0 where
  pub region : Text
  -- the endpoint, with path-style addresses
  pub endpoint : Option Text
  -- access key, secret key, session token
  pub credentials : Option (Text × Text × Text)

abbrev or_text : Text → Text → Text
or_text [] default = default
or_text (c ∷ t) default = c ∷ t

abbrev if_given : {A : Type 0} → Text → A → Option A
if_given [] a = none
if_given (c ∷ t) a = some a

-- The configuration of `newStore`, by the environment.
unfoldable pub client_options : (Text → Text) → ClientOptions
client_options getenv =
    let endpoint = getenv (codes "AWS_ENDPOINT_URL") in
    let key = getenv (codes "AWS_ACCESS_KEY_ID") in
    record {
      region = or_text (getenv (codes "AWS_REGION")) (codes "us-east-1");
      endpoint = if_given endpoint endpoint;
      credentials =
          if_given key
            (key, getenv (codes "AWS_SECRET_ACCESS_KEY"), getenv (codes "AWS_SESSION_TOKEN"));
    }
