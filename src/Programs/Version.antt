-- ===== src/Programs/Version.antt =====
-- `config/version.go` of `cmd/polkadot-worker`; that of `cmd/polkadot-live` has the same text. The
-- texts are set when the program is linked.
use polkadot_worker.Base.{◌++◌, Option, none, some, Bytes, codes}
use polkadot_worker.Base.Int.{ℤ}
use polkadot_worker.Stdlib.Numbers.{atoi}

pub record Build : Type 0 where
  pub name : Bytes
  pub version : Bytes
  pub git_sha : Bytes
  pub timestamp : Bytes

abbrev pub shown_time : (ℤ → Bytes) → Bytes → Option ℤ → Bytes
shown_time unix_string timestamp none = timestamp
shown_time unix_string timestamp (some t) = unix_string t

-- `unix_string t` is `time.Unix(t, 0).String()`, which depends on the local time zone.
unfoldable pub identity_string : (ℤ → Bytes) → Build → Bytes
identity_string unix_string b =
    b.name
    ++ codes " "
    ++ b.version
    ++ codes " (git: "
    ++ b.git_sha
    ++ codes ") - built at "
    ++ shown_time unix_string b.timestamp (atoi b.timestamp)
