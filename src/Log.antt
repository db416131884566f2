-- ===== src/Log.antt =====
-- The log of the server, src/log.c: where messages go. What `fopen` gives and the text of the time
-- are parameters.
pub mod Spec
use gusher.Base.{
  ℕ, Bool, true, false, Bytes, List, [], ◌∷◌, ◌++◌, Option, none, some, Run, ok, fault, thrown,
}
use gusher.Effect.{M, pure, ◌>>=◌, ◌>>◌}
use gusher.Scheme.{Scm, null, boolean, exact, inexact, string, symbol, pair, timestamp, other}

-- What `logfile` may point to: `stderr`, an open file, or one that was closed.
pub data Destination : Type 0 where
  stderr : Destination
  opened : Bytes → Destination
  closed : Bytes → Destination

-- The statics, and what each place was given.
pub record Log : Type 0 where
  pub logfile : Destination
  pub logpath : Option Bytes
  pub written : List (Destination × Bytes)

-- `fprintf` and `vfprintf`, on a stream that is open.
abbrev write_line : Destination → Bytes → M Log (Unit {0})
write_line (closed path) line log = (fault, log)
write_line file line log = (ok tt, record log { written = log.written ++ (file, line) ∷ [] })

-- `log_msg`, on the text of the time and the formatted message.
unfoldable pub log_msg : Bytes → Bytes → M Log (Unit {0})
log_msg now text log = write_line log.logfile (now ++ b' ' ∷ text) log

-- `if (logfile != stderr) fclose(logfile);`
abbrev close_logfile : Destination → M Log (Unit {0})
close_logfile stderr log = (ok tt, log)
close_logfile (opened path) log = (ok tt, record log { logfile = closed path })
close_logfile (closed path) log = (fault, log)

abbrev open_logfile : Bool → Bytes → M Log (Unit {0})
open_logfile true path log = (ok tt, record log { logfile = opened path; logpath = some path })
open_logfile false path log = (ok tt, record log { logfile = stderr; logpath = none })

-- `scm_to_locale_string`, which raises an exception on what is no string.
abbrev path_of : {D : Type 0} → Scm D → M Log Bytes
path_of (string path) log = (ok path, log)
path_of _ log = (thrown, log)

-- `log_to`, with whether `fopen` opens the file. The path that it frees is not read again before
-- `logpath` is set.
unfoldable pub log_to : {D : Type 0} → Bool → Scm D → M Log (Unit {0})
log_to opens path = do
  λ log. close_logfile log.logfile log
  path ← path_of path
  open_logfile opens path

-- `log_msg_primitive`
unfoldable pub log_msg_primitive : {D : Type 0} → Bytes → Scm D → M Log (Unit {0})
unfolding log_msg
log_msg_primitive now message = do msg ← path_of message; log_msg now (msg ++ 10 ∷ [])

-- `init_log`
unfoldable pub init_log : Log → Log
init_log log = record log { logfile = stderr }

-- `shutdown_log`
unfoldable pub shutdown_log : M Log (Unit {0})
shutdown_log = do
  λ log. close_logfile log.logfile log
  λ log. (ok tt, record log { logfile = stderr; logpath = none })
