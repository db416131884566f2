-- ===== src/Log/Spec.antt =====
-- Where the messages of src/log.c end up, without the streams: `log-to` names a place, and each
-- message goes to the place that was named last.
use gusher.Base.{
  ◌≡◌, refl, ap, Bool, true, false, Bytes, List, [], ◌∷◌, ◌++◌, append-nil, append_assoc, Option,
  none, some, ok,
}
use gusher.Effect.{M, pure, ◌>>◌}
use gusher.Log.{Destination, stderr, opened, closed, Log, log_msg, log_to, log_msg_primitive}
use gusher.Scheme.{string}

-- What the server and its scripts do with the log.
pub data LogOp : Type 0 where
  to_file : Bool → Bytes → LogOp
  message : Bytes → Bytes → LogOp

-- The code's operation.
abbrev pub log_op : LogOp → M Log (Unit {0})
log_op (to_file opens path) = log_to {D = Unit {0}} opens (string path)
log_op (message now text) = log_msg_primitive {D = Unit {0}} now (string text)

abbrev pub log_ops : List LogOp → M Log (Unit {0})
log_ops [] = pure tt
log_ops (op ∷ ops) = log_op op >> log_ops ops

abbrev pub named : Bool → Bytes → Destination
named true path = opened path
named false path = stderr

-- The lines that are written, each with its place.
abbrev pub lines : Destination → List LogOp → List (Destination × Bytes)
lines place [] = []
lines place (to_file opens path ∷ ops) = lines (named opens path) ops
lines place (message now text ∷ ops) = (place, now ++ b' ' ∷ (text ++ 10 ∷ [])) ∷ lines place ops

abbrev pub last_place : Destination → List LogOp → Destination
last_place place [] = place
last_place place (to_file opens path ∷ ops) = last_place (named opens path) ops
last_place place (message now text ∷ ops) = last_place place ops

abbrev pub path_at : Destination → Option Bytes
path_at (opened path) = some path
path_at _ = none

abbrev pub IsOpen : Destination → Type 0
IsOpen (closed path) = ⊥
IsOpen _ = Unit

abbrev at_place : Destination → Option Bytes → List (Destination × Bytes) → Log
at_place place p w = record { logfile = place; logpath = p; written = w }

log_op-to_file :
    (place : Destination) (p : Option Bytes) (w : List (Destination × Bytes)) (opens : Bool)
    → (path : Bytes) → IsOpen place
    → log_op (to_file opens path) (at_place place p w)
      ≡ (ok tt, at_place (named opens path) (path_at (named opens path)) w)
unfolding log_to
log_op-to_file stderr p w true path h = refl
log_op-to_file stderr p w false path h = refl
log_op-to_file (opened old) p w true path h = refl
log_op-to_file (opened old) p w false path h = refl
log_op-to_file (closed old) p w opens path h = elim h [ ]

log_op-message :
    (place : Destination) (p : Option Bytes) (w : List (Destination × Bytes)) (now text : Bytes)
    → IsOpen place
    → log_op (message now text) (at_place place p w)
      ≡ (ok tt, at_place place p (w ++ (place, now ++ b' ' ∷ (text ++ 10 ∷ [])) ∷ []))
unfolding log_msg_primitive log_msg
log_op-message stderr p w now text h = refl
log_op-message (opened old) p w now text h = refl
log_op-message (closed old) p w now text h = elim h [ ]

named-IsOpen : (opens : Bool) (path : Bytes) → IsOpen (named opens path)
named-IsOpen true path = tt
named-IsOpen false path = tt

-- From a log that is open, with logpath set where it is a file, any sequence of log-to with a
-- string and of messages succeeds, and every message, the time in front of it and a newline behind
-- it, is written to the file that was named last, or to stderr where that file could not be opened
-- or none was named; nothing is written to a closed file.
pub log_ops-lines :
    (ops : List LogOp) (log : Log)
    → IsOpen log.logfile
    → log.logpath ≡ path_at log.logfile
    → log_ops ops log ≡ (
      ok tt,
      record log {
        logfile = last_place log.logfile ops;
        logpath = path_at (last_place log.logfile ops);
        written = log.written ++ lines log.logfile ops;
      },
    )
log_ops-lines [] log h p = rw (p, append-nil log.written) refl
log_ops-lines (to_file opens path ∷ ops) log h p =
    let named_log : Log = record log {
      logfile = named opens path;
      logpath = path_at (named opens path);
    } in
    rw
      (
        log_op-to_file log.logfile log.logpath log.written opens path h,
        log_ops-lines ops named_log (named-IsOpen opens path) refl,
      )
      refl
log_ops-lines (message now text ∷ ops) log h p =
    let line : Destination × Bytes = (log.logfile, now ++ b' ' ∷ (text ++ 10 ∷ [])) in
    let told : Log = record log { written = log.written ++ line ∷ [] } in
    rw (log_op-message log.logfile log.logpath log.written now text h, log_ops-lines ops told h p)
      (ap
        (λ w. (
          ok tt,
          record log {
            logfile = last_place log.logfile ops;
            logpath = path_at (last_place log.logfile ops);
            written = w;
          },
        ))
        (append_assoc log.written (line ∷ []) (lines log.logfile ops)))
