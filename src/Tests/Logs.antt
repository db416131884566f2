-- ===== src/Tests/Logs.antt =====
-- The log of src/log.c on a script that changes its file, and mail of src/smtp.c.
use gusher.Base.{
  ℕ, pos, ◌≡◌, refl, true, false, Bytes, List, [], ◌∷◌, ◌++◌, none, some, ok, fault, thrown, arith,
}
use gusher.CString.{codes}
use gusher.Effect.{◌>>◌}
use gusher.Log.{stderr, opened, closed, Log, log_to, log_msg}
use gusher.Log.Spec.{LogOp, to_file, message, log_ops, log_ops-lines}
use gusher.Scheme.{Scm, exact, string}
use gusher.Smtp.{Envelope, Transfer, smtp_send}
use gusher.Smtp.Upload.{joined, strings, smtp_send-whole}

abbrev fresh : Log
fresh = record { logfile = stderr; logpath = none; written = [] }

-- The second file cannot be opened.
abbrev script : List LogOp
script =
    message (codes "t") (codes "a")
    ∷ to_file true (codes "f")
    ∷ message (codes "t") (codes "b")
    ∷ to_file false (codes "g")
    ∷ message (codes "t") (codes "c")
    ∷ []

log_ops-lines_example : log_ops script fresh ≡ (
  ok tt,
  record fresh {
    written =
        (stderr, codes "t a" ++ 10 ∷ [])
        ∷ (opened (codes "f"), codes "t b" ++ 10 ∷ [])
        ∷ (stderr, codes "t c" ++ 10 ∷ [])
        ∷ [];
  },
)
log_ops-lines_example = log_ops-lines script fresh tt refl

abbrev no_path : Scm ℕ
no_path = exact (pos 1)

-- A path that is no string is found out only after the file is closed.
log_stays_closed :
    (log_to {D = ℕ} true (string (codes "f")) >> log_to true (no_path)) fresh
    ≡ (thrown, record fresh { logfile = closed (codes "f"); logpath = some (codes "f") })
unfolding log_to
log_stays_closed = refl

log_is_lost :
    log_msg
      (codes "t")
      (codes "a")
      (record fresh { logfile = closed (codes "f"); logpath = some (codes "f") })
    ≡ (fault, record fresh { logfile = closed (codes "f"); logpath = some (codes "f") })
unfolding log_msg
log_is_lost = refl

abbrev envelope : Envelope
envelope = record {
  username = codes "me";
  password = codes "pw";
  url = codes "u";
  mail_from = codes "m";
  mail_rcpt = codes "a" ∷ codes "b" ∷ [];
}

abbrev curl : Envelope → Transfer
curl e = record { reads = (1, 2) ∷ (2, 2) ∷ (1, 4) ∷ []; res = 0 }

smtp_send-whole_example :
    (pieces : List Bytes) × (smtp_send {D = ℕ} true curl
        (string (codes "u"))
        (string (codes "m"))
        (strings (codes "a" ∷ codes "b" ∷ []))
        (string (codes "me"))
        (string (codes "pw"))
        (string (codes "hello"))
      ≡ ok (some (envelope, pieces), true))
    × (joined pieces ≡ codes "hello")
smtp_send-whole_example = smtp_send-whole ℕ curl envelope (codes "hello") (omega arith)
