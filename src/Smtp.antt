-- ===== src/Smtp.antt =====
-- Mail of src/smtp.c: what is told to curl, and the reader that hands it the text. curl is a
-- parameter: the room that it offers in each call of the reader, and how the transfer ends.
pub mod Upload
use gusher.Base.{
  ℕ, ◌*◌, Bool, true, false, Bytes, List, [], ◌∷◌, length, take, drop, min, Option, none, some, Run,
  ok, fault, thrown, ◌>>=◌, ◌==◌, if◌then◌else◌,
}
use gusher.Scheme.{Scm, null, boolean, exact, inexact, string, symbol, pair, timestamp, other}

-- `struct tracked_string`: the bytes from each of its pointers on, to the NUL.
pub record TrackedString : Type 0 where
  pub pt : Bytes
  pub src : Bytes

-- `reader`, with the bytes that it copies; none at the end of the text.
unfoldable pub reader : ℕ → ℕ → TrackedString → Bytes × TrackedString
reader size nmemb src =
    let len = min (length src.pt) (size * nmemb) in
    if len == 0 then ([], src) else (take len src.pt, record src { pt = drop len src.pt })

-- The options that a message sets, but for those that are the same for every message.
pub record Envelope : Type 0 where
  pub username : Bytes
  pub password : Bytes
  pub url : Bytes
  pub mail_from : Bytes
  pub mail_rcpt : List Bytes

-- A transfer: the sizes in the calls of the reader, and the code that `curl_easy_perform` returns.
pub record Transfer : Type 0 where
  pub reads : List (ℕ × ℕ)
  pub res : ℕ

-- What the calls of the reader hand over, call for call.
unfoldable pub run_reads : List (ℕ × ℕ) → TrackedString → List Bytes
run_reads [] src = []
run_reads ((size, nmemb) ∷ reads) src =
    let (piece, src) = reader size nmemb src in piece ∷ run_reads reads src

module _ {D : Type 0} where
  -- `scm_to_utf8_string`
  abbrev utf8_of : Scm D → Run Bytes
  utf8_of (string s) = ok s
  utf8_of _ = thrown

  -- The loop over the recipients.
  abbrev pub recipients_of : Scm D → Run (List Bytes)
  recipients_of null = ok []
  recipients_of (pair first rest) = do
    buf ← utf8_of first
    later ← recipients_of rest
    ok (buf ∷ later)
  recipients_of _ = fault

  -- `smtp_send`: what is told to curl, what it reads, and whether the message was sent. Nothing is
  -- told where curl gives no handle.
  unfoldable pub smtp_send :
      Bool
      → (Envelope → Transfer)
      → Scm D
      → Scm D
      → Scm D
      → Scm D
      → Scm D
      → Scm D
      → Run (Option (Envelope × List Bytes) × Bool)
  smtp_send false perform url mail_from recipients username password payload = ok (none, false)
  smtp_send true perform url mail_from recipients username password payload = do
    s_username ← utf8_of username
    s_password ← utf8_of password
    s_url ← utf8_of url
    s_from ← utf8_of mail_from
    s_recipients ← recipients_of recipients
    src ← utf8_of payload
    let envelope : Envelope = record {
      username = s_username;
      password = s_password;
      url = s_url;
      mail_from = s_from;
      mail_rcpt = s_recipients;
    }
    let transfer = perform envelope
    ok (
      some (envelope, run_reads transfer.reads (record { pt = src; src = src })),
      transfer.res == 0,
    )
