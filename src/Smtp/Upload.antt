-- ===== src/Smtp/Upload.antt =====
-- What curl reads of a message's text, src/smtp.c.
use gusher.Base.{
  ℕ, ◌+◌, ◌*◌, ◌≤◌, ◌≡◌, refl, sym, ap, ◌∙◌, true, Bytes, List, [], ◌∷◌, ◌++◌, length, take, drop,
  min, some, ok, ◌==◌, Bool-cases, inl, inr, take-min, drop-min, take-sum, take-short, arith,
}
use gusher.Scheme.{Scm, null, string, pair}
use gusher.Smtp.{reader, Envelope, Transfer, recipients_of, run_reads, smtp_send}

abbrev pub joined : List Bytes → Bytes
joined [] = []
joined (piece ∷ pieces) = piece ++ joined pieces

-- All the room that is offered.
abbrev pub room : List (ℕ × ℕ) → ℕ
room [] = 0
room ((size, nmemb) ∷ reads) = size * nmemb + room reads

-- A list of strings.
abbrev pub strings : {D : Type 0} → List Bytes → Scm D
strings [] = null
strings (s ∷ rest) = pair (string s) (strings rest)

reader-take :
    (size nmemb : ℕ) (pt src : Bytes)
    → reader size nmemb (record { pt = pt; src = src })
      ≡ (take (size * nmemb) pt, record { pt = drop (size * nmemb) pt; src = src })
unfolding reader
reader-take size nmemb pt src =
    let n = size * nmemb in
    elim (Bool-cases (min (length pt) n == 0)) [
      | inl q ↦
          let empty : min (length pt) n ≡ 0 = ground arith in
          rw q (
            ap (λ piece. (piece, record { pt = pt; src = src }))
              (sym (ap (λ k. take k pt) empty) ∙ take-min n pt)
            ∙ ap (λ rest. (take n pt, record { pt = rest; src = src }))
                (sym (ap (λ k. drop k pt) empty) ∙ drop-min n pt))
      | inr q ↦ rw (q, take-min n pt, drop-min n pt) refl
    ]

run_reads-take :
    (reads : List (ℕ × ℕ)) (pt src : Bytes)
    → joined (run_reads reads (record { pt = pt; src = src })) ≡ take (room reads) pt
unfolding run_reads
run_reads-take [] pt src = refl
run_reads-take ((size, nmemb) ∷ reads) pt src =
    rw (reader-take size nmemb pt src, run_reads-take reads (drop (size * nmemb) pt) src)
      (take-sum (size * nmemb) (room reads) pt)

module _ (D : Type 0) where
  recipients_of-strings : (rcpt : List Bytes) → recipients_of (strings {D = D} rcpt) ≡ ok rcpt
  recipients_of-strings [] = refl
  recipients_of-strings (s ∷ rest) = rw (recipients_of-strings rest) refl

  -- With a handle, string arguments and a list of strings for the recipients: where the reads that
  -- curl makes for the envelope offer together at least as much room as the text has bytes,
  -- smtp_send tells curl the envelope with the recipients in their order, the pieces that reader
  -- hands over are together the text, and the answer is true just where curl reports no error.
  pub smtp_send-whole :
      (perform : Envelope → Transfer) (e : Envelope) (text : Bytes)
      → length text ≤ room (perform e).reads
      → (pieces : List Bytes) × (smtp_send {D = D} true perform
            (string e.url)
            (string e.mail_from)
            (strings e.mail_rcpt)
            (string e.username)
            (string e.password)
            (string text)
          ≡ ok (some (e, pieces), (perform e).res == 0))
        × (joined pieces ≡ text)
  unfolding smtp_send
  smtp_send-whole perform e text fits =
      let reads = (perform e).reads in
      (
        run_reads reads (record { pt = text; src = text }),
        rw (recipients_of-strings e.mail_rcpt) refl,
        run_reads-take reads text text ∙ take-short (room reads) text fits,
      )
