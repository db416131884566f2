-- ===== src/Postgres/Values.antt =====
-- `decode_timestamp` of src/postgres.c on the text of a date, or of a date and a time.
use gusher.Base.{
  ℕ, ◌+◌, ◌-◌, ◌*◌, ◌≡◌, refl, ap, true, false, Bytes, [], ◌∷◌, ◌++◌, ◌==◌, All, Option, none, some,
  Run, ok, pos, is_digit, is_space, arith,
}
use gusher.CString.{split_at}
use gusher.Form.{atoi, atoi_digits, atoi_sign}
use gusher.Gtime.{GTime, Doubles, Calendar, local_time_intern}
use gusher.Scheme.{Scm, boolean, timestamp}
use gusher.Postgres.{after, has, clock_of, decode_timestamp}

-- A number's text: digits, at least one.
abbrev pub IsNumber : Bytes → Type 0
IsNumber [] = ⊥
IsNumber (c ∷ s) = (is_digit c ≡ true) × All (λ x. is_digit x ≡ true) s

atoi_digits-stop :
    (s : Bytes) (c : ℕ) (rest : Bytes) (n : ℕ)
    → All (λ x. is_digit x ≡ true) s
    → is_digit c ≡ false
    → atoi_digits n (s ++ c ∷ rest) ≡ atoi_digits n s
unfolding atoi_digits
atoi_digits-stop [] c rest n h stop = rw stop refl
atoi_digits-stop (x ∷ s) c rest n h stop =
    rw h.0 (atoi_digits-stop s c rest (n * 10 + (x - b'0')) h.1 stop)

digit_start :
    (c : ℕ)
    → is_digit c ≡ true
    → (is_space c ≡ false) × ((c == b'-') ≡ false) × ((c == b'+') ≡ false)
unfolding is_digit is_space
digit_start c h = ground arith

-- `atoi` reads a number to its last digit, whatever follows it.
atoi-stop :
    (s : Bytes) (c : ℕ) (rest : Bytes)
    → IsNumber s
    → is_digit c ≡ false
    → atoi (s ++ c ∷ rest) ≡ atoi s
unfolding atoi atoi_sign
atoi-stop [] c rest h stop = elim h [ ]
atoi-stop (x ∷ s) c rest h stop =
    let (space, minus, plus) = digit_start x h.0 in
    rw (space, minus, plus) (ap pos (atoi_digits-stop (x ∷ s) c rest 0 h stop))

not_digit : (x c : ℕ) → is_digit x ≡ true → is_digit c ≡ false → (x == c) ≡ false
unfolding is_digit
not_digit x c h stop = ground arith

split_at-digits :
    (s : Bytes) (c : ℕ) (rest : Bytes)
    → All (λ x. is_digit x ≡ true) s
    → is_digit c ≡ false
    → split_at c (s ++ c ∷ rest) ≡ some (s, rest)
unfolding split_at
split_at-digits [] c rest h stop = let same : (c == c) ≡ true = ground arith in rw same refl
split_at-digits (x ∷ s) c rest h stop =
    rw (not_digit x c h.0 stop, split_at-digits s c rest h.1 stop) refl

IsNumber-All : (s : Bytes) → IsNumber s → All (λ x. is_digit x ≡ true) s
IsNumber-All [] h = elim h [ ]
IsNumber-All (x ∷ s) h = h

after-number :
    (s : Bytes) (c : ℕ) (rest : Bytes)
    → IsNumber s
    → is_digit c ≡ false
    → after c (s ++ c ∷ rest) ≡ ok rest
unfolding after
after-number s c rest h stop = rw (after, split_at-digits s c rest (IsNumber-All s h) stop) refl

-- A date and a time as the server prints them; the second may have a fraction.
pub record Stamp : Type 0 where
  pub year : Bytes
  pub month : Bytes
  pub day : Bytes
  pub hour : Bytes
  pub minute : Bytes
  pub second : Bytes

abbrev pub stamp_text : Stamp → Bytes
stamp_text s =
    s.year
    ++ b'-' ∷ (s.month ++ b'-' ∷ (s.day ++ 32 ∷ (s.hour ++ b':' ∷ (s.minute ++ b':' ∷ s.second))))

pub record IsStamp (s : Stamp) : Type 0 where
  pub year_number : IsNumber s.year
  pub month_number : IsNumber s.month
  pub day_number : IsNumber s.day
  pub hour_number : IsNumber s.hour
  pub minute_number : IsNumber s.minute

split_later :
    (s : Bytes) (c d : ℕ) (t rest : Bytes)
    → All (λ x. is_digit x ≡ true) s
    → is_digit c ≡ false
    → (d == c) ≡ false
    → All (λ x. is_digit x ≡ true) t
    → split_at c (s ++ d ∷ (t ++ c ∷ rest)) ≡ some (s ++ d ∷ t, rest)
unfolding split_at
split_later [] c d t rest hs stop ne ht = rw (ne, split_at-digits t c rest ht stop) refl
split_later (x ∷ s) c d t rest hs stop ne ht =
    rw (not_digit x c hs.0 stop, split_later s c d t rest hs.1 stop ne ht) refl

module _ {D : Type 0} (dbl : Doubles D) (cal : Calendar) where
  -- `#f` where the calendar refuses the date.
  abbrev pub stamped : Option GTime → Scm D
  stamped none = boolean false
  stamped (some t) = timestamp t

  finish_stamp :
      (o : Option GTime)
      → ◌≡◌ {A = Run (Scm D)}
          (elim o [ none ↦ ok (boolean false) | some t ↦ ok (timestamp t) ])
          (ok (stamped o))
  finish_stamp none = refl
  finish_stamp (some t) = refl

  -- On the text of a date and a time whose parts but the second are numbers, decode_timestamp
  -- makes the local time of just those numbers and of the second as a double, or `#f` where the
  -- calendar refuses them.
  pub decode_timestamp-Stamp :
      (s : Stamp)
      → IsStamp s
      → decode_timestamp dbl cal (stamp_text s)
        ≡ ok (
            stamped (
              local_time_intern dbl cal
                (atoi s.year)
                (atoi s.month)
                (atoi s.day)
                (atoi s.hour)
                (atoi s.minute)
                (dbl.atof s.second)))
  unfolding decode_timestamp clock_of is_digit
  decode_timestamp-Stamp s w =
      let r4 = s.minute ++ b':' ∷ s.second in
      let r3 = s.hour ++ b':' ∷ r4 in
      let r2 = s.day ++ 32 ∷ r3 in
      let r1 = s.month ++ b'-' ∷ r2 in
      let clock : has b':' r2 ≡ true =
        rw
          (
            has,
            split_later s.day b':' 32 s.hour r4 (IsNumber-All s.day w.day_number) refl refl
                (IsNumber-All s.hour w.hour_number),
          )
          refl in
      rw
        (
          after-number s.year b'-' r1 w.year_number refl,
          after-number s.month b'-' r2 w.month_number refl,
          clock,
          after-number s.day 32 r3 w.day_number refl,
          after-number s.hour b':' r4 w.hour_number refl,
          after-number s.minute b':' s.second w.minute_number refl,
          atoi-stop s.year b'-' r1 w.year_number refl,
          atoi-stop s.month b'-' r2 w.month_number refl,
          atoi-stop s.day 32 r3 w.day_number refl,
          atoi-stop s.hour b':' r4 w.hour_number refl,
          atoi-stop s.minute b':' s.second w.minute_number refl,
        )
        (finish_stamp _)
