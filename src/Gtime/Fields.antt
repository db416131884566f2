-- ===== src/Gtime/Fields.antt =====
-- The fields and the microseconds of the times that src/gtime.c makes.
use gusher.Base.{◌≡◌, refl, true, false, some, ℤ, pos, negsuc, ◌+ℤ◌, ◌≤ℤ◌, minus_add, ltb_ℤ, arith}
use gusher.Gtime.{
  Tm, GTime, Doubles, Calendar, million, carry, is_error, micros, epoch_sec, pad, at_epoch,
  local_time_intern, time_at, time_add, time_year, time_month, time_mday, time_hour, time_min,
}

-- Whole microseconds of a second.
abbrev pub IsMicros : ℤ → Type 0
IsMicros usec = (pos 0 ≤ℤ usec) × (usec ≤ℤ pos 999999)

carry-IsMicros : (usec : ℤ) → pos 0 ≤ℤ usec → usec ≤ℤ million → IsMicros (carry usec).1
unfolding carry
carry-IsMicros (pos n) lo hi = ground arith
carry-IsMicros (negsuc n) lo hi = absurd (omega arith)

carry_small : (usec : ℤ) → usec ≤ℤ pos 999999 → carry usec ≡ (pos 0, usec)
unfolding carry
carry_small usec h = let small : ltb_ℤ usec million ≡ true = ground arith in rw small refl

add_zero : (a : ℤ) → a +ℤ pos 0 ≡ a
add_zero (pos n) = ground arith
add_zero (negsuc n) = ground arith

module _ {D : Type 0} (dbl : Doubles D) (cal : Calendar) where
  -- The distance of a double from the whole number below it, in microseconds, is at most a second.
  abbrev pub Fraction : Type 0
  Fraction =
      (x : D)
      → ((pos 0 ≤ℤ micros dbl (dbl.sub x (dbl.of_int (dbl.to_int (dbl.floor x)))))
          × (micros dbl (dbl.sub x (dbl.of_int (dbl.to_int (dbl.floor x)))) ≤ℤ million))
        × ((pos 0 ≤ℤ micros dbl (dbl.sub x (dbl.of_int (dbl.to_time (dbl.floor x)))))
            × (micros dbl (dbl.sub x (dbl.of_int (dbl.to_time (dbl.floor x)))) ≤ℤ million))

  -- Where the distance of a double from the whole number below it is between no and a million
  -- microseconds after rounding, the times that time_at and time_add make have between 0 and
  -- 999999 microseconds: a distance that rounds up to a second is carried.
  pub time_at-IsMicros :
      (dep : D) (time : GTime) (sec : D)
      → Fraction
      → IsMicros (time_at dbl cal dep).usec × IsMicros (time_add dbl cal time sec).usec
  unfolding time_at time_add at_epoch
  time_at-IsMicros dep time sec f =
      let d = f dep in
      let t = f (dbl.add (epoch_sec dbl time) sec) in
      (carry-IsMicros _ d.0.0 d.0.1, carry-IsMicros _ t.1.0 t.1.1)

  -- `localtime` of what `mktime` gives has the fields that `mktime` was given.
  abbrev pub Agree : Tm → Type 0
  Agree tm =
      let back = cal.localtime (cal.mktime tm).0 in
      (back.tm_year ≡ tm.tm_year)
      × (back.tm_mon ≡ tm.tm_mon)
      × (back.tm_mday ≡ tm.tm_mday)
      × (back.tm_hour ≡ tm.tm_hour)
      × (back.tm_min ≡ tm.tm_min)

  -- Where the calendar accepts the date and localtime gives back the fields of what mktime made,
  -- and the second's fraction does not round up to a whole second, local_time_intern gives a time
  -- whose year, month, day, hour and minute are those that it was given.
  pub local_time_intern-fields :
      (year month day hour minute : ℤ) (second : D)
      → Agree (pad dbl year month day hour minute second)
      → is_error (cal.mktime (pad dbl year month day hour minute second)).0 ≡ false
      → micros dbl (dbl.sub second (dbl.of_int (dbl.to_int second))) ≤ℤ pos 999999
      → (t : GTime) × (local_time_intern dbl cal year month day hour minute second ≡ some t)
        × (time_year t ≡ year)
        × (time_month t ≡ month)
        × (time_mday t ≡ day)
        × (time_hour t ≡ hour)
        × (time_min t ≡ minute)
  unfolding local_time_intern time_year time_month time_mday time_hour time_min at_epoch
  local_time_intern-fields year month day hour minute second agree fine whole =
      let tm = pad dbl year month day hour minute second in
      let epoch = (cal.mktime tm).0 in
      let usec = micros dbl (dbl.sub second (dbl.of_int (dbl.to_int second))) in
      (
        at_epoch dbl cal epoch usec,
        rw (fine, carry_small usec whole, add_zero epoch) refl,
        rw agree.0 (minus_add year 1900),
        rw agree.1 (minus_add month 1),
        agree.2,
        agree.3,
        agree.4,
      )
