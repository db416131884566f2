-- ===== src/Gtime.antt =====
-- Points in time, src/gtime.c: `struct g_time`, its constructors and accessors, and `time_decode`.
-- Doubles and the C library's calendar are parameters.
pub mod Decode
pub mod Fields
use gusher.Base.{
  ℕ, ◌+◌, Bool, true, false, Bytes, List, [], ◌∷◌, ◌++◌, Option, none, some, Run, ok, fault, ◌>>=◌,
  ℤ, pos, negsuc, ◌+ℤ◌, minus, times, negate, ltb_ℤ, if◌then◌else◌, ◌==◌,
}
use gusher.Buffer.{store, text_at}
use gusher.CString.{codes}
use gusher.Form.{atoi}

-- `struct tm`
pub record Tm : Type 0 where
  pub tm_sec : ℤ
  pub tm_min : ℤ
  pub tm_hour : ℤ
  pub tm_mday : ℤ
  pub tm_mon : ℤ
  pub tm_year : ℤ
  pub tm_wday : ℤ
  pub tm_isdst : ℤ
  pub tm_gmtoff : ℤ
  pub tm_zone : Bytes

-- `struct g_time`
pub record GTime : Type 0 where
  pub time : Tm
  pub usec : ℤ
  pub epoch : ℤ

-- The operations on `double`: `to_int` is the conversion to `int`, `to_time` that to `time_t`.
pub record Doubles (D : Type 0) : Type 0 where
  pub of_int : ℤ → D
  pub add : D → D → D
  pub sub : D → D → D
  pub mul : D → D → D
  pub div : D → D → D
  pub half : D
  pub floor : D → D
  pub to_int : D → ℤ
  pub to_time : D → ℤ
  pub atof : Bytes → D

-- The C library's calendar: `mktime` gives the seconds since the epoch, or -1, and the fields that
-- it has brought into range; `strftime` gives nothing where the text does not fit.
pub record Calendar : Type 0 where
  pub mktime : Tm → ℤ × Tm
  pub localtime : ℤ → Tm
  pub strftime : ℕ → Bytes → Tm → Option Bytes

abbrev pub million : ℤ
million = pos 1000000

-- `if (usec >= 1000000) …`: the second that is carried, and what is left.
unfoldable pub carry : ℤ → ℤ × ℤ
carry usec = if ltb_ℤ usec million then (pos 0, usec) else (pos 1, minus usec 1000000)

abbrev pub is_error : ℤ → Bool
is_error (pos n) = false
is_error (negsuc n) = n == 0

module _ {D : Type 0} (dbl : Doubles D) where
  -- `(int)(x * 1000000 + 0.5)`
  unfoldable pub micros : D → ℤ
  micros x = dbl.to_int (dbl.add (dbl.mul x (dbl.of_int million)) dbl.half)

  -- `epoch_sec`
  unfoldable pub epoch_sec : GTime → D
  epoch_sec t = dbl.add (dbl.of_int t.epoch) (dbl.div (dbl.of_int t.usec) (dbl.of_int million))

  unfoldable pub time_sec : GTime → D
  time_sec t = dbl.add (dbl.of_int t.time.tm_sec) (dbl.div (dbl.of_int t.usec) (dbl.of_int million))

  unfoldable pub time_epoch : GTime → D
  time_epoch t = dbl.add (dbl.of_int t.epoch) (dbl.div (dbl.of_int t.usec) (dbl.of_int million))

  unfoldable pub time_diff : GTime → GTime → D
  unfolding epoch_sec
  time_diff time1 time2 = dbl.sub (epoch_sec time1) (epoch_sec time2)

  -- What `local_time_intern` passes to `mktime`; the fields that it does not set are not read.
  abbrev pub pad : ℤ → ℤ → ℤ → ℤ → ℤ → D → Tm
  pad year month day hour minute second = record {
    tm_sec = dbl.to_int second;
    tm_min = minute;
    tm_hour = hour;
    tm_mday = day;
    tm_mon = minus month 1;
    tm_year = minus year 1900;
    tm_wday = pos 0;
    tm_isdst = negsuc 0;
    tm_gmtoff = pos 0;
    tm_zone = [];
  }

  module _ (cal : Calendar) where
    -- The record that each constructor fills from the seconds and microseconds.
    unfoldable pub at_epoch : ℤ → ℤ → GTime
    at_epoch epoch usec = record { time = cal.localtime epoch; usec = usec; epoch = epoch }

    -- `local_time_intern`; nothing for `#f`.
    unfoldable pub local_time_intern : ℤ → ℤ → ℤ → ℤ → ℤ → D → Option GTime
    local_time_intern year month day hour minute second =
        let (bump, usec) = carry (micros (dbl.sub second (dbl.of_int (dbl.to_int second)))) in
        let epoch = (cal.mktime (pad year month day hour minute second)).0 in
        if is_error epoch then none else some (at_epoch (epoch +ℤ bump) usec)

    unfoldable pub time_at : D → GTime
    time_at dep =
        let ep = dbl.to_int (dbl.floor dep) in
        let (bump, usec) = carry (micros (dbl.sub dep (dbl.of_int ep))) in
        at_epoch (ep +ℤ bump) usec

    unfoldable pub time_add : GTime → D → GTime
    time_add time sec =
        let dtime = dbl.add (epoch_sec time) sec in
        let ntime = dbl.to_time (dbl.floor dtime) in
        let (bump, usec) = carry (micros (dbl.sub dtime (dbl.of_int ntime))) in
        at_epoch (ntime +ℤ bump) usec

module _ (cal : Calendar) where
  -- `now_time`, on what `gettimeofday` gave.
  unfoldable pub now_time : ℤ × ℤ → GTime
  now_time (tv_sec, tv_usec) = record {
    time = cal.localtime tv_sec;
    usec = tv_usec;
    epoch = tv_sec;
  }

  -- `format_time`; a text that does not fit leaves the buffer with no defined contents.
  unfoldable pub format_time : GTime → Bytes → Run Bytes
  format_time time format = elim (cal.strftime 256 format time.time) [
    | none ↦ fault
    | some text ↦ ok text
  ]

unfoldable pub time_year : GTime → ℤ
time_year t = t.time.tm_year +ℤ pos 1900

unfoldable pub time_month : GTime → ℤ
time_month t = t.time.tm_mon +ℤ pos 1

unfoldable pub time_mday : GTime → ℤ
time_mday t = t.time.tm_mday

unfoldable pub time_wday : GTime → ℤ
time_wday t = t.time.tm_wday

unfoldable pub time_hour : GTime → ℤ
time_hour t = t.time.tm_hour

unfoldable pub time_min : GTime → ℤ
time_min t = t.time.tm_min

unfoldable pub time_offset : GTime → ℤ
time_offset t = t.time.tm_gmtoff

unfoldable pub time_zone : GTime → Bytes
time_zone t = t.time.tm_zone

-- `*(next = &str[eo]) = '\0'; … atoi(pt)`
unfoldable pub cut_number : Bytes → ℕ → ℕ → Run (ℤ × Bytes)
cut_number mem pt eo = do mem ← store mem eo 0; digits ← text_at mem pt; ok (atoi digits, mem)

-- The ends of the first six groups of `time_pat1`, and the start of the seventh.
pub record Groups : Type 0 where
  pub eo1 : ℕ
  pub eo2 : ℕ
  pub eo3 : ℕ
  pub eo4 : ℕ
  pub eo5 : ℕ
  pub eo6 : ℕ
  pub so7 : ℕ

-- The fields of a stamp that the pattern matches, and its zone.
unfoldable pub stamp_fields : Bytes → Groups → Run (Tm × ℤ)
unfolding cut_number
stamp_fields str g = do
  (year, mem) ← cut_number (str ++ 0 ∷ []) 0 g.eo1
  (month, mem) ← cut_number mem (g.eo1 + 1) g.eo2
  (day, mem) ← cut_number mem (g.eo2 + 1) g.eo3
  (hour, mem) ← cut_number mem (g.eo3 + 1) g.eo4
  (min, mem) ← cut_number mem (g.eo4 + 1) g.eo5
  (sec, mem) ← cut_number mem (g.eo5 + 1) g.eo6
  zone ← text_at mem g.so7
  let time : Tm = record {
    tm_sec = sec;
    tm_min = min;
    tm_hour = hour;
    tm_mday = day;
    tm_mon = minus month 1;
    tm_year = minus year 1900;
    tm_wday = pos 0;
    tm_isdst = negsuc 0;
    tm_gmtoff = pos 0;
    tm_zone = [];
  }
  ok (time, atoi zone)

module _ (cal : Calendar) (time_pat1 : Bytes → Option Groups) (curl_getdate : Bytes → ℤ) where
  -- The seconds of such a stamp: `mktime` has set the offset of the local zone.
  unfoldable pub stamp_epoch : Tm → ℤ → ℤ
  stamp_epoch time zone =
      let (epoch, set) = cal.mktime time in epoch +ℤ (set.tm_gmtoff +ℤ negate (times zone 3600))

  epoch_of : Bytes → Option Groups → Run ℤ
  unfolding stamp_fields stamp_epoch
  epoch_of str none = ok (curl_getdate str)
  epoch_of str (some g) = do (time, zone) ← stamp_fields str g; ok (stamp_epoch time zone)

  unfoldable pub time_decode : Bytes → Run GTime
  unfolding epoch_of
  time_decode str = do
    epoch ← epoch_of str (time_pat1 str)
    ok (record { time = cal.localtime epoch; usec = pos 0; epoch = epoch })
