-- ===== src/Tests/Clock.antt =====
-- Doubles and a calendar to run src/gtime.c on: doubles are whole seconds, and the calendar knows
-- one minute of one day.
use gusher.Base.{ℕ, ◌+◌, ◌-◌, ◌*◌, some, pos, pos_part}
use gusher.CString.{codes}
use gusher.Form.{atoi}
use gusher.Gtime.{Tm, Doubles, Calendar}
use gusher.Gtime.Decode.{Stamp}

abbrev pub seconds : Doubles ℕ
seconds = record {
  of_int = pos_part;
  add = λ a b. a + b;
  sub = λ a b. a - b;
  mul = λ a b. a * b;
  div = λ a b. a;
  half = 0;
  floor = λ a. a;
  to_int = pos;
  to_time = pos;
  atof = λ s. pos_part (atoi s);
}

abbrev noon : Tm
noon = record {
  tm_sec = pos 5;
  tm_min = pos 4;
  tm_hour = pos 3;
  tm_mday = pos 2;
  tm_mon = pos 0;
  tm_year = pos 121;
  tm_wday = pos 6;
  tm_isdst = pos 0;
  tm_gmtoff = pos 3600;
  tm_zone = codes "CET";
}

abbrev pub calendar : Calendar
calendar = record {
  mktime = λ tm. (pos 1609553045, record tm { tm_gmtoff = pos 3600 });
  localtime = λ epoch. noon;
  strftime = λ size format tm. some (codes "now");
}

abbrev stamp : Stamp
stamp = record {
  year = codes "2021";
  month = codes "01";
  day = codes "02";
  hour = codes "03";
  minute = codes "04";
  second = codes "05";
  fraction = codes "5";
  zone = codes "+02";
}
