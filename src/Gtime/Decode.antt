-- ===== src/Gtime/Decode.antt =====
-- `time_decode` of src/gtime.c on a stamp, `year-month-dayThour:minute:second`, anything, and the zone.
use gusher.Base.{◌+◌, Bytes, [], ◌∷◌, ◌++◌, pos, negsuc, minus, length}
use gusher.Buffer.Border.{IsText}
use gusher.Form.{atoi}
use gusher.Gtime.{Tm, Groups}

-- The parts of a stamp, with the six bytes that end its numbers, and what stands before the zone.
pub record Stamp : Type 0 where
  pub year : Bytes
  pub month : Bytes
  pub day : Bytes
  pub hour : Bytes
  pub minute : Bytes
  pub second : Bytes
  pub fraction : Bytes
  pub zone : Bytes

-- The stamp's text, with its NUL.
abbrev pub stamp_text : Stamp → Bytes
stamp_text s =
    s.year
    ++ b'-'
      ∷ (s.month
          ++ b'-'
            ∷ (s.day
                ++ b'T'
                  ∷ (s.hour
                      ++ b':'
                        ∷ (s.minute
                            ++ b':' ∷ (s.second ++ b'.' ∷ (s.fraction ++ (s.zone ++ 0 ∷ [])))))))

pub record IsStamp (s : Stamp) : Type 0 where
  pub year_text : IsText s.year
  pub month_text : IsText s.month
  pub day_text : IsText s.day
  pub hour_text : IsText s.hour
  pub minute_text : IsText s.minute
  pub second_text : IsText s.second
  pub zone_text : IsText s.zone

-- Where the pattern's groups lie in the stamp.
abbrev pub groups : Stamp → Groups
groups s =
    let eo1 = length s.year in
    let eo2 = eo1 + 1 + length s.month in
    let eo3 = eo2 + 1 + length s.day in
    let eo4 = eo3 + 1 + length s.hour in
    let eo5 = eo4 + 1 + length s.minute in
    let eo6 = eo5 + 1 + length s.second in
    record {
      eo1 = eo1;
      eo2 = eo2;
      eo3 = eo3;
      eo4 = eo4;
      eo5 = eo5;
      eo6 = eo6;
      so7 = eo6 + 1 + length s.fraction;
    }

abbrev pub stamp_tm : Stamp → Tm
stamp_tm s = record {
  tm_sec = atoi s.second;
  tm_min = atoi s.minute;
  tm_hour = atoi s.hour;
  tm_mday = atoi s.day;
  tm_mon = minus (atoi s.month) 1;
  tm_year = minus (atoi s.year) 1900;
  tm_wday = pos 0;
  tm_isdst = negsuc 0;
  tm_gmtoff = pos 0;
  tm_zone = [];
}
