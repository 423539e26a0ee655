-- ===== src/GlobalMarket/Sessions.antt =====
-- The session of a day.
use social_sentiment.Prelude.{
  Option, String, ℕ, ◌<◌, ◌*◌, ◌≤◌, get_or, some, ◌+◌, ◌≡◌, none, Bool-cases, arith, ltb, ◌&&◌, inl,
  inr, refl,
}
use social_sentiment.GlobalMarket.{
  parse_session_time, daily_bounds, session_time, wall_time, split_colon,
}

wall_time-lt :
    (hour minute : Option ℕ) (fallback : ℕ)
    → fallback < 1440
    → get_or (wall_time hour minute) fallback < 1440
wall_time-lt none minute fallback lt = lt
wall_time-lt (some hour) none fallback lt = lt
wall_time-lt (some hour) (some minute) fallback lt =
    elim (Bool-cases (ltb hour 24 && ltb minute 60)) [
      | inl e ↦ rw e (ground (arith, e))
      | inr e ↦ rw e lt
    ]

session_time-lt :
    (int_of : String → Option ℕ) (fallback : ℕ) (parts : Option (String × String))
    → fallback < 1440
    → session_time int_of fallback parts < 1440
session_time-lt int_of fallback none lt = lt
session_time-lt int_of fallback (some (hour, minute)) lt =
    wall_time-lt (int_of hour) (int_of minute) fallback lt

parse_session_time-lt :
    (int_of : String → Option ℕ) (value : Option String) (fallback : ℕ)
    → fallback < 1440
    → parse_session_time int_of value fallback < 1440
unfolding parse_session_time
parse_session_time-lt int_of none fallback lt = lt
parse_session_time-lt int_of (some value) fallback lt =
    session_time-lt int_of fallback (split_colon value) lt

-- the minutes of local time since the first day
abbrev pub minutes : ℕ → ℕ → ℕ
minutes date time = date * 1440 + time

-- Whatever the metadata says, the session of a day starts no later than it ends, lasts less than a
-- day and ends on that day.
pub daily_bounds_order :
    (int_of : String → Option ℕ) (session_date : ℕ) (opens closes : Option String)
    → 1 ≤ session_date
    → let s = daily_bounds int_of session_date opens closes in
      (minutes s.start_date s.open_time ≤ minutes s.end_date s.close_time)
      × (minutes s.end_date s.close_time < minutes s.start_date s.open_time + 1440)
      × (s.end_date ≡ session_date)
unfolding daily_bounds
daily_bounds_order int_of session_date opens closes real =
    let o = parse_session_time int_of opens 0 in
    let c = parse_session_time int_of closes 1439 in
    let early = parse_session_time-lt int_of opens 0 (omega arith) in
    let late = parse_session_time-lt int_of closes 1439 (omega arith) in
    elim (Bool-cases (ltb c o)) [
      | inl e ↦
          let before : c < o = ground arith in
          rw e (
            omega (arith, before, early, late, real),
            omega (arith, before, early, late, real),
            refl,
          )
      | inr e ↦
          let after : o ≤ c = ground arith in
          rw e (omega (arith, after, early, late), omega (arith, after, early, late), refl)
    ]
