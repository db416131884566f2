-- ===== src/Tests/Starts.antt =====
-- The start of the server and the loop of main, src/main.c, and the end of its queues.
use gusher.Base.{
  ℕ, pos, ◌+◌, ◌*◌, ◌≤◌, ◌<◌, ◌≡◌, refl, max, Bool, true, false, Bytes, List, [], ◌∷◌, length, ltb,
  if◌then◌else◌, none, some, ok, fault, ◌⊎◌, ℤ, arith,
}
use gusher.CString.{codes}
use gusher.Frames.Chain.{occurs}
use gusher.Frames.Clear.{clear_queues, reachable-clears}
use gusher.Start.{
  Settings, threads_option, daemon_option, heartbeat_option, set_options, Round, Main, terminal,
  bytes, read_error, main_loop, process_line,
}
use gusher.Start.Options.{IsPositive, set_options-settings}
use gusher.Start.Schedule.{polices, main_loop-schedule}
use gusher.Tests.Threads.{one_taken, reach_taken}

abbrev defaults : Settings
defaults = record {
  http_port = pos 8080;
  max_threads = pos 32;
  background = false;
  pulse_file = none;
  threading = true;
}

abbrev length_of : Bytes → ℤ
length_of s = pos (length s)

-- `-t "" -d -h f -d`
set_options-settings_example :
    (t : Settings) × (set_options length_of
        (threads_option [] ∷ daemon_option ∷ heartbeat_option (codes "f") ∷ daemon_option ∷ [])
        defaults
      ≡ ok t)
    × IsPositive t.max_threads
    × (t.http_port ≡ pos 8080)
    × (t.pulse_file ≡ some (codes "f"))
    × (t.background ≡ true)
    × (t.threading ≡ true)
set_options-settings_example =
    set_options-settings length_of
      (threads_option [] ∷ daemon_option ∷ heartbeat_option (codes "f") ∷ daemon_option ∷ [])
      defaults (tt, (tt, (tt, (tt, tt)))) tt

-- Two rounds: one before the first check is due, one when it is.
abbrev rounds : List Round
rounds =
    (record {
      now = 10;
      creates = true;
      ready = 1;
      http_ready = true;
      input_ready = false;
      input = terminal;
    })
    ∷ (record {
      now = 12;
      creates = true;
      ready = 1;
      http_ready = false;
      input_ready = true;
      input = bytes (codes "x");
    })
    ∷ []

abbrev main_state : Main
main_state = record { running = true; mark = 12; pulse_file = some (codes "f"); actions = [] }

abbrev stays : Bytes → Bool
stays line = false

main_loop-schedule_example :
    (next : Main) × (k : ℕ) × (main_loop stays rounds main_state ≡ ok next)
    × (polices next.actions ≡ 0 + k)
    × (next.mark ≡ 12 + 6 * k)
    × (next.mark ≤ max 12 (12 + 6))
    × ((next.running ≡ false) ⊎ ((10 < next.mark) ⊎ (k ≡ 2)))
main_loop-schedule_example =
    main_loop-schedule stays rounds main_state 10 12
      ((tt, omega arith, omega arith), ((omega arith, omega arith, omega arith), tt))

-- An error of the read puts a NUL in front of the buffer.
read_error_faults : process_line stays read_error main_state ≡ fault
unfolding process_line
read_error_faults = refl

reachable-clears_example :
    (freed : List ℕ) × (clear_queues one_taken.server
      ≡ ok (freed, record one_taken.server { req_queue = none; req_pool = none }))
    × ((a : ℕ)
        → occurs a freed + occurs a one_taken.held
          ≡ (if ltb a (length one_taken.server.frames) then 1 else 0))
reachable-clears_example = reachable-clears 4 one_taken reach_taken
