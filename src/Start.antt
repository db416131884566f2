-- ===== src/Start.antt =====
-- The main program, src/main.c: its options, the loop of main, the lines that it reads from its
-- input. What the clock, poll and read give, `atoi` and the evaluation of a line are parameters.
pub mod Schedule
pub mod Options
use gusher.Base.{
  ℕ, zero, suc, ◌+◌, Bool, true, false, Bytes, List, [], ◌∷◌, ◌++◌, length, leb, ltb, if◌then◌else◌,
  Option, none, some, Run, ok, fault, ◌>>=◌, ℤ, pos, negsuc,
}
use gusher.Buffer.{text_at}
use gusher.Frames.{Server, add_thread}

-- `POLICE_INTVL`, in seconds.
abbrev pub police_intvl : ℕ
police_intvl = 6

-- The line buffer of `process_line`.
abbrev pub linebuf_size : ℕ
linebuf_size = 1024

-- What `getopt` finds.
pub data Opt : Type 0 where
  port_option : Bytes → Opt
  threads_option : Bytes → Opt
  daemon_option : Opt
  heartbeat_option : Bytes → Opt
  single_option : Opt
  invalid_option : Opt

-- The statics and locals that the options set.
pub record Settings : Type 0 where
  pub http_port : ℤ
  pub max_threads : ℤ
  pub background : Bool
  pub pulse_file : Option Bytes
  pub threading : Bool

abbrev pub at_least_one : ℤ → ℤ
at_least_one (pos zero) = pos 1
at_least_one (pos (suc n)) = pos (suc n)
at_least_one (negsuc n) = pos 1

-- One case of the switch. The log that an invalid option is written to is not open yet.
unfoldable pub set_option : (Bytes → ℤ) → Opt → Settings → Run Settings
set_option atoi (port_option optarg) s = ok (record s { http_port = atoi optarg })
set_option atoi (threads_option optarg) s =
    ok (record s { max_threads = at_least_one (atoi optarg) })
set_option atoi daemon_option s = ok (record s { background = true })
set_option atoi (heartbeat_option optarg) s = ok (record s { pulse_file = some optarg })
set_option atoi single_option s = ok (record s { threading = false })
set_option atoi invalid_option s = fault

unfoldable pub set_options : (Bytes → ℤ) → List Opt → Settings → Run Settings
set_options atoi [] s = ok s
set_options atoi (opt ∷ opts) s = do s ← set_option atoi opt s; set_options atoi opts s

-- `while (n-- > 0) add_thread();`
unfoldable pub spawn_threads : ℕ → Server → Server
spawn_threads zero s = s
spawn_threads (suc n) s = spawn_threads n (add_thread s)

-- What the loop does, in order: the pulse file is written, the cache is policed, a connection is
-- taken, a line is evaluated, a character goes to the line editor.
pub data Action : Type 0 where
  heartbeat_to : Bytes → Action
  police : Action
  process_http : Action
  evaluate : Bytes → Action
  read_char : Action

-- What a read from the input gives: the end, an error, or bytes; or that it is a terminal.
pub data Input : Type 0 where
  terminal : Input
  end_of_input : Input
  read_error : Input
  bytes : Bytes → Input

-- One round: the clock, whether the pulse file can be made, what poll returns, which of the two
-- descriptors have something, and the input.
pub record Round : Type 0 where
  pub now : ℕ
  pub creates : Bool
  pub ready : ℕ
  pub http_ready : Bool
  pub input_ready : Bool
  pub input : Input

pub record Main : Type 0 where
  pub running : Bool
  pub mark : ℕ
  pub pulse_file : Option Bytes
  pub actions : List Action

abbrev pub act : Action → Main → Main
act action m = record m { actions = m.actions ++ action ∷ [] }

-- `exit_gusher`
unfoldable pub exit_gusher : Main → Main
exit_gusher m = record m { running = false }

-- `heartbeat`
unfoldable pub heartbeat : Bool → Main → Main
heartbeat creates m = elim m.pulse_file [
  | none ↦ m
  | some path ↦ if creates then act (heartbeat_to path) m else record m { pulse_file = none }
]

-- `if (time(NULL) >= mark) …`
unfoldable pub keep_time : ℕ → Bool → Main → Main
unfolding heartbeat
keep_time now creates m =
    if leb m.mark now
    then act police (heartbeat creates (record m { mark = m.mark + police_intvl }))
    else m

-- What an evaluation leaves: `exit` was called or not.
abbrev evaluated : Bool → Bytes → Main → Main
evaluated exits text m =
    if exits then exit_gusher (act (evaluate text) m) else act (evaluate text) m

module _ (exits : Bytes → Bool) where
  -- `process_line`. The NUL behind the bytes must lie in the buffer; an error gives it the index -1.
  unfoldable pub process_line : Input → Main → Run Main
  unfolding exit_gusher
  process_line terminal m = ok (act read_char m)
  process_line end_of_input m = ok (exit_gusher m)
  process_line read_error m = fault
  process_line (bytes linebuf) m =
      if ltb (length linebuf) linebuf_size
      then (do text ← text_at (linebuf ++ 0 ∷ []) 0; ok (evaluated (exits text) text m))
      else fault

  -- `line_handler`
  unfoldable pub line_handler : Option Bytes → Main → Main
  unfolding exit_gusher
  line_handler none m = exit_gusher m
  line_handler (some line) m = evaluated (exits line) line m

  -- What a round does with the descriptors.
  unfoldable pub attend : Round → Main → Run Main
  unfolding process_line
  attend r m =
      if ltb r.ready 1
      then ok m
      else (let m = if r.http_ready then act process_http m else m in
          if r.input_ready then process_line r.input m else ok m)

  -- One round of the loop.
  unfoldable pub main_round : Round → Main → Run Main
  unfolding keep_time attend
  main_round r m = attend r (keep_time r.now r.creates m)

  -- `while (running) …`, over the rounds to come.
  unfoldable pub main_loop : List Round → Main → Run Main
  main_loop [] m = ok m
  main_loop (r ∷ rounds) m = if m.running then (do m ← main_round r m; main_loop rounds m) else ok m
