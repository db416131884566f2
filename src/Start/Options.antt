-- ===== src/Start/Options.antt =====
-- What the options of src/main.c leave, whatever their order and number.
use gusher.Base.{
  ℕ, zero, suc, ◌+◌, ◌<◌, Bool-cases, inl, inr, ◌≤◌, ◌≡◌, refl, ◌∙◌, Bool, true, false, Bytes, List,
  [], ◌∷◌, leb, if◌then◌else◌, Option, some, ok, ℤ, pos, negsuc, All, arith, min,
}
use gusher.Frames.{Server, add_thread}
use gusher.Start.{
  Opt, port_option, threads_option, daemon_option, heartbeat_option, single_option, invalid_option,
  Settings, at_least_one, set_option, set_options, spawn_threads,
}

abbrev pub IsKnown : Opt → Type 0
IsKnown invalid_option = ⊥
IsKnown _ = Unit

abbrev pub IsPositive : ℤ → Type 0
IsPositive (pos zero) = ⊥
IsPositive (pos (suc n)) = Unit
IsPositive (negsuc n) = ⊥

at_least_one-IsPositive : (n : ℤ) → IsPositive (at_least_one n)
at_least_one-IsPositive (pos zero) = tt
at_least_one-IsPositive (pos (suc n)) = tt
at_least_one-IsPositive (negsuc n) = tt

-- The settings, each read off the options on its own: the last argument of its kind, or whether
-- there is one of its kind.
abbrev pub last_port : (Bytes → ℤ) → List Opt → ℤ → ℤ
last_port atoi [] n = n
last_port atoi (opt ∷ opts) n = last_port atoi opts (elim opt [
  | port_option optarg ↦ atoi optarg
  | threads_option optarg ↦ n
  | daemon_option ↦ n
  | heartbeat_option optarg ↦ n
  | single_option ↦ n
  | invalid_option ↦ n
])

abbrev pub last_pulse : List Opt → Option Bytes → Option Bytes
last_pulse [] file = file
last_pulse (opt ∷ opts) file = last_pulse opts (elim opt [
  | port_option optarg ↦ file
  | threads_option optarg ↦ file
  | daemon_option ↦ file
  | heartbeat_option optarg ↦ some optarg
  | single_option ↦ file
  | invalid_option ↦ file
])

abbrev pub is_daemon : Opt → Bool
is_daemon daemon_option = true
is_daemon _ = false

abbrev pub is_single : Opt → Bool
is_single single_option = true
is_single _ = false

abbrev pub any_of : (Opt → Bool) → List Opt → Bool
any_of f [] = false
any_of f (opt ∷ opts) = if f opt then true else any_of f opts

same_if : (b c : Bool) → (if b then c else c) ≡ c
same_if true c = refl
same_if false c = refl

-- Without an invalid option, and with a positive number of threads to begin with, the options in
-- whatever order and number leave at least one thread, the port and the pulse file of the last
-- option of their kind, if there is one, the server in the background just where one asks for that
-- or it was before, and without threads just where one asks for that or it was so before.
pub set_options-settings :
    (atoi : Bytes → ℤ) (opts : List Opt) (s : Settings)
    → All IsKnown opts
    → IsPositive s.max_threads
    → (t : Settings) × (set_options atoi opts s ≡ ok t)
      × IsPositive t.max_threads
      × (t.http_port ≡ last_port atoi opts s.http_port)
      × (t.pulse_file ≡ last_pulse opts s.pulse_file)
      × (t.background ≡ (if any_of is_daemon opts then true else s.background))
      × (t.threading ≡ (if any_of is_single opts then false else s.threading))
unfolding set_options set_option
set_options-settings atoi [] s k p = (s, refl, p, refl, refl, refl, refl)
set_options-settings atoi (port_option optarg ∷ opts) s k p =
    set_options-settings atoi opts (record s { http_port = atoi optarg }) k.1 p
set_options-settings atoi (threads_option optarg ∷ opts) s k p =
    set_options-settings atoi opts (record s { max_threads = at_least_one (atoi optarg) }) k.1
      (at_least_one-IsPositive (atoi optarg))
set_options-settings atoi (daemon_option ∷ opts) s k p =
    let (t, run, positive, port, pulse, back, threads) =
      set_options-settings atoi opts (record s { background = true }) k.1 p in
    (t, run, positive, port, pulse, back ∙ same_if (any_of is_daemon opts) true, threads)
set_options-settings atoi (heartbeat_option optarg ∷ opts) s k p =
    set_options-settings atoi opts (record s { pulse_file = some optarg }) k.1 p
set_options-settings atoi (single_option ∷ opts) s k p =
    let (t, run, positive, port, pulse, back, threads) =
      set_options-settings atoi opts (record s { threading = false }) k.1 p in
    (t, run, positive, port, pulse, back, threads ∙ same_if (any_of is_single opts) false)
set_options-settings atoi (invalid_option ∷ opts) s k p = elim k.0 [ ]

add_thread_lem :
    (s : Server)
    → ((add_thread s).nthreads
        ≡ (if leb s.max_threads s.nthreads then s.nthreads else s.nthreads + 1))
      × ((add_thread s).max_threads ≡ s.max_threads)
unfolding add_thread
add_thread_lem s = elim (Bool-cases (leb s.max_threads s.nthreads)) [
  | inl q ↦ rw q (refl, refl)
  | inr q ↦ rw q (refl, refl)
]

-- The threads at the start: one for each processor, but at most max_threads.
pub spawn_threads-min :
    (n : ℕ) (s : Server)
    → s.nthreads ≤ s.max_threads
    → (spawn_threads n s).nthreads ≡ min (s.nthreads + n) s.max_threads
unfolding spawn_threads
spawn_threads-min zero s h = omega arith
spawn_threads-min (suc n) s h =
    let (threads, same) = add_thread_lem s in
    let fits : (add_thread s).nthreads ≤ (add_thread s).max_threads = ground arith in
    let rest = spawn_threads-min n (add_thread s) fits in
    elim (Bool-cases (leb s.max_threads s.nthreads)) [
      | inl q ↦
          let full : s.max_threads ≤ s.nthreads = ground arith in
          let kept : (add_thread s).nthreads ≡ s.nthreads = threads ∙ rw q refl in
          omega (arith, rest, kept, same, full, h)
      | inr q ↦
          let more : (add_thread s).nthreads ≡ s.nthreads + 1 = threads ∙ rw q refl in
          let less : s.nthreads < s.max_threads = ground arith in
          omega (arith, rest, more, same, less)
    ]
