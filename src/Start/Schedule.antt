-- ===== src/Start/Schedule.antt =====
-- How often the loop of main, src/main.c, polices the cache.
use gusher.Base.{
  ℕ, ◌+◌, ◌*◌, ◌<◌, ◌≤◌, max, ◌≡◌, refl, ap, ◌∙◌, Bool, true, false, Bytes, List, [], ◌∷◌, ◌++◌,
  length, leb, ltb, lt→ltb, ◌==◌, Run, ok, ◌>>=◌, All, Bool-cases, Option-cases, ◌⊎◌, inl, inr,
  if◌then◌else◌, arith,
}
use gusher.Buffer.{text, text_at}
use gusher.Start.{
  Action, heartbeat_to, police, process_http, evaluate, read_char, Input, terminal, end_of_input,
  read_error, bytes, Round, Main, police_intvl, act, exit_gusher, heartbeat, keep_time,
  process_line, main_round, attend, main_loop,
}

abbrev pub polices : List Action → ℕ
polices [] = 0
polices (police ∷ actions) = 1 + polices actions
polices (heartbeat_to path ∷ actions) = polices actions
polices (process_http ∷ actions) = polices actions
polices (evaluate text ∷ actions) = polices actions
polices (read_char ∷ actions) = polices actions

-- The reads that `process_line` has room for.
abbrev pub IsFine : Input → Type 0
IsFine read_error = ⊥
IsFine (bytes linebuf) = length linebuf < 1024
IsFine _ = Unit

polices-append : (xs ys : List Action) → polices (xs ++ ys) ≡ polices xs + polices ys
polices-append [] ys = omega arith
polices-append (police ∷ xs) ys = omega (arith, polices-append xs ys)
polices-append (heartbeat_to path ∷ xs) ys = polices-append xs ys
polices-append (process_http ∷ xs) ys = polices-append xs ys
polices-append (evaluate text ∷ xs) ys = polices-append xs ys
polices-append (read_char ∷ xs) ys = polices-append xs ys

text-ends : (xs rest : Bytes) → (s : Bytes) × (text (xs ++ 0 ∷ rest) ≡ ok s)
unfolding text
text-ends [] rest = ([], refl)
text-ends (x ∷ xs) rest =
    let (s, e) = text-ends xs rest in
    elim (Bool-cases (x == 0)) [ inl q ↦ ([], rw q refl) | inr q ↦ (x ∷ s, rw (q, e) refl) ]

-- The times of the cache's checks are as they were.
abbrev Same : Main → Main → Type 0
Same m next = (next.mark ≡ m.mark) × (polices next.actions ≡ polices m.actions)

act-Same : (a : Action) (m : Main) → polices (a ∷ []) ≡ 0 → Same m (act a m)
act-Same a m h = (refl, omega (arith, polices-append m.actions (a ∷ []), h))

heartbeat-Same : (creates : Bool) (m : Main) → Same m (heartbeat creates m)
unfolding heartbeat
heartbeat-Same creates m = elim (Option-cases m.pulse_file) [
  | inl q ↦ rw q (refl, refl)
  | inr (path, q) ↦ elim (Bool-cases creates) [
    | inl c ↦ rw (q, c) (act-Same (heartbeat_to path) m refl)
    | inr c ↦ rw (q, c) (refl, refl)
  ]
]

-- One check, where it is due; none, where it is not.
abbrev Kept : ℕ → Main → Main → Type 0
Kept now m next =
    ((m.mark ≤ now) × (next.mark ≡ m.mark + 6) × (polices next.actions ≡ polices m.actions + 1))
    ⊎ ((now < m.mark) × Same m next)

keep_time-Kept : (now : ℕ) (creates : Bool) (m : Main) → Kept now m (keep_time now creates m)
unfolding keep_time
keep_time-Kept now creates m = elim (Bool-cases (leb m.mark now)) [
  | inl q ↦
      let due : Main = record m { mark = m.mark + police_intvl } in
      let (marked, beat) = heartbeat-Same creates due in
      rw q (
        inl (
          ground arith,
          marked,
          omega (arith, polices-append (heartbeat creates due).actions (police ∷ []), beat),
        ))
  | inr q ↦ rw q (inr (ground arith, (refl, refl)))
]

if_true : (b : Bool) (x y : Run Main) → b ≡ true → (if b then x else y) ≡ x
if_true b x y h = rw h refl

module _ (exits : Bytes → Bool) where
  process_line-Same :
      (input : Input) (m : Main)
      → IsFine input
      → (next : Main) × (process_line exits input m ≡ ok next) × Same m next
  unfolding process_line exit_gusher text_at
  process_line-Same terminal m h = (act read_char m, refl, act-Same read_char m refl)
  process_line-Same end_of_input m h = (record m { running = false }, refl, (refl, refl))
  process_line-Same read_error m h = elim h [ ]
  process_line-Same (bytes linebuf) m h =
      let (s, e) = text-ends linebuf [] in
      elim (Bool-cases (exits s)) [
        | inl q ↦ (
          record (act (evaluate s) m) { running = false },
          rw (lt→ltb (length linebuf) 1024 h, text_at, e, q) refl,
          act-Same (evaluate s) m refl,
        )
        | inr q ↦ (
          act (evaluate s) m,
          rw (lt→ltb (length linebuf) 1024 h, text_at, e, q) refl,
          act-Same (evaluate s) m refl,
        )
      ]

  attend-Same :
      (r : Round) (m : Main)
      → IsFine r.input
      → (next : Main) × (attend exits r m ≡ ok next) × Same m next
  unfolding attend
  attend-Same r m h = elim (Bool-cases (ltb r.ready 1)) [
    | inl q ↦ (m, rw q refl, (refl, refl))
    | inr q ↦ elim (Bool-cases r.http_ready) [
      | inl p ↦
          let (marked, counted) = act-Same process_http m refl in
          elim (Bool-cases r.input_ready) [
            | inl i ↦
                let (next, e, (marked2, counted2)) =
                  process_line-Same r.input (act process_http m) h in
                (next, rw (q, p, i) e, (marked2 ∙ marked, counted2 ∙ counted))
            | inr i ↦ (act process_http m, rw (q, p, i) refl, (marked, counted))
          ]
      | inr p ↦ elim (Bool-cases r.input_ready) [
        | inl i ↦
            let (next, e, same) = process_line-Same r.input m h in (next, rw (q, p, i) e, same)
        | inr i ↦ (m, rw (q, p, i) refl, (refl, refl))
      ]
    ]
  ]

  Kept-Same : (now : ℕ) (m mid next : Main) → Kept now m mid → Same mid next → Kept now m next
  Kept-Same now m mid next (inl (due, marked, counted)) (same, equal) =
      inl (due, same ∙ marked, equal ∙ counted)
  Kept-Same now m mid next (inr (early, (marked, counted))) (same, equal) =
      inr (early, (same ∙ marked, equal ∙ counted))

  main_round-Kept :
      (r : Round) (m : Main)
      → IsFine r.input
      → (next : Main) × (main_round exits r m ≡ ok next) × Kept r.now m next
  unfolding main_round
  main_round-Kept r m h =
      let (next, e, same) = attend-Same r (keep_time r.now r.creates m) h in
      (
        next,
        e,
        Kept-Same r.now m (keep_time r.now r.creates m) next (keep_time-Kept r.now r.creates m)
            same,
      )

  abbrev pub IsBetween : ℕ → ℕ → Round → Type 0
  IsBetween t T r = IsFine r.input × (t ≤ r.now) × (r.now ≤ T)

  main_loop-step :
      (r : Round) (rounds : List Round) (m mid : Main)
      → m.running ≡ true
      → main_round exits r m ≡ ok mid
      → main_loop exits (r ∷ rounds) m ≡ main_loop exits rounds mid
  unfolding main_loop
  main_loop-step r rounds m mid q e =
      if_true m.running (main_round exits r m >>= main_loop exits rounds) (ok m) q
      ∙ ap (λ round. round >>= main_loop exits rounds) e

  -- For any rounds of the loop of main whose clocks are between t and T and in which no read of
  -- the input fails or fills its buffer, the loop comes to its end; the mark has moved on by the
  -- interval for each check of the cache, and is no later than it was or than an interval behind
  -- T; and the loop was stopped by exit, or the mark is behind t, or there was a check in every
  -- round.
  pub main_loop-schedule :
      (rounds : List Round) (m : Main) (t T : ℕ)
      → All (IsBetween t T) rounds
      → (next : Main) × (k : ℕ) × (main_loop exits rounds m ≡ ok next)
        × (polices next.actions ≡ polices m.actions + k)
        × (next.mark ≡ m.mark + 6 * k)
        × (next.mark ≤ max m.mark (T + 6))
        × ((next.running ≡ false) ⊎ ((t < next.mark) ⊎ (k ≡ length rounds)))
  unfolding main_loop
  main_loop-schedule [] m t T h =
      (m, 0, refl, omega arith, omega arith, omega arith, inr (inr refl))
  main_loop-schedule (r ∷ rounds) m t T h = elim (Bool-cases m.running) [
    | inl q ↦
        let (mid, e, kept) = main_round-Kept r m h.0.0 in
        let (next, k, run, counted, marked, ahead, behind) =
          main_loop-schedule rounds mid t T h.1 in
        elim kept [
          | inl (due, mark, count) ↦ (
            next,
            k + 1,
            main_loop-step r rounds m mid q e ∙ run,
            omega (arith, counted, count),
            omega (arith, marked, mark),
            omega (arith, ahead, mark, due, h.0.2),
            elim behind [
              | inl stopped ↦ inl stopped
              | inr (inl late) ↦ inr (inl late)
              | inr (inr all) ↦ inr (inr (omega (arith, all)))
            ],
          )
          | inr (early, (mark, count)) ↦ (
            next,
            k,
            main_loop-step r rounds m mid q e ∙ run,
            omega (arith, counted, count),
            omega (arith, marked, mark),
            omega (arith, ahead, mark),
            inr (inl (omega (arith, marked, mark, early, h.0.1))),
          )
        ]
    | inr q ↦ (m, 0, rw q refl, omega arith, omega arith, omega arith, inl q)
  ]
