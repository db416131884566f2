-- ===== src/Handlers/Longest.antt =====
-- The responder that src/main.c finds for a URL is that of a longest registered path.
use gusher.Base.{
  ◌≤◌, ◌≡◌, refl, true, false, Bytes, List, [], ◌∷◌, ◌++◌, ◌↔◌, inl, inr, Option, none, some,
  length, drop, All, arith, Bool-cases,
}
use gusher.CString.{strncmp_zero, strncmp_zero-length, strncmp_zero-append}
use gusher.Handlers.Order.{set_handlers-IsSorted, set_handlers-mem, sorter-le}
use gusher.Handlers.{
  HandlerEntry, empty_registry, sorter, IsSorted, Qsort, find_handler, set_handlers,
}
use mathlib.Core.List.{Mem, Mem-prop, mem-cons, mem-cons_self, not-mem-nil}
use mathlib.Core.Logic.Or
use mathlib.Core.HLevel.{⊥_prop}
use mathlib.Core.Logic.{∥∥₁_map}
use native.Mathlib.Bridge.{le_prop}

-- `p` begins `url`.
abbrev pub Begins : Bytes → Bytes → Type 0
Begins p url = (rest : Bytes) × (url ≡ p ++ rest)

-- `e` is one of `es`, answers `h`, leaves `rest` of the URL's path, and no other matching path is
-- longer.
pub record Serves {H : Type 0} (es : List (HandlerEntry H)) (url rest : Bytes) (h : H)
    (e : HandlerEntry H) : Type 0 where
  pub member : Mem e es
  pub answers : e.handler ≡ h
  pub splits : url ≡ e.path ++ rest
  pub longest :
      (e' : HandlerEntry H) → Mem e' es → Begins e'.path url → length e'.path ≤ length e.path

-- What a search of the table must return: a longest match, or nothing where nothing matches.
abbrev pub Finds : {H : Type 0} → List (HandlerEntry H) → Bytes → Option (H × Bytes) → Type 0
Finds es url none = (e : HandlerEntry _) → Mem e es → ¬ Begins e.path url
Finds es url (some (h, rest)) = ∥ ((e : HandlerEntry _) × Serves es url rest h e) ∥₁

not-Begins : (p url : Bytes) → strncmp_zero (length p) p url ≡ false → ¬ Begins p url
not-Begins p url h (rest, e) =
    let t : strncmp_zero (length p) p url ≡ true = rw e (strncmp_zero-append p rest) in cc

All-mem :
    {H : Type 0} {P : HandlerEntry H → Type 0} (es : List (HandlerEntry H)) (e : HandlerEntry H)
    → ((a : HandlerEntry H) → IsProp (P a))
    → All P es
    → Mem e es
    → P e
All-mem [] e prop h m = absurd (not-mem-nil m)
All-mem {P} (x ∷ es) e prop h m =
    Or.elim (prop e) (mem-cons.0 m) (λ q. rw q h.0) (All-mem es e prop h.1)

module _ {H : Type 0} where
  Finds-here :
      (e : HandlerEntry H) (es : List (HandlerEntry H)) (url : Bytes)
      → IsSorted sorter (e ∷ es)
      → strncmp_zero (length e.path) e.path url ≡ true
      → Finds (e ∷ es) url (some (e.handler, drop (length e.path) url))
  Finds-here e es url s hit = ∣ (
    e,
    record {
      member = mem-cons_self;
      answers = refl;
      splits = (strncmp_zero-length e.path url).0 hit;
      longest = λ e' m b.
          Or.elim le_prop (mem-cons.0 m) (λ q. rw q (omega arith))
            (λ k. (sorter-le e e').0 (All-mem es e' (λ a. le_prop) s.0 k));
    },
  ) ∣₁

  Finds-there :
      (e : HandlerEntry H) (es : List (HandlerEntry H)) (url : Bytes) (r : Option (H × Bytes))
      → strncmp_zero (length e.path) e.path url ≡ false
      → Finds es url r
      → Finds (e ∷ es) url r
  Finds-there e es url none miss f = λ e' m b.
      Or.elim ⊥_prop (mem-cons.0 m) (λ q. not-Begins e.path url miss (rw q at b)) (λ k. f e' k b)
  Finds-there e es url (some (h, rest)) miss f = ∥∥₁_map f λ (d, s). (
    d,
    record {
      member = mem-cons.1 (Or.inr s.member);
      answers = s.answers;
      splits = s.splits;
      longest = λ e' m b.
          Or.elim le_prop (mem-cons.0 m) (λ q. absurd (not-Begins e.path url miss (rw q at b)))
            (λ k. s.longest e' k b);
    },
  )

  find_handler-Finds :
      (es : List (HandlerEntry H)) (url : Bytes)
      → IsSorted sorter es
      → Finds es url (find_handler es url)
  unfolding find_handler
  find_handler-Finds [] url s = λ e m b. not-mem-nil m
  find_handler-Finds (e ∷ es) url s = elim (Bool-cases (strncmp_zero (length e.path) e.path url)) [
    | inl hit ↦ rw hit (Finds-here e es url s hit)
    | inr miss ↦ rw miss (Finds-there e es url _ miss (find_handler-Finds es url s.1))
  ]

  Finds-iff :
      (es fs : List (HandlerEntry H)) (url : Bytes) (r : Option (H × Bytes))
      → ((e : HandlerEntry H) → Mem e es ↔ Mem e fs)
      → Finds es url r
      → Finds fs url r
  Finds-iff es fs url none same f = λ e m. f e ((same e).1 m)
  Finds-iff es fs url (some (h, rest)) same f = ∥∥₁_map f λ (d, s). (
    d,
    record {
      member = (same d).0 s.member;
      answers = s.answers;
      splits = s.splits;
      longest = λ e' m b. s.longest e' ((same e').1 m) b;
    },
  )

  -- After responders are set in any order, with any qsort, the search of the table returns the
  -- responder of a longest path that begins the URL's path, with the rest of the URL's path, or
  -- nothing, where no such path was set.
  pub find_handler-set_handlers :
      (lib : Qsort (HandlerEntry H)) (es : List (HandlerEntry H)) (url : Bytes)
      → Finds es url (find_handler (set_handlers lib es empty_registry).handlers url)
  find_handler-set_handlers lib es url =
      let table = set_handlers lib es empty_registry in
      Finds-iff table.handlers es url _
        (λ e. (
          λ m.
              Or.elim Mem-prop ((set_handlers-mem lib es empty_registry e).0 m) (λ k. k)
                (λ k. absurd (not-mem-nil k)),
          λ m. (set_handlers-mem lib es empty_registry e).1 (Or.inl m),
        ))
        (find_handler-Finds table.handlers url (set_handlers-IsSorted lib es empty_registry tt))
