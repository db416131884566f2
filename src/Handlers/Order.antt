-- ===== src/Handlers/Order.antt =====
-- The order of the responder table, src/main.c: longest paths first.
use gusher.Base.{◌≤◌, pos, ◌≤ℤ◌, Bytes, List, [], ◌∷◌, ◌↔◌, length, arith}
use gusher.Handlers.{
  HandlerEntry, Registry, sorter, IsSorted, IsPreorder, Qsort, set_handler, set_handlers,
}
use mathlib.Core.List.{Mem, Mem-prop, Perm, mem-cons, not-mem-nil}
use mathlib.Core.List.Perm
use mathlib.Core.Logic.{◌∨₁◌, ∨₁_prop}
use mathlib.Core.Logic.Or

pub sorter-le :
    {H : Type 0} (a b : HandlerEntry H) → (sorter a b ≤ℤ pos 0) ↔ (length b.path ≤ length a.path)
unfolding sorter
sorter-le a b = ground arith

pub sorter-IsPreorder : {H : Type 0} → IsPreorder (sorter {H = H})
sorter-IsPreorder = record {
  total = λ a b. grind (arith, sorter-le);
  trans = λ a b c h k. (sorter-le a c).1 (omega (arith, (sorter-le a b).0 h, (sorter-le b c).0 k));
}

module _ {H : Type 0} (lib : Qsort (HandlerEntry H)) where
  -- Setting a responder leaves the table sorted, whatever order it had.
  pub set_handler-IsSorted :
      (path : Bytes) (lambda : H) (r : Registry H)
      → IsSorted sorter (set_handler lib path lambda r).handlers
  unfolding set_handler
  set_handler-IsSorted path lambda r = lib.sort-IsSorted sorter _ sorter-IsPreorder

  pub set_handler-perm :
      (path : Bytes) (lambda : H) (r : Registry H)
      → Perm
          (set_handler lib path lambda r).handlers
          (record { path = path; handler = lambda } ∷ r.handlers)
  unfolding set_handler
  set_handler-perm path lambda r = lib.sort-perm sorter _

  pub set_handlers-IsSorted :
      (es : List (HandlerEntry H)) (r : Registry H)
      → IsSorted sorter r.handlers
      → IsSorted sorter (set_handlers lib es r).handlers
  unfolding set_handlers
  set_handlers-IsSorted [] r h = h
  set_handlers-IsSorted (e ∷ es) r h =
      set_handlers-IsSorted es (set_handler lib e.path e.handler r)
        (set_handler-IsSorted e.path e.handler r)

  pub set_handlers-mem :
      (es : List (HandlerEntry H)) (r : Registry H) (e : HandlerEntry H)
      → Mem e (set_handlers lib es r).handlers ↔ (Mem e es ∨₁ Mem e r.handlers)
  unfolding set_handlers
  set_handlers-mem [] r e = (Or.inr, λ m. Or.elim Mem-prop m (λ n. absurd (not-mem-nil n)) (λ n. n))
  set_handlers-mem (x ∷ es) r e =
      let table = set_handler lib x.path x.handler r in
      let later = set_handlers-mem es table e in
      let moved = Perm.mem_iff {a = e} (set_handler-perm x.path x.handler r) in
      (
        λ m.
            Or.elim ∨₁_prop (later.0 m) (λ k. Or.inl (mem-cons.1 (Or.inr k)))
              (λ k.
                Or.elim ∨₁_prop (mem-cons.0 (moved.0 k)) (λ h. Or.inl (mem-cons.1 (Or.inl h)))
                  Or.inr),
        λ m. later.1 (
            Or.elim ∨₁_prop m
              (λ k.
                Or.elim ∨₁_prop (mem-cons.0 k) (λ h. Or.inr (moved.1 (mem-cons.1 (Or.inl h))))
                  Or.inl)
              (λ k. Or.inr (moved.1 (mem-cons.1 (Or.inr k))))),
      )
