-- ===== src/Handlers.antt =====
-- The responder table of src/main.c: `struct handler_entry`, `sorter`, `set_handler` and the search
-- of `find_handler`. A path is its bytes; `H` is the type of the Scheme procedures.
pub mod Order
pub mod Longest
pub mod Insertion
use gusher.Base.{
  ℕ, ℤ, pos, sub_ℕ, ◌≤ℤ◌, Bytes, List, [], ◌∷◌, ◌⊎◌, Option, none, some, length, drop, All,
  if◌then◌else◌,
}
use gusher.CString.{strncmp_zero}
use mathlib.Core.List.{Perm}

pub record HandlerEntry (H : Type 0) : Type 0 where
  pub path : Bytes
  pub handler : H

-- The statics `handlers` (a linked list, in its order) and `scm_handlers` (which keeps the
-- procedures alive).
pub record Registry (H : Type 0) : Type 0 where
  pub handlers : List (HandlerEntry H)
  pub scm_handlers : List (Bytes × H)

abbrev pub empty_registry : {H : Type 0} → Registry H
empty_registry = record { handlers = []; scm_handlers = [] }

-- `strlen((*e2)->path) - strlen((*e1)->path)`
unfoldable pub sorter : {H : Type 0} → HandlerEntry H → HandlerEntry H → ℤ
sorter e1 e2 = sub_ℕ (length e2.path) (length e1.path)

module _ {A : Type 0} (cmp : A → A → ℤ) where
  -- Every element compares below or equal to those behind it.
  abbrev pub IsSorted : List A → Type 0
  IsSorted [] = Unit
  IsSorted (x ∷ xs) = All (λ y. cmp x y ≤ℤ pos 0) xs × IsSorted xs

  -- What the C standard asks of a comparison function.
  pub record IsPreorder : Type 0 where
    pub total : (a b : A) → (cmp a b ≤ℤ pos 0) ⊎ (cmp b a ≤ℤ pos 0)
    pub trans : (a b c : A) → cmp a b ≤ℤ pos 0 → cmp b c ≤ℤ pos 0 → cmp a c ≤ℤ pos 0

-- The C library's `qsort`: the same elements, in the order of the comparison function. The order
-- of elements that compare equal is not specified.
pub record Qsort (A : Type 0) : Type 0 where
  pub sort : (A → A → ℤ) → List A → List A
  pub sort-perm : (cmp : A → A → ℤ) (l : List A) → Perm (sort cmp l) l
  pub sort-IsSorted : (cmp : A → A → ℤ) (l : List A) → IsPreorder cmp → IsSorted cmp (sort cmp l)

-- `set_handler`: link the entry in front, sort the entries, link them again in that order.
unfoldable pub set_handler :
    {H : Type 0} → Qsort (HandlerEntry H) → Bytes → H → Registry H → Registry H
set_handler lib path lambda r = record {
  handlers = lib.sort sorter (record { path = path; handler = lambda } ∷ r.handlers);
  scm_handlers = (path, lambda) ∷ r.scm_handlers;
}

-- The loop of `find_handler`: the first entry whose path begins the URL's path, with the rest.
unfoldable pub find_handler : {H : Type 0} → List (HandlerEntry H) → Bytes → Option (H × Bytes)
find_handler [] spath = none
find_handler (pt ∷ link) spath =
    let n = length pt.path in
    if strncmp_zero n pt.path spath
    then some (pt.handler, drop n spath)
    else find_handler link spath

-- The table after responders are set for each path and procedure in turn.
unfoldable pub set_handlers :
    {H : Type 0} → Qsort (HandlerEntry H) → List (HandlerEntry H) → Registry H → Registry H
set_handlers lib [] r = r
set_handlers lib (e ∷ more) r = set_handlers lib more (set_handler lib e.path e.handler r)
