-- ===== src/Frames/Chain.antt =====
-- A linked list of frames, src/main.c: the addresses that `next` leads through.
use gusher.Base.{
  ℕ, ◌+◌, ◌<◌, ◌≡◌, refl, sym, ap, ◌∙◌, Bool, true, false, List, [], ◌∷◌, ◌++◌, ◌==◌, if◌then◌else◌,
  Option, none, some, get_elem?, set, length, get_elem?-set, get_elem?-lt, get_elem?-append_left,
  get_elem?-set_self, arith, ==_self, ◌≤◌, ==_iff,
}
use gusher.Frames.{Frame, Client}

-- From `p` the frames of `xs` are linked, the last to NULL.
abbrev pub Chain : List Frame → Option ℕ → List ℕ → Type 0
Chain fs p [] = p ≡ none
Chain fs p (a ∷ xs) = (p ≡ some a) × (f : Frame) × (get_elem? fs a ≡ some f) × Chain fs f.next xs

pub Chain-length :
    (fs : List Frame) (p : Option ℕ) (xs : List ℕ) (a : ℕ) → Chain fs p (a ∷ xs) → a < length fs
Chain-length fs p xs a (e, f, at_a, c) = get_elem?-lt fs a at_a

-- How often an address stands in a list of them.
abbrev pub occurs : ℕ → List ℕ → ℕ
occurs a [] = 0
occurs a (x ∷ xs) = (if x == a then 1 else 0) + occurs a xs

pub occurs-append : (a : ℕ) (xs ys : List ℕ) → occurs a (xs ++ ys) ≡ occurs a xs + occurs a ys
occurs-append a [] ys = omega arith
occurs-append a (x ∷ xs) ys = omega (arith, occurs-append a xs ys)

-- A write to a frame that is not in the list leaves it alone.
pub Chain-set :
    (fs : List Frame) (b : ℕ) (g : Frame)
    → b < length fs
    → (p : Option ℕ) (xs : List ℕ) → occurs b xs ≡ 0
    → Chain fs p xs
    → Chain (set fs b g) p xs
Chain-set fs b g l p [] n c = c
Chain-set fs b g l p (a ∷ xs) n (e, f, at_a, c) =
    let ne : (b == a) ≡ false = ground arith in
    (e, f, get_elem?-set fs b a g l ∙ rw ne at_a, Chain-set fs b g l f.next xs (omega arith) c)

-- A new frame behind the others too.
pub Chain-append :
    (fs gs : List Frame) (p : Option ℕ) (xs : List ℕ) → Chain fs p xs → Chain (fs ++ gs) p xs
Chain-append fs gs p [] c = c
Chain-append fs gs p (a ∷ xs) (e, f, at_a, c) = (
  e,
  f,
  get_elem?-append_left fs gs a (get_elem?-lt fs a at_a) ∙ at_a,
  Chain-append fs gs f.next xs c,
)

-- The last address of a list that starts with `x`.
abbrev pub last_of : ℕ → List ℕ → ℕ
last_of x [] = x
last_of x (y ∷ ys) = last_of y ys

pub last_of-append : (x : ℕ) (xs : List ℕ) (b : ℕ) → last_of x (xs ++ b ∷ []) ≡ b
last_of-append x [] b = refl
last_of-append x (y ∷ ys) b = last_of-append y ys b

pub last_of-occurs : (x : ℕ) (xs : List ℕ) → 1 ≤ occurs (last_of x xs) (x ∷ xs)
last_of-occurs x [] = ground (arith, ==_self x)
last_of-occurs x (y ∷ ys) = omega (arith, last_of-occurs y ys)

-- The last frame of a list is linked to one that ends a list: the list is longer by it.
pub Chain-link :
    (fs : List Frame) (p : Option ℕ) (x : ℕ) (xs : List ℕ) (b : ℕ) (last g : Frame)
    → Chain fs p (x ∷ xs)
    → ((a : ℕ) → occurs a (x ∷ xs) ≤ 1)
    → get_elem? fs b ≡ some g
    → g.next ≡ none
    → occurs b (x ∷ xs) ≡ 0
    → get_elem? fs (last_of x xs) ≡ some last
    → Chain (set fs (last_of x xs) (record last { next = some b })) p (x ∷ xs ++ b ∷ [])
Chain-link fs p x [] b last g (e, f, at_x, c) once at_b end apart at_last =
    let ne : (x == b) ≡ false = ground arith in
    let b_at : get_elem? (set fs x (record last { next = some b })) b ≡ some g =
      get_elem?-set fs x b _ (get_elem?-lt fs x at_last) ∙ rw ne at_b in
    (e, record last { next = some b }, get_elem?-set_self fs x _ at_last, (refl, g, b_at, end))
Chain-link fs p x (y ∷ ys) b last g (e, f, at_x, c) once at_b end apart at_last =
    let ne : (last_of y ys == x) ≡ false = ground (arith, last_of-occurs y ys, once x) in
    (
      e,
      f,
      get_elem?-set fs _ x _ (get_elem?-lt fs _ at_last) ∙ rw ne at_x,
      Chain-link fs f.next y ys b last g c (λ a. omega (arith, once a)) at_b end (omega arith)
          at_last,
    )

abbrev pub read_client : Option Frame → Option Client
read_client none = none
read_client (some f) = some (record { fsock = f.sock; address = f.ipaddr; port = f.rport })

-- The client whose request a frame carries.
abbrev pub client_of : List Frame → ℕ → Option Client
client_of fs a = read_client (get_elem? fs a)

pub client_of-cong :
    (fs gs : List Frame) (a b : ℕ)
    → get_elem? fs a ≡ get_elem? gs b
    → client_of fs a ≡ client_of gs b
client_of-cong fs gs a b e = ap read_client e

client_set_at :
    (fs : List Frame) (z b : ℕ) (f : Frame) (next : Option ℕ) (hit : Bool)
    → (z == b) ≡ hit
    → get_elem? fs z ≡ some f
    → read_client (if hit then some (record f { next = next }) else get_elem? fs b) ≡ client_of fs b
client_set_at fs z b f next true q at_z =
    ap read_client (sym at_z) ∙ client_of-cong fs fs z b (ap (get_elem? fs) ((==_iff z b).0 q))
client_set_at fs z b f next false q at_z = refl

-- A frame's link says nothing of its client.
pub client_of-set :
    (fs : List Frame) (z b : ℕ) (f : Frame) (next : Option ℕ)
    → get_elem? fs z ≡ some f
    → client_of (set fs z (record f { next = next })) b ≡ client_of fs b
client_of-set fs z b f next at_z =
    ap read_client (get_elem?-set fs z b (record f { next = next }) (get_elem?-lt fs z at_z))
    ∙ client_set_at fs z b f next (z == b) refl at_z
