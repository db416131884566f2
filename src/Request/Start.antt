-- ===== src/Request/Start.antt =====
-- `start_request` of src/main.c on request lines.
use gusher.Base.{
  ℕ, ◌+◌, ◌≡◌, refl, sym, ap, ◌∙◌, Bytes, [], ◌∷◌, ◌++◌, append_assoc, ◌==◌, if◌then◌else◌, Option,
  none, some, ok, length, length-append, arith,
}
use gusher.Buffer.{text_at}
use gusher.Buffer.Border.{Avoids, IsText, load_at, store_at, index-hit, index-miss, text_at_lem}
use gusher.CString.{codes}
use gusher.Request.{Request, symbol, string, not_null, query_string, split_query, start_request}

-- What a request line asks for: a path, and a query string where there is a `?`.
pub record Target : Type 0 where
  pub path : Bytes
  pub query : Option Bytes

abbrev pub url_with : Bytes → Option Bytes → Bytes
url_with path none = path
url_with path (some q) = path ++ b'?' ∷ q

abbrev pub url : Target → Bytes
url t = url_with t.path t.query

abbrev pub query_or_empty : Option Bytes → Bytes
query_or_empty none = []
query_or_empty (some q) = q

-- The URL has no NUL and no space, and its path no `?`.
pub record IsTarget (t : Target) : Type 0 where
  pub url_text : Avoids 32 (url t)
  pub path_text : Avoids b'?' t.path

pub Avoids-IsText : (c : ℕ) (s : Bytes) → Avoids c s → IsText s
Avoids-IsText c [] h = tt
Avoids-IsText c (x ∷ s) h = (h.0.0, Avoids-IsText c s h.1)

IsText-behind : (s : Bytes) (c : ℕ) (t : Bytes) → IsText (s ++ c ∷ t) → IsText t
IsText-behind [] c t h = h.1
IsText-behind (x ∷ s) c t h = IsText-behind s c t h.1

-- The cut at the `?`, on a buffer that holds a URL and its NUL behind `pre`.
split_query-target :
    (path : Bytes) (query : Option Bytes) (mem pre tail : Bytes) (mark : ℕ)
    → mem ≡ pre ++ (url_with path query ++ 0 ∷ tail)
    → mark ≡ length pre
    → Avoids b'?' path
    → IsText (url_with path query)
    → (mem' : Bytes) × (split_query mem mark ≡ ok (mem', query_or_empty query))
      × (text_at mem' mark ≡ ok path)
      × (length mem' ≡ length mem)
unfolding split_query query_string
split_query-target path none mem pre tail mark m e a h = (
  mem,
  rw (index-miss mem pre mark b'?' path tail m e (omega arith) a) refl,
  text_at_lem mem pre mark path tail m e h,
  refl,
)
split_query-target path (some q) mem pre tail mark m e a h =
    let rest = q ++ 0 ∷ tail in
    let m1 : mem ≡ pre ++ (path ++ b'?' ∷ rest) =
      m ∙ ap (◌++◌ pre) (append_assoc path (b'?' ∷ q) (0 ∷ tail)) in
    let m2 : mem ≡ (pre ++ path) ++ b'?' ∷ rest = m1 ∙ sym (append_assoc pre path (b'?' ∷ rest)) in
    let at : mark + length path ≡ length (pre ++ path) = omega (arith, e, length-append pre path) in
    let cut = (pre ++ path) ++ 0 ∷ rest in
    let c1 : cut ≡ pre ++ (path ++ 0 ∷ rest) = append_assoc pre path (0 ∷ rest) in
    let front = (pre ++ path) ++ 0 ∷ [] in
    let c2 : cut ≡ front ++ rest = sym (append_assoc (pre ++ path) (0 ∷ []) rest) in
    let behind : mark + length path + 1 ≡ length front =
      omega (arith, at, length-append (pre ++ path) (0 ∷ [])) in
    (
      cut,
      rw
          (
            index-hit mem pre mark b'?' path rest m1 e a,
            store_at mem (pre ++ path) b'?' rest (mark + length path) 0 m2 at,
            text_at_lem cut front (mark + length path + 1) q tail c2 behind
                (IsText-behind path b'?' q h),
          )
          refl,
      text_at_lem cut pre mark path rest c1 e (Avoids-IsText b'?' path a),
      rw m2 (
          omega (
            arith,
            length-append (pre ++ path) (0 ∷ rest),
            length-append (pre ++ path) (b'?' ∷ rest),
          )),
    )

-- The request that starts with a method and a target; a method that starts with `P` is POST, and
-- any other is GET.
abbrev pub started : ℕ → Target → Request
started c t =
    (codes "query-string", string (query_or_empty t.query))
    ∷ (codes "url-path", string t.path)
    ∷ (codes "url", string (url t))
    ∷ (codes "method", symbol (if c == b'P' then codes "post" else codes "get"))
    ∷ []

-- On a buffer that starts with a method, a space, a target, a space, anything and a NUL.
pub start_request-started :
    (mem : Bytes) (c : ℕ) (word : Bytes) (t : Target) (tail : Bytes)
    → mem ≡ (c ∷ word) ++ 32 ∷ (url t ++ 32 ∷ tail)
    → Avoids 32 (c ∷ word)
    → IsTarget t
    → (mem' : Bytes) × (start_request mem ≡ ok (mem', started c t)) × (length mem' ≡ length mem)
unfolding start_request not_null
start_request-started mem c word t tail m a w =
    let method = c ∷ word in
    let pre = method ++ 32 ∷ [] in
    let mark = 0 + length method + 1 in
    let e : mark ≡ length pre = omega (arith, length-append method (32 ∷ [])) in
    let m1 : mem ≡ pre ++ (url t ++ 32 ∷ tail) =
      m ∙ sym (append_assoc method (32 ∷ []) (url t ++ 32 ∷ tail)) in
    let m2 : mem ≡ (pre ++ url t) ++ 32 ∷ tail = m1 ∙ sym (append_assoc pre (url t) (32 ∷ tail)) in
    let at : mark + length (url t) ≡ length (pre ++ url t) =
      omega (arith, e, length-append pre (url t)) in
    let cut = (pre ++ url t) ++ 0 ∷ tail in
    let c1 : cut ≡ pre ++ (url t ++ 0 ∷ tail) = append_assoc pre (url t) (0 ∷ tail) in
    let url_text = Avoids-IsText 32 (url t) w.url_text in
    let (mem', split, path, l) =
      split_query-target t.path t.query cut pre tail mark c1 e w.path_text url_text in
    (
      mem',
      rw
          (
            load_at mem [] c (word ++ 32 ∷ (url t ++ 32 ∷ tail)) 0 m refl,
            index-hit mem [] 0 32 method (url t ++ 32 ∷ tail) m refl a,
            index-hit mem pre mark 32 (url t) tail m1 e w.url_text,
            store_at mem (pre ++ url t) 32 tail (mark + length (url t)) 0 m2 at,
            text_at_lem cut pre mark (url t) tail c1 e url_text,
            split,
            path,
          )
          refl,
      l
          ∙ rw m2 (
              omega (
                arith,
                length-append (pre ++ url t) (0 ∷ tail),
                length-append (pre ++ url t) (32 ∷ tail),
              )),
    )
