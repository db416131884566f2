-- ===== src/Http.antt =====
-- The form that the HTTP client posts, src/http.c: `post_data`, with the buffer that it fills.
pub mod Copy
pub mod Post
pub mod Answer
use gusher.Base.{
  ℕ, zero, suc, ◌+◌, Bool, true, false, Bytes, List, [], ◌∷◌, ◌++◌, Run, ok, ◌>>=◌, length,
  if◌then◌else◌,
}
use gusher.Buffer.{store}
use gusher.Form.{blank}

-- `struct qduple`
pub record Qduple : Type 0 where
  pub key : Bytes
  pub value : Bytes

-- The first loop of `post_data`: each pair is linked in front of those before it, and `escape` is
-- `curl_easy_escape`, which is taken to give a text. The last component is `len`.
unfoldable pub read_post :
    (Bytes → Bytes) → List (Bytes × Bytes) → List Qduple → ℕ → List Qduple × ℕ
read_post escape [] duples len = (duples, len)
read_post escape ((key, value) ∷ node) duples len =
    let duple : Qduple = record { key = key; value = escape value } in
    read_post escape node (duple ∷ duples) (len + (length duple.key + length duple.value + 1))

-- `strcpy(p, s)`
unfoldable pub strcpy : Bytes → ℕ → Bytes → Run Bytes
strcpy mem p [] = store mem p 0
strcpy mem p (c ∷ s) = do mem ← store mem p c; strcpy mem (suc p) s

-- `if (!first) *cpt++ = '&';`
unfoldable pub separator : Bool → Bytes → ℕ → Run (Bytes × ℕ)
separator true mem cpt = ok (mem, cpt)
separator false mem cpt = do mem ← store mem cpt b'&'; ok (mem, cpt + 1)

unfoldable pub write_duple : Qduple → Bytes → ℕ → Run (Bytes × ℕ)
unfolding strcpy
write_duple duple mem cpt = do
  mem ← strcpy mem cpt duple.key
  let cpt = cpt + length duple.key
  mem ← store mem cpt b'='
  mem ← strcpy mem (cpt + 1) duple.value
  ok (mem, cpt + 1 + length duple.value)

-- The second loop.
unfoldable pub write_duples : Bool → List Qduple → Bytes → ℕ → Run (Bytes × ℕ)
unfolding separator write_duple
write_duples first [] mem cpt = ok (mem, cpt)
write_duples first (duple ∷ link) mem cpt = do
  (mem, cpt) ← separator first mem cpt
  (mem, cpt) ← write_duple duple mem cpt
  write_duples false link mem cpt

-- `post_data` on the pairs to post: the buffer that it returns.
unfoldable pub post_data : (Bytes → Bytes) → List (Bytes × Bytes) → Run Bytes
unfolding read_post write_duples
post_data escape post =
    let (duples, len) = read_post escape post [] 0 in
    do (mem, cpt) ← write_duples true duples (blank (len + length duples)) 0; store mem cpt 0
