-- ===== src/Tests/Posts.antt =====
-- The form that src/http.c posts.
use gusher.Base.{◌≡◌, refl, Bytes, [], ◌∷◌, ◌++◌, ok, fault}
use gusher.Buffer.{store}
use gusher.CString.{codes}
use gusher.Http.{post_data, read_post, write_duples}
use gusher.Http.Post.{post_data-joined}

-- No byte needs to be escaped.
abbrev plain : Bytes → Bytes
plain s = s

post_data-joined_example :
    post_data plain ((codes "a", codes "1") ∷ (codes "b", codes "") ∷ [])
    ≡ ok (codes "b=&a=1" ++ 0 ∷ [])
post_data-joined_example =
    post_data-joined plain (codes "a", codes "1") ((codes "b", codes "") ∷ [])

-- With no pair nothing is allocated, and the NUL does not fit.
nothing_posted : post_data plain [] ≡ fault
unfolding post_data read_post write_duples store
nothing_posted = refl
