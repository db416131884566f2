-- ===== src/Json/RoundTrip.antt =====
-- `json_build` of src/json.c on what `parse` made of a value.
use gusher.Base.{
  ◌≡◌, refl, sym, ap, ◌∙◌, true, false, Bytes, ok, ◌>>=◌, bind_assoc, to_int32-fits_int32,
}
use gusher.Gtime.{Calendar}
use gusher.Scheme.{
  Scm, null, boolean, exact, inexact, string, symbol, pair, timestamp, other, is_list,
}
use gusher.Json.{
  Json, jstring, jinteger, jreal, jboolean, jnull, jarray, jobject, Items, nil_array, item, Members,
  nil_object, member, make_key, json_build, build_members, build_items, parse, parse_items,
  parse_members,
}
use gusher.Json.Mirror.{
  joined, has_key, mirror, mirror_items, mirror_members, IsPlain, IsPlainItems, IsPlainMembers,
}
use gusher.Json.Shape.{
  NotPair, Apart, has_key-joined, has_key-mirror_members, set_member-fresh, is_list-parse_items,
  parse-NotPair, joined_assoc, joined_nil, Apart-nil,
}

module _ {D : Type 0} (cal : Calendar) where
  build_array :
      (a node : Scm D)
      → NotPair a
      → is_list node ≡ true
      → json_build cal (pair a node) ≡ (do
        value ← json_build cal a
        items ← build_items cal node
        ok (jarray (item value items)))
  unfolding json_build
  build_array (pair (symbol s) y) node h l = elim h [ ]
  build_array (pair null y) node h l = rw l refl
  build_array (pair (boolean b) y) node h l = rw l refl
  build_array (pair (exact n) y) node h l = rw l refl
  build_array (pair (inexact x) y) node h l = rw l refl
  build_array (pair (string s) y) node h l = rw l refl
  build_array (pair (pair x z) y) node h l = rw l refl
  build_array (pair (timestamp t) y) node h l = rw l refl
  build_array (pair other y) node h l = rw l refl
  build_array null node h l = rw l refl
  build_array (boolean b) node h l = rw l refl
  build_array (exact n) node h l = rw l refl
  build_array (inexact x) node h l = rw l refl
  build_array (string s) node h l = rw l refl
  build_array (symbol s) node h l = rw l refl
  build_array (timestamp t) node h l = rw l refl
  build_array other node h l = rw l refl

  -- A list that starts with a symbol's pair is an object.
  build_object :
      (key : Bytes) (obj node : Scm D)
      → is_list node ≡ true
      → json_build cal (pair (pair (symbol key) obj) node) ≡ (do
        members ← build_members cal (pair (pair (symbol key) obj) node) nil_object
        ok (jobject members))
  unfolding json_build make_key
  build_object key obj node l = rw l (
      sym (
        bind_assoc (json_build cal obj)
          (λ value. build_members cal node (member key value nil_object))
          (λ members. ok (jobject members))))

  build_parsed :
      (members : Members D) (key : Bytes) (obj node : Scm D)
      → is_list node ≡ true
      → json_build cal (parse_members members (pair (pair (symbol key) obj) node)) ≡ (do
        built ←
            build_members cal (parse_members members (pair (pair (symbol key) obj) node)) nil_object
        ok (jobject built))
  unfolding parse
  build_parsed nil_object key obj node l = build_object key obj node l
  build_parsed (member k v members) key obj node l =
      build_parsed members k (parse v) (pair (pair (symbol key) obj) node) l

  mutual
    unfolding json_build parse mirror IsPlain make_key

    round : (j : Json D) → IsPlain j → json_build cal (parse j) ≡ ok (mirror j)
    round (jstring s) h = refl
    round (jinteger n) h = rw (to_int32-fits_int32 n h, h) refl
    round (jreal x) h = refl
    round (jboolean b) h = refl
    round jnull h = refl
    round (jarray nil_array) h = refl
    round (jarray (item value items)) h =
        build_array (parse value) (parse_items items) (parse-NotPair value)
          (is_list-parse_items items)
        ∙ rw (round value h.0, round_items items h.1) refl
    round (jobject nil_object) h = refl
    round (jobject (member key value rest)) h =
        build_parsed rest key (parse value) null refl
        ∙ rw
            (round_members (member key value rest) null nil_object h
              (Apart-nil (member key value rest)))
            refl

    round_items :
        (items : Items D)
        → IsPlainItems items
        → build_items cal (parse_items items) ≡ ok (mirror_items items)
    round_items nil_array h = refl
    round_items (item value items) h = rw (round value h.0, round_items items h.1) refl

    round_members :
        (members : Members D) (list : Scm D) (out : Members D)
        → IsPlainMembers members
        → Apart members out
        → build_members cal (parse_members members list) out
          ≡ build_members cal list (joined out (mirror_members members))
    round_members nil_object list out h a = ap (build_members cal list) (sym (joined_nil out))
    round_members (member key value rest) list out h a =
        let ms = mirror_members rest in
        let fresh : has_key key (joined out ms) ≡ false =
          has_key-joined key out ms ∙ rw (a.0, has_key-mirror_members key rest, h.1) refl in
        round_members rest (pair (pair (symbol key) (parse value)) list) out h.2 a.1
        ∙ rw (round value h.0, set_member-fresh key (mirror value) (joined out ms) fresh)
            (ap (build_members cal list)
              (joined_assoc out ms (member key (mirror value) nil_object)))

  -- For a JSON value whose integers are in the range of int and whose objects have no key twice,
  -- json_build of what parse made of it gives the value again, but that the members of each object
  -- are in the other order and an empty array or object has become null.
  pub json_build-parse : (j : Json D) → IsPlain j → json_build cal (parse j) ≡ ok (mirror j)
  json_build-parse j h = round j h
