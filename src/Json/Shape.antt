-- ===== src/Json/Shape.antt =====
-- The shape of what `parse` of src/json.c gives, and the keys of an object.
use gusher.Base.{◌≡◌, refl, ap, ◌∙◌, Bool, true, false, ◌||◌, Bytes, arith}
use gusher.CString.{strcmp_zero}
use gusher.Scheme.{Scm, null, symbol, pair, is_list}
use gusher.Json.{
  Json, jstring, jinteger, jreal, jboolean, jnull, jarray, jobject, Items, nil_array, item, Members,
  nil_object, member, set_member, parse, parse_items, parse_members,
}
use gusher.Json.Mirror.{joined, has_key, mirror, mirror_members}

or_swap : (a b : Bool) → (a || (b || false)) ≡ (b || a)
or_swap true true = refl
or_swap true false = refl
or_swap false true = refl
or_swap false false = refl

module _ {D : Type 0} where
  pub has_key-joined :
      (key : Bytes) (xs ys : Members D)
      → has_key key (joined xs ys) ≡ (has_key key xs || has_key key ys)
  has_key-joined key nil_object ys = refl
  has_key-joined key (member k v xs) ys = ground (arith, has_key-joined key xs ys)

  pub has_key-mirror_members :
      (key : Bytes) (xs : Members D) → has_key key (mirror_members xs) ≡ has_key key xs
  unfolding mirror
  has_key-mirror_members key nil_object = refl
  has_key-mirror_members key (member k v xs) =
      has_key-joined key (mirror_members xs) (member k (mirror v) nil_object)
      ∙ rw (has_key-mirror_members key xs) (or_swap (has_key key xs) (strcmp_zero k key))

  -- A fresh key is set behind the others.
  pub set_member-fresh :
      (key : Bytes) (value : Json D) (xs : Members D)
      → has_key key xs ≡ false
      → set_member key value xs ≡ joined xs (member key value nil_object)
  set_member-fresh key value nil_object h = refl
  set_member-fresh key value (member k v xs) h =
      let differ : strcmp_zero k key ≡ false = ground (arith, h) in
      let later : has_key key xs ≡ false = ground (arith, h) in
      rw (set_member, differ) (ap (member k v) (set_member-fresh key value xs later))

  pub is_list-parse_items : (items : Items D) → is_list (parse_items items) ≡ true
  unfolding parse
  is_list-parse_items nil_array = refl
  is_list-parse_items (item value items) = is_list-parse_items items

  pub is_list-parse_members :
      (members : Members D) (list : Scm D) → is_list (parse_members members list) ≡ is_list list
  unfolding parse
  is_list-parse_members nil_object list = refl
  is_list-parse_members (member key value members) list =
      is_list-parse_members members (pair (pair (symbol key) (parse value)) list)

  abbrev pub NotSymbol : Scm D → Type 0
  NotSymbol (symbol s) = ⊥
  NotSymbol x = Unit

  abbrev pub NotPair : Scm D → Type 0
  NotPair (pair x y) = NotSymbol x
  NotPair x = Unit

  parse_members-NotSymbol :
      (members : Members D) (list : Scm D) → NotSymbol list → NotSymbol (parse_members members list)
  unfolding parse
  parse_members-NotSymbol nil_object list h = h
  parse_members-NotSymbol (member key value members) list h =
      parse_members-NotSymbol members (pair (pair (symbol key) (parse value)) list) tt

  parse_members-NotPair :
      (members : Members D) (list : Scm D) → NotPair list → NotPair (parse_members members list)
  unfolding parse
  parse_members-NotPair nil_object list h = h
  parse_members-NotPair (member key value members) list h =
      parse_members-NotPair members (pair (pair (symbol key) (parse value)) list) tt

  parse-NotSymbol : (j : Json D) → NotSymbol (parse j)
  unfolding parse
  parse-NotSymbol (jarray nil_array) = tt
  parse-NotSymbol (jarray (item value items)) = tt
  parse-NotSymbol (jobject members) = parse_members-NotSymbol members null tt
  parse-NotSymbol (jstring s) = tt
  parse-NotSymbol (jinteger n) = tt
  parse-NotSymbol (jreal x) = tt
  parse-NotSymbol (jboolean b) = tt
  parse-NotSymbol jnull = tt

  -- No value comes back as a pair of a symbol and something.
  pub parse-NotPair : (j : Json D) → NotPair (parse j)
  unfolding parse
  parse-NotPair (jarray nil_array) = tt
  parse-NotPair (jarray (item value items)) = parse-NotSymbol value
  parse-NotPair (jobject members) = parse_members-NotPair members null tt
  parse-NotPair (jstring s) = tt
  parse-NotPair (jinteger n) = tt
  parse-NotPair (jreal x) = tt
  parse-NotPair (jboolean b) = tt
  parse-NotPair jnull = tt

  pub joined_assoc : (xs ys zs : Members D) → joined (joined xs ys) zs ≡ joined xs (joined ys zs)
  joined_assoc nil_object ys zs = refl
  joined_assoc (member k v xs) ys zs = ap (member k v) (joined_assoc xs ys zs)

  pub joined_nil : (xs : Members D) → joined xs nil_object ≡ xs
  joined_nil nil_object = refl
  joined_nil (member k v xs) = ap (member k v) (joined_nil xs)

  -- No key of the first is a key of the second.
  abbrev pub Apart : Members D → Members D → Type 0
  Apart nil_object out = Unit
  Apart (member key value rest) out = (has_key key out ≡ false) × Apart rest out

  pub Apart-nil : (members : Members D) → Apart members nil_object
  Apart-nil nil_object = tt
  Apart-nil (member key value rest) = (refl, Apart-nil rest)
