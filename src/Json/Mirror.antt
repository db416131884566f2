-- ===== src/Json/Mirror.antt =====
-- What src/json.c makes of a JSON value that it has read: the same value, but for the order of the
-- members of each object, and for what has no elements.
use gusher.Base.{◌≡◌, Bool, true, false, ◌||◌, Bytes, fits_int32}
use gusher.CString.{strcmp_zero}
use gusher.Json.{
  Json, jinteger, jnull, jarray, jobject, Items, nil_array, item, Members, nil_object, member,
}

abbrev pub joined : {D : Type 0} → Members D → Members D → Members D
joined nil_object ys = ys
joined (member k v xs) ys = member k v (joined xs ys)

abbrev pub has_key : {D : Type 0} → Bytes → Members D → Bool
has_key key nil_object = false
has_key key (member k v rest) = strcmp_zero k key || has_key key rest

-- The members of every object in the other order; an empty array or object has become null.
unfoldable mutual
  pub mirror : {D : Type 0} → Json D → Json D
  mirror (jarray nil_array) = jnull
  mirror (jarray (item value items)) = jarray (item (mirror value) (mirror_items items))
  mirror (jobject nil_object) = jnull
  mirror (jobject (member key value rest)) =
      jobject (joined (mirror_members rest) (member key (mirror value) nil_object))
  mirror j = j

  pub mirror_items : {D : Type 0} → Items D → Items D
  mirror_items nil_array = nil_array
  mirror_items (item value items) = item (mirror value) (mirror_items items)

  pub mirror_members : {D : Type 0} → Members D → Members D
  mirror_members nil_object = nil_object
  mirror_members (member key value rest) =
      joined (mirror_members rest) (member key (mirror value) nil_object)

-- The integers are in the range of `int`, and no object has a key twice.
unfoldable mutual
  pub IsPlain : {D : Type 0} → Json D → Type 0
  IsPlain (jinteger n) = fits_int32 n ≡ true
  IsPlain (jarray items) = IsPlainItems items
  IsPlain (jobject members) = IsPlainMembers members
  IsPlain j = Unit

  pub IsPlainItems : {D : Type 0} → Items D → Type 0
  IsPlainItems nil_array = Unit
  IsPlainItems (item value items) = IsPlain value × IsPlainItems items

  pub IsPlainMembers : {D : Type 0} → Members D → Type 0
  IsPlainMembers nil_object = Unit
  IsPlainMembers (member key value rest) =
      IsPlain value × (has_key key rest ≡ false) × IsPlainMembers rest
