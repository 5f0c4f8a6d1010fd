-- ===== src/Xml/OrderMap.antt =====
-- xml/order-map.ts. `Array.prototype.sort` is a parameter, and so are `Number(text)` on a part of a
-- name and `String(number)`. Names of `Object.prototype` are not used as names of elements.
pub mod Table
pub mod Reorder
pub mod Order
mod Tests
use Prim.Native.Nat.{compare, Ordering}
use ksef_client_ts.Base.{
  ℕ, Bool, true, false, ◌&&◌, not, is_some, drop, Option, none, some, List, [], ◌∷◌, ◌++◌, map,
  String, any, ltb, ◌==◌, str_eq, if◌then◌else◌,
}
use ksef_client_ts.Base.Dict.{Dict, get, put}
use ksef_client_ts.Base.Text.{codes, same_text, text_lt}
use ksef_client_ts.Xml.{
  XmlValue, XmlItems, XmlFields, text, number, boolean, null, undefined, array, object, no_items,
  item, no_fields, field, entries, from_entries, is_defined,
}
use ksef_client_ts.Xml.OrderMap.Table.{order_map}

-- A part of a name: a number, or a text that is none.
pub data Part : Type 0 where
  numeric : ℕ → Part
  letters : List ℕ → Part

-- What the host does: `Number(text)`, `none` for NaN; `String(number)`; the sort by a comparator.
pub record Host : Type 0 where
  pub number_of : List ℕ → Option ℕ
  pub text_of : ℕ → List ℕ
  pub sort : (String → String → Ordering) → List String → List String

abbrev pub starts_with : List ℕ → List ℕ → Bool
starts_with [] s = true
starts_with (p ∷ ps) [] = false
starts_with (p ∷ ps) (c ∷ s) = p == c && starts_with ps s

-- key.startsWith('P_')
abbrev pub is_p_key : String → Bool
is_p_key key = starts_with (codes "P_") (codes key)

-- value.replace(/^P_/, '')
abbrev pub without_prefix : List ℕ → List ℕ
without_prefix s = if starts_with (codes "P_") s then drop 2 s else s

-- value.split('_')
abbrev add_to_first : ℕ → List (List ℕ) → List (List ℕ)
add_to_first c [] = (c ∷ []) ∷ []
add_to_first c (s ∷ parts) = (c ∷ s) ∷ parts

abbrev pub split_parts : List ℕ → List (List ℕ)
split_parts [] = [] ∷ []
split_parts (c ∷ s) =
    let rest = split_parts s in if c == b'_' then [] ∷ rest else add_to_first c rest

module _ (host : Host) where
  abbrev part_of : List ℕ → Part
  part_of s = elim (host.number_of s) [ none ↦ letters s | some n ↦ numeric n ]

  unfoldable pub normalize : String → List Part
  normalize value = map part_of (split_parts (without_prefix (codes value)))

  -- String(part)
  abbrev pub part_text : Part → List ℕ
  part_text (numeric n) = host.text_of n
  part_text (letters s) = s

  abbrev compare_texts : List ℕ → List ℕ → Ordering → Ordering
  compare_texts s t rest =
      if same_text s t then rest else if text_lt s t then Ordering.lt else Ordering.gt

  abbrev compare_part : Part → Part → Ordering → Ordering
  compare_part (numeric a) (numeric b) rest = if a == b then rest else compare a b
  compare_part (numeric a) (letters t) rest = compare_texts (host.text_of a) t rest
  compare_part (letters s) b rest = compare_texts s (part_text b) rest

  -- The loop of comparePKey.
  abbrev pub compare_parts : List Part → List Part → Ordering
  compare_parts [] [] = Ordering.eq
  compare_parts [] (b ∷ others) = Ordering.lt
  compare_parts (a ∷ rest) [] = Ordering.gt
  compare_parts (a ∷ rest) (b ∷ others) = compare_part a b (compare_parts rest others)

  unfoldable pub compare_p_key : String → String → Ordering
  compare_p_key a b = compare_parts (normalize a) (normalize b)

-- `used.has(key)`
abbrev pub has : String → List String → Bool
has key keys = any (str_eq key) keys

-- ORDER_MAP[contextKey], the empty order where there is none
abbrev pub order_of : Option String → List String
order_of none = []
order_of (some context) = elim (get context order_map) [ none ↦ [] | some order ↦ order ]

-- `ordered[key] = item` for the keys of a list that the object has with a value.
unfoldable pub add_keys : List String → Dict XmlValue → Dict XmlValue → Dict XmlValue
add_keys [] value ordered = ordered
add_keys (key ∷ keys) value ordered = add_keys keys value (elim (get key value) [
  | none ↦ ordered
  | some v ↦ if is_defined v then put key v ordered else ordered
])

-- The keys that a list and the object share: what the first loop adds to `used`.
unfoldable pub present : List String → Dict XmlValue → List String
present [] value = []
present (key ∷ keys) value =
    let rest = present keys value in if is_some (get key value) then key ∷ rest else rest

abbrev pub keys_of : Dict XmlValue → List String
keys_of [] = []
keys_of ((k, v) ∷ m) = k ∷ keys_of m

abbrev pub filter_keys : (String → Bool) → List String → List String
filter_keys p [] = []
filter_keys p (k ∷ ks) = let rest = filter_keys p ks in if p k then k ∷ rest else rest

module _ (host : Host) where
  -- The body of orderXmlObject, on an object whose values are ordered already.
  unfoldable pub reorder : Option String → Dict XmlValue → Dict XmlValue
  reorder context value =
      let order = order_of context in
      let used = present order value in
      let p_keys =
        host.sort (compare_p_key host)
          (filter_keys (λ k. not (has k used) && is_p_key k) (keys_of value)) in
      let others = filter_keys (λ k. not (has k (used ++ p_keys))) (keys_of value) in
      add_keys others value (add_keys p_keys value (add_keys order value []))

  -- normalizeValueForKey, normalizeValue and orderXmlObject. The values of an object are ordered
  -- before the object itself.
  unfoldable mutual
    pub normalize_value_for_key : String → XmlValue → XmlValue
    normalize_value_for_key key (array items) = array (normalize_items_for_key key items)
    normalize_value_for_key key (object fields) =
        object (from_entries (reorder (some key) (entries (normalize_fields fields))))
    normalize_value_for_key key (text s) = text s
    normalize_value_for_key key (number n) = number n
    normalize_value_for_key key (boolean b) = boolean b
    normalize_value_for_key key null = null
    normalize_value_for_key key undefined = undefined

    pub normalize_items_for_key : String → XmlItems → XmlItems
    normalize_items_for_key key no_items = no_items
    normalize_items_for_key key (item (object fields) items) =
        item (object (from_entries (reorder (some key) (entries (normalize_fields fields)))))
          (normalize_items_for_key key items)
    normalize_items_for_key key (item v items) =
        item (normalize_value v) (normalize_items_for_key key items)

    pub normalize_value : XmlValue → XmlValue
    normalize_value (array items) = array (normalize_items items)
    normalize_value (object fields) =
        object (from_entries (reorder none (entries (normalize_fields fields))))
    normalize_value (text s) = text s
    normalize_value (number n) = number n
    normalize_value (boolean b) = boolean b
    normalize_value null = null
    normalize_value undefined = undefined

    pub normalize_items : XmlItems → XmlItems
    normalize_items no_items = no_items
    normalize_items (item v items) = item (normalize_value v) (normalize_items items)

    pub normalize_fields : XmlFields → XmlFields
    normalize_fields no_fields = no_fields
    normalize_fields (field k v fields) =
        field k (normalize_value_for_key k v) (normalize_fields fields)

  unfoldable pub order_xml_object : Option String → XmlFields → XmlFields
  order_xml_object context value = from_entries (reorder context (entries (normalize_fields value)))
