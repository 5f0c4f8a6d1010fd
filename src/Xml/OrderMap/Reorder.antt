-- ===== src/Xml/OrderMap/Reorder.antt =====
-- xml/order-map.ts: ordering an object keeps its elements.
use Prim.Native.Nat.{Ordering}
use ksef_client_ts.Base.{
  ◌≡◌, refl, ap, ◌∙◌, Bool, true, false, ◌&&◌, ◌||◌, not, Option, none, some, List, [], ◌∷◌, ◌++◌,
  String, arith, eq_iff, str_eq, sym, subst, if◌then◌else◌, Bool-cases, Option-cases, inl, inr,
  is_some,
}
use ksef_client_ts.Base.Dict.{Dict, get, put, get-put}
use ksef_client_ts.Xml.{
  XmlValue, XmlItems, XmlFields, text, number, boolean, null, undefined, array, object, no_items,
  item, no_fields, field, entries, from_entries, is_defined,
}
use ksef_client_ts.Xml.OrderMap.{
  Host, add_keys, present, keys_of, filter_keys, has, is_p_key, order_of, reorder, compare_p_key,
  order_xml_object, normalize_fields, normalize_value, normalize_items, normalize_value_for_key,
  normalize_items_for_key,
}

-- A value that is not `undefined`.
abbrev pub defined : Option XmlValue → Option XmlValue
defined none = none
defined (some v) = if is_defined v then some v else none

-- What a sort does whatever its comparator is: it keeps the keys.
abbrev pub SortKeeps : Host → Type 0
SortKeeps host =
    (c : String → String → Ordering) (keys : List String) (k : String)
    → has k (host.sort c keys) ≡ has k keys

pub get-add_keys :
    (k : String) (keys : List String) (value ordered : Dict XmlValue)
    → get k (add_keys keys value ordered)
      ≡ (if has k keys && is_some (defined (get k value)) then get k value else get k ordered)
unfolding add_keys
get-add_keys k [] value ordered = refl
get-add_keys k (j ∷ keys) value ordered = elim (Option-cases (get j value)) [
  | inl nothing ↦ rw nothing (ground (arith, eq_iff k j, get-add_keys k keys value ordered))
  | inr (v, found) ↦ elim (Bool-cases (is_defined v)) [
    | inl real ↦
        rw (found, real)
          (ground (
            arith,
            eq_iff k j,
            eq_iff j k,
            get-add_keys k keys value (put j v ordered),
            get-put j k v ordered,
          ))
    | inr gone ↦ rw (found, gone) (ground (arith, eq_iff k j, get-add_keys k keys value ordered))
  ]
]

pub has-filter_keys :
    (k : String) (p : String → Bool) (keys : List String)
    → has k (filter_keys p keys) ≡ (has k keys && p k)
has-filter_keys k p [] = refl
has-filter_keys k p (j ∷ keys) = ground (arith, eq_iff k j, has-filter_keys k p keys)

pub has-keys_of : (k : String) (m : Dict XmlValue) → has k (keys_of m) ≡ is_some (get k m)
unfolding get
has-keys_of k [] = refl
has-keys_of k ((j, v) ∷ m) = ground (arith, eq_iff k j, eq_iff j k, has-keys_of k m)

pub has-present :
    (k : String) (keys : List String) (value : Dict XmlValue)
    → has k (present keys value) ≡ (has k keys && is_some (get k value))
unfolding present
has-present k [] value = refl
has-present k (j ∷ keys) value = ground (arith, eq_iff k j, has-present k keys value)

pub has-append : (k : String) (xs ys : List String) → has k (xs ++ ys) ≡ (has k xs || has k ys)
has-append k [] ys = refl
has-append k (x ∷ xs) ys = ground (arith, has-append k xs ys)

-- A key comes in by the order, as a `P_` key or at the end.
once :
    (listed p : Bool) (o : Option XmlValue)
    → (if (is_some o
            && not ((listed && is_some o) || (is_some o && (not (listed && is_some o) && p))))
          && is_some (defined o)
        then o
        else if (is_some o && (not (listed && is_some o) && p)) && is_some (defined o)
        then o
        else if listed && is_some (defined o)
        then o
        else none)
      ≡ defined o
once true p none = refl
once false p none = refl
once listed p (some v) = elim (Bool-cases (is_defined v)) [
  | inl real ↦ rw real (ground arith)
  | inr gone ↦ rw gone (ground arith)
]

module _ (host : Host) (sort : SortKeeps host) where
  get-reorder :
      (context : Option String) (value : Dict XmlValue) (k : String)
      → get k (reorder host context value) ≡ defined (get k value)
  unfolding reorder get
  get-reorder context value k =
      let order = order_of context in
      let used = present order value in
      let wanted = filter_keys (λ j. not (has j used) && is_p_key j) (keys_of value) in
      let p_keys = host.sort (compare_p_key host) wanted in
      let others = filter_keys (λ j. not (has j (used ++ p_keys))) (keys_of value) in
      let first = add_keys order value [] in
      get-add_keys k others value (add_keys p_keys value first)
      ∙ rw
          (
            get-add_keys k p_keys value first,
            get-add_keys k order value [],
            has-filter_keys k (λ j. not (has j (used ++ p_keys))) (keys_of value),
            has-append k used p_keys,
            sort (compare_p_key host) wanted k,
            has-filter_keys k (λ j. not (has j used) && is_p_key j) (keys_of value),
            has-present k order value,
            has-keys_of k value,
          )
          (once (has k order) (is_p_key k) (get k value))

  pub entries-from : (m : Dict XmlValue) → entries (from_entries m) ≡ m
  entries-from [] = refl
  entries-from ((k, v) ∷ m) = ap (λ r. (k, v) ∷ r) (entries-from m)

-- What an element is to become: an object is ordered by the name of its element, also in an array; in
-- an array of arrays an object is ordered without a name; what is undefined is left out.
module _ (host : Host) where
  unfoldable mutual
    pub unnamed : XmlValue → XmlValue
    unnamed (object fields) = object (order_xml_object host none fields)
    unnamed (array items) = array (unnamed_items items)
    unnamed (text s) = text s
    unnamed (number n) = number n
    unnamed (boolean b) = boolean b
    unnamed null = null
    unnamed undefined = undefined

    pub unnamed_items : XmlItems → XmlItems
    unnamed_items no_items = no_items
    unnamed_items (item v items) = item (unnamed v) (unnamed_items items)

  abbrev pub named_items : String → XmlItems → XmlItems
  named_items key no_items = no_items
  named_items key (item (object fields) items) =
      item (object (order_xml_object host (some key) fields)) (named_items key items)
  named_items key (item v items) = item (unnamed v) (named_items key items)

  abbrev pub element : String → XmlValue → Option XmlValue
  element key (object fields) = some (object (order_xml_object host (some key) fields))
  element key (array items) = some (array (named_items key items))
  element key undefined = none
  element key v = some v

  -- The element of a name, none where the object has none.
  abbrev pub element_of : String → Option XmlValue → Option XmlValue
  element_of key none = none
  element_of key (some v) = element key v

  mutual
    unfolding normalize_value order_xml_object unnamed

    normalize_value-unnamed : (v : XmlValue) → normalize_value host v ≡ unnamed v
    normalize_value-unnamed (object inner) = refl
    normalize_value-unnamed (array items) = ap array (normalize_items-unnamed_items items)
    normalize_value-unnamed (text s) = refl
    normalize_value-unnamed (number n) = refl
    normalize_value-unnamed (boolean b) = refl
    normalize_value-unnamed null = refl
    normalize_value-unnamed undefined = refl

    normalize_items-unnamed_items :
        (items : XmlItems) → normalize_items host items ≡ unnamed_items items
    normalize_items-unnamed_items no_items = refl
    normalize_items-unnamed_items (item v items) =
        rw (normalize_value-unnamed v, normalize_items-unnamed_items items) refl

  normalize_items_for_key-named_items :
      (key : String) (items : XmlItems)
      → normalize_items_for_key host key items ≡ named_items key items
  unfolding normalize_items_for_key order_xml_object unnamed
  normalize_items_for_key-named_items key no_items = refl
  normalize_items_for_key-named_items key (item (object inner) items) =
      rw (normalize_items_for_key-named_items key items) refl
  normalize_items_for_key-named_items key (item (array xs) items) =
      rw (normalize_value-unnamed (array xs), normalize_items_for_key-named_items key items) refl
  normalize_items_for_key-named_items key (item (text s) items) =
      rw (normalize_value-unnamed (text s), normalize_items_for_key-named_items key items) refl
  normalize_items_for_key-named_items key (item (number n) items) =
      rw (normalize_value-unnamed (number n), normalize_items_for_key-named_items key items) refl
  normalize_items_for_key-named_items key (item (boolean b) items) =
      rw (normalize_value-unnamed (boolean b), normalize_items_for_key-named_items key items) refl
  normalize_items_for_key-named_items key (item null items) =
      rw (normalize_value-unnamed null, normalize_items_for_key-named_items key items) refl
  normalize_items_for_key-named_items key (item undefined items) =
      rw (normalize_value-unnamed undefined, normalize_items_for_key-named_items key items) refl

  defined-element :
      (key : String) (v : XmlValue)
      → defined (some (normalize_value_for_key host key v)) ≡ element key v
  unfolding normalize_value_for_key order_xml_object
  defined-element key (object inner) = refl
  defined-element key (array items) =
      ap (λ x. some (array x)) (normalize_items_for_key-named_items key items)
  defined-element key (text s) = refl
  defined-element key (number n) = refl
  defined-element key (boolean b) = refl
  defined-element key null = refl
  defined-element key undefined = refl

  defined-normalize_fields :
      (fields : XmlFields) (key : String)
      → defined (get key (entries (normalize_fields host fields)))
        ≡ element_of key (get key (entries fields))
  unfolding normalize_fields get
  defined-normalize_fields no_fields key = refl
  defined-normalize_fields (field j v fields) key = elim (Bool-cases (str_eq j key)) [
    | inl same ↦
        let e : j ≡ key = (eq_iff j key).0 same in
        rw same (
          subst (λ x. defined (some (normalize_value_for_key host x v)) ≡ element key v) (sym e)
            (defined-element key v))
    | inr other ↦ rw other (defined-normalize_fields fields key)
  ]

-- With a sort that keeps its keys: under each name the ordered object has what the object has there,
-- an object ordered in turn by that name, in an array too, and every other value as it is, with the
-- objects inside nested arrays ordered without a name; it has nothing where the object has nothing
-- or `undefined`.
pub get-order_xml_object :
    (host : Host)
    → SortKeeps host
    → (context : Option String) (value : XmlFields) (k : String)
    → get k (entries (order_xml_object host context value))
      ≡ element_of host k (get k (entries value))
unfolding order_xml_object
get-order_xml_object host sort context value k =
    ap (get k)
      (entries-from host sort (reorder host context (entries (normalize_fields host value))))
    ∙ get-reorder host sort context (entries (normalize_fields host value)) k
    ∙ defined-normalize_fields host value k
