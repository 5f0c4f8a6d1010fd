-- ===== src/Xml/OrderMap/Order.antt =====
-- xml/order-map.ts: the order in which the elements of an object come.
use Prim.Native.Nat.{Ordering}
use mathlib.Core.List.{append_assoc, append-nil}
use ksef_client_ts.Base.{
  ◌≡◌, refl, sym, ap, ◌∙◌, Bool, true, false, ◌&&◌, not, Option, none, some, List, [], ◌∷◌, ◌++◌,
  String, arith, str_eq, eq_iff, eq_refl, if◌then◌else◌, Bool-cases, Option-cases, inl, inr,
  is_some, all, subst,
}
use ksef_client_ts.Base.Dict.{Dict, get, put, get-put, Distinct}
use ksef_client_ts.Xml.{XmlValue, XmlFields, entries, from_entries, is_defined, field, no_fields}
use ksef_client_ts.Xml.OrderMap.{
  Host, add_keys, present, keys_of, filter_keys, has, is_p_key, order_of, reorder, compare_p_key,
  order_xml_object, normalize_fields,
}
use ksef_client_ts.Xml.OrderMap.Table.{order_map}
use ksef_client_ts.Xml.OrderMap.Reorder.{
  defined, SortKeeps, get-add_keys, has-filter_keys, has-keys_of, has-present, has-append,
}

-- Every key once.
abbrev pub nodup : List String → Bool
nodup [] = true
nodup (k ∷ keys) = not (has k keys) && nodup keys

-- The entries of an object under the keys of a list, in the order of the list.
abbrev pub picked : List String → Dict XmlValue → Dict XmlValue
picked [] value = []
picked (k ∷ keys) value =
    let rest = picked keys value in
    elim (defined (get k value)) [ none ↦ rest | some v ↦ (k, v) ∷ rest ]

put_fresh :
    (k : String) (v : XmlValue) (m : Dict XmlValue) → get k m ≡ none → put k v m ≡ m ++ (k, v) ∷ []
unfolding put get
put_fresh k v [] h = refl
put_fresh k v ((j, w) ∷ m) h = ground (arith, put_fresh k v m)

abbrev Fresh : Dict XmlValue → List String → Type 0
Fresh m keys = (k : String) → has k keys ≡ true → get k m ≡ none

Fresh-put :
    (k : String) (v : XmlValue) (m : Dict XmlValue) (keys : List String)
    → has k keys ≡ false
    → Fresh m keys
    → Fresh (put k v m) keys
Fresh-put k v m keys apart fresh j inside = elim (Bool-cases (str_eq k j)) [
  | inl same ↦
      let e : k ≡ j = (eq_iff k j).0 same in
      let c : true ≡ false = sym inside ∙ ap (λ x. has x keys) (sym e) ∙ apart in cc
  | inr other ↦ get-put k j v m ∙ rw other (fresh j inside)
]

picked_absent :
    (k : String) (keys : List String) (value : Dict XmlValue)
    → defined (get k value) ≡ none
    → picked (k ∷ keys) value ≡ picked keys value
picked_absent k keys value h = rw (picked, h) refl

picked_there :
    (k : String) (keys : List String) (value : Dict XmlValue) (v : XmlValue)
    → defined (get k value) ≡ some v
    → picked (k ∷ keys) value ≡ (k, v) ∷ picked keys value
picked_there k keys value v h = rw (picked, h) refl

-- A sort also keeps that no key is there twice.
abbrev pub SortOnce : Host → Type 0
SortOnce host =
    (c : String → String → Ordering) (keys : List String)
    → nodup keys ≡ true
    → nodup (host.sort c keys) ≡ true

-- New keys, each once, come at the end.
add_keys-append :
    (keys : List String) (value m : Dict XmlValue)
    → nodup keys ≡ true
    → Fresh m keys
    → add_keys keys value m ≡ m ++ picked keys value
unfolding add_keys
add_keys-append [] value m once fresh = sym (append-nil m)
add_keys-append (k ∷ keys) value m once fresh =
    let apart : has k keys ≡ false = ground arith in
    let rest_once : nodup keys ≡ true = ground arith in
    let rest_fresh : Fresh m keys = λ j h. fresh j (ground arith) in
    let skipped : defined (get k value) ≡ none
        → m ++ picked keys value ≡ m ++ picked (k ∷ keys) value =
      λ gone. ap (λ r. m ++ r) (sym (picked_absent k keys value gone)) in
    elim (Option-cases (get k value)) [
      | inl nothing ↦
          rw nothing (add_keys-append keys value m rest_once rest_fresh) ∙ skipped (rw nothing refl)
      | inr (v, found) ↦ elim (Bool-cases (is_defined v)) [
        | inr gone ↦
            rw (found, gone) (add_keys-append keys value m rest_once rest_fresh)
            ∙ skipped (rw (found, gone) refl)
        | inl real ↦
            let self = eq_refl k in
            let new = put_fresh k v m (fresh k (ground arith)) in
            let ih =
              add_keys-append keys value (put k v m) rest_once
                (Fresh-put k v m keys apart rest_fresh) in
            let there : picked (k ∷ keys) value ≡ (k, v) ∷ picked keys value =
              picked_there k keys value v (rw (found, real) refl) in
            rw (found, real) ih
            ∙ ap (λ x. x ++ picked keys value) new
            ∙ append_assoc m ((k, v) ∷ []) (picked keys value)
            ∙ ap (λ r. m ++ r) (sym there)
      ]
    ]

nodup-filter_keys :
    (p : String → Bool) (keys : List String) → nodup keys ≡ true → nodup (filter_keys p keys) ≡ true
nodup-filter_keys p [] h = refl
nodup-filter_keys p (k ∷ keys) h =
    ground (arith, has-filter_keys k p keys, nodup-filter_keys p keys)

nodup-keys_of : (m : Dict XmlValue) → Distinct m → nodup (keys_of m) ≡ true
nodup-keys_of [] h = refl
nodup-keys_of ((k, v) ∷ m) (fresh, h) = rw (has-keys_of k m, fresh, nodup-keys_of m h) refl

-- No order of the table names an element twice.
orders_checked : all (λ (e : String × List String). nodup e.1) order_map ≡ true
orders_checked = refl

some_inj : (a b : List String) → some a ≡ some b → a ≡ b
some_inj a b h = cc

nodup-get :
    (k : String) (m : Dict (List String)) (order : List String)
    → all (λ (e : String × List String). nodup e.1) m ≡ true
    → get k m ≡ some order
    → nodup order ≡ true
unfolding get
nodup-get k [] order h e = cc
nodup-get k ((j, o) ∷ m) order h e =
    let here : nodup o ≡ true = ground arith in
    let later : all (λ (e : String × List String). nodup e.1) m ≡ true = ground arith in
    elim (Bool-cases (str_eq j k)) [
      | inl same ↦
          let e' : some o ≡ some order = sym (rw same refl) ∙ e in
          subst (λ x. nodup x ≡ true) (some_inj o order e') here
      | inr other ↦ nodup-get k m order later (sym (rw other refl) ∙ e)
    ]

nodup-found :
    (o : Option (List String))
    → ((order : List String) → o ≡ some order → nodup order ≡ true)
    → nodup (elim o [ none ↦ [] | some order ↦ order ]) ≡ true
nodup-found none h = refl
nodup-found (some order) h = h order refl

nodup-order_of : (context : Option String) → nodup (order_of context) ≡ true
nodup-order_of none = refl
nodup-order_of (some k) =
    nodup-found (get k order_map) (λ order found. nodup-get k order_map order orders_checked found)

filter_agree :
    (p q : String → Bool) (keys : List String)
    → ((k : String) → has k keys ≡ true → p k ≡ q k)
    → filter_keys p keys ≡ filter_keys q keys
filter_agree p q [] h = refl
filter_agree p q (k ∷ keys) h =
    let self = eq_refl k in
    let rest = filter_agree p q keys (λ j inside. h j (ground arith)) in
    rw (h k (ground arith), rest) refl

-- The keys outside the order that start with P_, and those that do not.
abbrev pub unlisted_p : Option String → Dict XmlValue → List String
unlisted_p context value =
    filter_keys (λ k. not (has k (order_of context)) && is_p_key k) (keys_of value)

abbrev pub unlisted_other : Option String → Dict XmlValue → List String
unlisted_other context value =
    filter_keys (λ k. not (has k (order_of context)) && not (is_p_key k)) (keys_of value)

picked-append :
    (xs ys : List String) (value : Dict XmlValue)
    → picked (xs ++ ys) value ≡ picked xs value ++ picked ys value
picked-append [] ys value = refl
picked-append (x ∷ xs) ys value = elim (Option-cases (defined (get x value))) [
  | inl nothing ↦ rw (picked, nothing) (picked-append xs ys value)
  | inr (v, found) ↦ rw (picked, found) (ap (λ r. (x, v) ∷ r) (picked-append xs ys value))
]

-- A key of the object is used when the order names it.
not-has-present :
    (order : List String) (value : Dict XmlValue) (k : String)
    → has k (keys_of value) ≡ true
    → not (has k (present order value)) ≡ not (has k order)
not-has-present order value k inside =
    ground (arith, has-present k order value, has-keys_of k value)

unlisted_p_lem :
    (context : Option String) (value : Dict XmlValue)
    → filter_keys
        (λ k. not (has k (present (order_of context) value)) && is_p_key k)
        (keys_of value)
      ≡ unlisted_p context value
unlisted_p_lem context value =
    filter_agree (λ k. not (has k (present (order_of context) value)) && is_p_key k)
      (λ k. not (has k (order_of context)) && is_p_key k) (keys_of value)
      (λ k inside. ap (λ b. b && is_p_key k) (not-has-present (order_of context) value k inside))

second_of_three : (a b c : Bool) → (a && (not b && c)) ≡ true → b ≡ false
second_of_three a b c h = ground arith

third_of_three : (a b c : Bool) → (a && (not b && not c)) ≡ true → c ≡ false
third_of_three a b c h = ground arith

no_third : (a b : Bool) {c : Bool} → c ≡ false → (a && (not b && c)) ≡ false
no_third a b h = ground arith

module _ (host : Host) (sort : SortKeeps host) (sort_once : SortOnce host) where
  module _ (context : Option String) (value : Dict XmlValue) where
    sorted_p : List String
    sorted_p = host.sort (compare_p_key host) (unlisted_p context value)

    has-sorted_p :
        (k : String)
        → has k sorted_p ≡ (has k (keys_of value) && (not (has k (order_of context)) && is_p_key k))
    unfolding sorted_p
    has-sorted_p k =
        sort (compare_p_key host) (unlisted_p context value) k
        ∙ has-filter_keys k (λ j. not (has j (order_of context)) && is_p_key j) (keys_of value)

    unlisted_other_lem :
        filter_keys
          (λ k. not (has k (present (order_of context) value ++ sorted_p)))
          (keys_of value)
        ≡ unlisted_other context value
    unlisted_other_lem =
        filter_agree (λ k. not (has k (present (order_of context) value ++ sorted_p)))
          (λ k. not (has k (order_of context)) && not (is_p_key k)) (keys_of value)
          (λ k inside. ground (
            arith,
            has-append k (present (order_of context) value) sorted_p,
            has-present k (order_of context) value,
            has-keys_of k value,
            has-sorted_p k,
          ))

    Fresh-listed : Fresh (add_keys (order_of context) value []) sorted_p
    unfolding get
    Fresh-listed k inside =
        get-add_keys k (order_of context) value []
        ∙ ap (λ b. if b && is_some (defined (get k value)) then get k value else none)
            (second_of_three (has k (keys_of value)) (has k (order_of context)) (is_p_key k)
              (sym (has-sorted_p k) ∙ inside))

    Fresh-sorted_p :
        Fresh
          (add_keys sorted_p value (add_keys (order_of context) value []))
          (unlisted_other context value)
    unfolding get
    Fresh-sorted_p k inside =
        let apart =
          sym (
            has-filter_keys k (λ j. not (has j (order_of context)) && not (is_p_key j))
              (keys_of value))
          ∙ inside in
        let outside : has k sorted_p ≡ false =
          has-sorted_p k
          ∙ no_third (has k (keys_of value)) (has k (order_of context)) (
              third_of_three (has k (keys_of value)) (has k (order_of context)) (is_p_key k)
                apart) in
        get-add_keys k sorted_p value (add_keys (order_of context) value [])
        ∙ ap
            (λ b.
              if b && is_some (defined (get k value))
              then get k value
              else get k (add_keys (order_of context) value []))
            outside
        ∙ get-add_keys k (order_of context) value []
        ∙ ap (λ b. if b && is_some (defined (get k value)) then get k value else none)
            (second_of_three (has k (keys_of value)) (has k (order_of context)) (not (is_p_key k))
              apart)

  order-reorder :
      (context : Option String) (value : Dict XmlValue)
      → Distinct value
      → reorder host context value
        ≡ picked
            (order_of context
              ++ (host.sort (compare_p_key host) (unlisted_p context value)
                  ++ unlisted_other context value))
            value
  unfolding reorder get sorted_p
  order-reorder context value distinct =
      let order = order_of context in
      let all_keys = nodup-keys_of value distinct in
      let p_once : nodup (sorted_p context value) ≡ true =
        sort_once (compare_p_key host) (unlisted_p context value)
          (nodup-filter_keys (λ k. not (has k order) && is_p_key k) (keys_of value) all_keys) in
      let other_once =
        nodup-filter_keys (λ k. not (has k order) && not (is_p_key k)) (keys_of value) all_keys in
      let first = add_keys-append order value [] (nodup-order_of context) (λ k h. refl) in
      let second =
        add_keys-append (sorted_p context value) value (add_keys order value []) p_once
          (Fresh-listed context value) in
      let third =
        add_keys-append (unlisted_other context value) value
          (add_keys (sorted_p context value) value (add_keys order value [])) other_once
          (Fresh-sorted_p context value) in
      rw (unlisted_p_lem context value, unlisted_other_lem context value)
        (third
          ∙ ap (λ x. x ++ picked (unlisted_other context value) value)
              (second ∙ ap (λ x. x ++ picked (sorted_p context value) value) first)
          ∙ append_assoc (picked order value) (picked (sorted_p context value) value)
              (picked (unlisted_other context value) value)
          ∙ ap (λ x. picked order value ++ x)
              (sym (picked-append (sorted_p context value) (unlisted_other context value) value))
          ∙ sym
              (picked-append order (sorted_p context value ++ unlisted_other context value) value))

is_none : (o : Option XmlValue) → is_some o ≡ false → o ≡ none
is_none none h = refl
is_none (some v) h = cc

module _ (host : Host) where
  get-normalize_fields :
      (fields : XmlFields) (k : String)
      → is_some (get k (entries (normalize_fields host fields))) ≡ is_some (get k (entries fields))
  unfolding normalize_fields get
  get-normalize_fields no_fields k = refl
  get-normalize_fields (field j v fields) k = elim (Bool-cases (str_eq j k)) [
    | inl same ↦ rw same refl
    | inr other ↦ rw other (get-normalize_fields fields k)
  ]

  normalize_fields-Distinct :
      (fields : XmlFields)
      → Distinct (entries fields)
      → Distinct (entries (normalize_fields host fields))
  unfolding normalize_fields
  normalize_fields-Distinct no_fields h = h
  normalize_fields-Distinct (field j v fields) (fresh, h) = (
    is_none (get j (entries (normalize_fields host fields)))
        (get-normalize_fields fields j ∙ ap is_some fresh),
    normalize_fields-Distinct fields h,
  )

module _ (host : Host) (sort : SortKeeps host) (sort_once : SortOnce host) where
  -- With a sort that keeps its keys, for an object whose names differ: the elements come as the order
  -- of the context has them, then the other ones whose name starts with P_ as the sort by comparePKey
  -- puts them, then the rest as the object has them; elements with `undefined` are left out.
  pub order-order_xml_object :
      (context : Option String) (value : XmlFields)
      → Distinct (entries value)
      → (let ordered = entries (normalize_fields host value) in
          order_xml_object host context value
          ≡ from_entries (
              picked
                (order_of context
                  ++ (host.sort (compare_p_key host) (unlisted_p context ordered)
                      ++ unlisted_other context ordered))
                ordered))
  unfolding order_xml_object
  order-order_xml_object context value distinct = ap from_entries (
      order-reorder host sort sort_once context (entries (normalize_fields host value))
        (normalize_fields-Distinct host value distinct))
