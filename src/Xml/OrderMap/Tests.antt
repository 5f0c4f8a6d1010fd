-- ===== src/Xml/OrderMap/Tests.antt =====
-- Examples of xml/order-map.ts, with an insertion sort for the host's.
use Prim.Native.Nat.{Ordering}
use ksef_client_ts.Base.{
  ℕ, ◌≡◌, refl, ◌∙◌, arith, true, false, ◌&&◌, ◌||◌, Option, none, some, List, [], ◌∷◌, String, ◌+◌,
  ◌-◌, ◌*◌, ◌/◌, ◌%◌, ltb, leb, str_eq, eq_iff, if◌then◌else◌,
}
use ksef_client_ts.Xml.{
  XmlFields, array, object, item, no_items, text, undefined, no_fields, field, entries,
}
use ksef_client_ts.Base.Dict.{get}
use ksef_client_ts.Xml.OrderMap.{
  Host, has, compare_p_key, normalize, normalize_fields, order_xml_object,
}
use ksef_client_ts.Xml.OrderMap.Reorder.{unnamed, get-order_xml_object}
use ksef_client_ts.Xml.OrderMap.Order.{nodup, order-order_xml_object}

abbrev insert : (String → String → Ordering) → String → List String → List String
insert c x [] = x ∷ []
insert c x (y ∷ ys) =
    let rest = insert c x ys in elim (c x y) [ Ordering.gt ↦ y ∷ rest | _ ↦ x ∷ y ∷ ys ]

abbrev insertion_sort : (String → String → Ordering) → List String → List String
insertion_sort c [] = []
insertion_sort c (x ∷ xs) = insert c x (insertion_sort c xs)

has-insert :
    (c : String → String → Ordering) (x : String) (ys : List String) (k : String)
    → has k (insert c x ys) ≡ (str_eq k x || has k ys)
has-insert c x [] k = refl
has-insert c x (y ∷ ys) k = ground (arith, has-insert c x ys k)

has-insertion_sort :
    (c : String → String → Ordering) (keys : List String) (k : String)
    → has k (insertion_sort c keys) ≡ has k keys
has-insertion_sort c [] k = refl
has-insertion_sort c (x ∷ xs) k =
    ground (arith, has-insert c x (insertion_sort c xs) k, has-insertion_sort c xs k)

nodup-insert :
    (c : String → String → Ordering) (x : String) (ys : List String)
    → has x ys ≡ false
    → nodup ys ≡ true
    → nodup (insert c x ys) ≡ true
nodup-insert c x [] apart h = refl
nodup-insert c x (y ∷ ys) apart h =
    ground (arith, eq_iff x y, eq_iff y x, has-insert c x ys y, nodup-insert c x ys)

nodup-insertion_sort :
    (c : String → String → Ordering) (keys : List String)
    → nodup keys ≡ true
    → nodup (insertion_sort c keys) ≡ true
nodup-insertion_sort c [] h = refl
nodup-insertion_sort c (x ∷ xs) h =
    nodup-insert c x (insertion_sort c xs) (has-insertion_sort c xs x ∙ ground arith)
      (nodup-insertion_sort c xs (ground arith))

-- `Number` on digits, and `String` of a number below 100
abbrev digits : List ℕ → ℕ → Option ℕ
digits [] n = some n
digits (d ∷ ds) n =
    let rest = digits ds (n * 10 + (d - b'0')) in if leb b'0' d && leb d b'9' then rest else none

abbrev host : Host
host = record {
  number_of = λ s. digits s 0;
  text_of = λ n. if ltb n 10 then (n + b'0') ∷ [] else (n / 10 + b'0') ∷ (n % 10 + b'0') ∷ [];
  sort = insertion_sort;
}

abbrev rows : XmlFields
rows = field "P_10" (text "b") (
    field "Uwagi" (text "c")
      (field "P_2" (text "a") (field "P_3" undefined (field "NrWierszaFa" (text "1") no_fields))))

-- An invoice with rows and a row of its own.
abbrev invoice : XmlFields
invoice =
    field "FaWiersz" (array (item (object rows) (item (text "d") no_items)))
      (field "Uwagi" undefined no_fields)

get-order_xml_object_example :
    get "FaWiersz" (entries (order_xml_object host (some "Fa") invoice))
    ≡ some (
        array
          (item (object (order_xml_object host (some "FaWiersz") rows)) (item (text "d") no_items)))
unfolding get unnamed
get-order_xml_object_example =
    get-order_xml_object host has-insertion_sort (some "Fa") invoice "FaWiersz"

order-order_xml_object_example :
    order_xml_object host none rows
    ≡ field "P_2" (text "a") (
        field "P_10"
          (text "b")
          (field "Uwagi" (text "c") (field "NrWierszaFa" (text "1") no_fields)))
unfolding get compare_p_key normalize normalize_fields
order-order_xml_object_example =
    order-order_xml_object host has-insertion_sort nodup-insertion_sort none rows
      (refl, (refl, (refl, (refl, (refl, tt)))))

-- The comparator has a cycle, on names of elements that the invoices have.
compare_p_key_first : compare_p_key host "P_2" "P_10" ≡ Ordering.lt
unfolding compare_p_key normalize
compare_p_key_first = refl

compare_p_key_second : compare_p_key host "P_10" "P_1M" ≡ Ordering.lt
unfolding compare_p_key normalize
compare_p_key_second = refl

compare_p_key_third : compare_p_key host "P_1M" "P_2" ≡ Ordering.lt
unfolding compare_p_key normalize
compare_p_key_third = refl
