-- ===== src/Xml.antt =====
-- xml/types.ts: the values that invoices are built from. An object is the list of its entries in the
-- order of `Object.keys`; no name of an element is an integer, so that this is the order of insertion.
pub mod OrderMap
use ksef_client_ts.Base.{Bool, true, false, List, [], ◌∷◌, ◌++◌, String}
use ksef_client_ts.Base.Dict.{Dict}
use ksef_client_ts.Base.Number.{Number}

mutual
  pub data XmlValue : Type 0 where
    text : String → XmlValue
    number : Number → XmlValue
    boolean : Bool → XmlValue
    null undefined : XmlValue
    array : XmlItems → XmlValue
    object : XmlFields → XmlValue

  pub data XmlItems : Type 0 where
    no_items : XmlItems
    item : XmlValue → XmlItems → XmlItems

  pub data XmlFields : Type 0 where
    no_fields : XmlFields
    field : String → XmlValue → XmlFields → XmlFields

-- Object.entries(object), and an object of entries
abbrev pub entries : XmlFields → Dict XmlValue
entries no_fields = []
entries (field k v fields) = (k, v) ∷ entries fields

abbrev pub from_entries : Dict XmlValue → XmlFields
from_entries [] = no_fields
from_entries ((k, v) ∷ m) = field k v (from_entries m)

-- `value !== undefined`
abbrev pub is_defined : XmlValue → Bool
is_defined undefined = false
is_defined _ = true

abbrev pub is_object : XmlValue → Bool
is_object (object _) = true
is_object _ = false
