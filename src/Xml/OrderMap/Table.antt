-- ===== src/Xml/OrderMap/Table.antt =====
-- xml/order-map.ts: the table ORDER_MAP.
use ksef_client_ts.Base.{List, [], ◌∷◌, String}
use ksef_client_ts.Base.Dict.{Dict}

abbrev faktura_order : List String
faktura_order = "Naglowek" ∷ "Podmiot1" ∷ "Podmiot2" ∷ "Podmiot3" ∷ "Fa" ∷ "Stopka" ∷ []

abbrev naglowek_order : List String
naglowek_order = "KodFormularza" ∷ "WariantFormularza" ∷ "DataWytworzeniaFa" ∷ "SystemInfo" ∷ []

abbrev podmiot1_order : List String
podmiot1_order =
    "PrefiksPodatnika" ∷ "NrEORI" ∷ "DaneIdentyfikacyjne" ∷ "Adres" ∷ "AdresKoresp"
    ∷ "DaneKontaktowe" ∷ "StatusInfoPodatnika" ∷ []

abbrev podmiot2_order : List String
podmiot2_order =
    "NrEORI" ∷ "DaneIdentyfikacyjne" ∷ "Adres" ∷ "AdresKoresp" ∷ "DaneKontaktowe" ∷ "NrKlienta"
    ∷ "IDNabywcy" ∷ "JST" ∷ "GV" ∷ []

abbrev podmiot3_order : List String
podmiot3_order =
    "IDNabywcy" ∷ "NrEORI" ∷ "DaneIdentyfikacyjne" ∷ "Adres" ∷ "AdresKoresp" ∷ "DaneKontaktowe"
    ∷ "Rola" ∷ "Udzial" ∷ []

abbrev dane_identyfikacyjne_order : List String
dane_identyfikacyjne_order =
    "NIP" ∷ "IDWew" ∷ "KodUE" ∷ "NrVatUE" ∷ "KodKraju" ∷ "NrID" ∷ "BrakID" ∷ "Nazwa"
    ∷ "Identyfikator" ∷ "KRS" ∷ []

abbrev adres_order : List String
adres_order = "KodKraju" ∷ "AdresL1" ∷ "AdresL2" ∷ "AdresL3" ∷ []

abbrev dane_kontaktowe_order : List String
dane_kontaktowe_order = "Email" ∷ "Telefon" ∷ []

abbrev fa_order : List String
fa_order =
    "KodWaluty" ∷ "P_1" ∷ "P_1M" ∷ "P_2" ∷ "WZ" ∷ "P_6" ∷ "OkresFa" ∷ "P_13_1" ∷ "P_14_1"
    ∷ "P_14_1W" ∷ "P_13_2" ∷ "P_14_2" ∷ "P_14_2W" ∷ "P_13_3" ∷ "P_14_3" ∷ "P_14_3W" ∷ "P_13_4"
    ∷ "P_14_4" ∷ "P_14_4W" ∷ "P_13_5" ∷ "P_14_5" ∷ "P_13_6_1" ∷ "P_13_6_2" ∷ "P_13_6_3" ∷ "P_13_7"
    ∷ "P_13_8" ∷ "P_13_9" ∷ "P_13_10" ∷ "P_13_11" ∷ "P_15" ∷ "KursWalutyZ" ∷ "Adnotacje"
    ∷ "RodzajFaktury" ∷ "PrzyczynaKorekty" ∷ "TypKorekty" ∷ "DaneFaKorygowanej"
    ∷ "OkresFaKorygowanej" ∷ "NrFaKorygowany" ∷ "Podmiot1K" ∷ "Podmiot2K" ∷ "Podmiot3K"
    ∷ "ZaliczkaCzesciowa" ∷ "FP" ∷ "TP" ∷ "DodatkowyOpis" ∷ "FakturaZaliczkowa" ∷ "ZwrotAkcyzy"
    ∷ "FaWiersz" ∷ "FaWiersze" ∷ "Rozliczenie" ∷ "Platnosc" ∷ []

abbrev adnotacje_order : List String
adnotacje_order =
    "P_16" ∷ "P_17" ∷ "P_18" ∷ "P_18A" ∷ "Zwolnienie" ∷ "NoweSrodkiTransportu" ∷ "P_23" ∷ "PMarzy"
    ∷ []

abbrev okres_fa_order : List String
okres_fa_order = "P_6_Od" ∷ "P_6_Do" ∷ []

abbrev fa_wiersz_order : List String
fa_wiersz_order =
    "NrWierszaFa" ∷ "UU_ID" ∷ "P_6A" ∷ "P_7" ∷ "Indeks" ∷ "GTIN" ∷ "PKWiU" ∷ "CN" ∷ "PKOB" ∷ "P_8A"
    ∷ "P_8B" ∷ "P_9A" ∷ "P_9B" ∷ "P_10" ∷ "P_11" ∷ "P_11A" ∷ "P_11Vat" ∷ "P_12" ∷ "P_12_XII"
    ∷ "P_12_Zal_15" ∷ "KwotaAkcyzy" ∷ "GTU" ∷ "Procedura" ∷ "KursWaluty" ∷ "StanPrzed" ∷ []

abbrev pub order_map : Dict (List String)
order_map =
    ("Faktura", faktura_order)
    ∷ ("Naglowek", naglowek_order)
    ∷ ("Podmiot1", podmiot1_order)
    ∷ ("Podmiot2", podmiot2_order)
    ∷ ("Podmiot3", podmiot3_order)
    ∷ ("DaneIdentyfikacyjne", dane_identyfikacyjne_order)
    ∷ ("Adres", adres_order)
    ∷ ("DaneKontaktowe", dane_kontaktowe_order)
    ∷ ("Fa", fa_order)
    ∷ ("Adnotacje", adnotacje_order)
    ∷ ("OkresFa", okres_fa_order)
    ∷ ("FaWiersz", fa_wiersz_order)
    ∷ []
