-- ===== src/Messages/History/Stripped.antt =====
-- src/baileys/helpers/historySync.ts: what the stripping leaves of a value, at every depth.
use baileys_api.Prelude.{◌≡◌, refl, ap, Bool, true, false, String}
use baileys_api.Messages.History.{
  Value, leaf, text, array, object, Items, nil, cons, Fields, end, field, is_stripped, keep_field,
  strip, strip_items, strip_fields,
}

-- No object inside has one of the stripped fields.
unfoldable mutual
  pub IsStripped : Value → Type 0
  IsStripped (leaf value) = Unit {0}
  IsStripped (text value) = Unit {0}
  IsStripped (array items) = AreStripped items
  IsStripped (object fields) = HasNone fields

  pub AreStripped : Items → Type 0
  AreStripped nil = Unit {0}
  AreStripped (cons item items) = IsStripped item × AreStripped items

  pub HasNone : Fields → Type 0
  HasNone end = Unit {0}
  HasNone (field key item fields) = (is_stripped key ≡ false) × IsStripped item × HasNone fields

keep_field-HasNone :
    (b : Bool) (key : String) (item : Value) (fields : Fields)
    → is_stripped key ≡ b
    → IsStripped item
    → HasNone fields
    → HasNone (keep_field b key item fields)
unfolding HasNone IsStripped AreStripped
keep_field-HasNone true key item fields e i f = f
keep_field-HasNone false key item fields e i f = (e, i, f)

mutual
  unfolding strip IsStripped

  strip_clean : (value : Value) → IsStripped (strip value)
  strip_clean (leaf value) = tt
  strip_clean (text value) = tt
  strip_clean (array items) = strip_items_clean items
  strip_clean (object fields) = strip_fields_clean fields

  strip_items_clean : (items : Items) → AreStripped (strip_items items)
  strip_items_clean nil = tt
  strip_items_clean (cons item items) = (strip_clean item, strip_items_clean items)

  strip_fields_clean : (fields : Fields) → HasNone (strip_fields fields)
  strip_fields_clean end = tt
  strip_fields_clean (field key item fields) =
      keep_field-HasNone (is_stripped key) key (strip item) (strip_fields fields) refl
        (strip_clean item) (strip_fields_clean fields)

mutual
  unfolding strip IsStripped

  strip_same : (value : Value) → IsStripped value → strip value ≡ value
  strip_same (leaf value) h = refl
  strip_same (text value) h = refl
  strip_same (array items) h = ap array (strip_items_same items h)
  strip_same (object fields) h = ap object (strip_fields_same fields h)

  strip_items_same : (items : Items) → AreStripped items → strip_items items ≡ items
  strip_items_same nil h = refl
  strip_items_same (cons item items) h = rw (strip_same item h.0, strip_items_same items h.1) refl

  strip_fields_same : (fields : Fields) → HasNone fields → strip_fields fields ≡ fields
  strip_fields_same end h = refl
  strip_fields_same (field key item fields) h =
      rw (h.0, strip_same item h.1, strip_fields_same fields h.2) refl

-- What is stripped has none of the stripped fields at any depth, and nothing else is taken: what has
-- none of them stays as it is.
pub strip-IsStripped :
    (value : Value) → IsStripped (strip value) × (IsStripped value → strip value ≡ value)
strip-IsStripped value = (strip_clean value, strip_same value)
