-- ===== src/Hass/Event/RoundTrip.antt =====
-- internal/hass/event.go: `UnmarshalJSON` after `MarshalJSON`.
use Prim.Native.Nat.{◌≤◌, ◌^◌}
use busybar_bridge.Prelude.{
  ◌≡◌, refl, ap, ◌∙◌, List, [], ◌∷◌, Bool, ◌&&◌, ◌||◌, Option, none, some, arith, leb,
  if◌then◌else◌,
}
use busybar_bridge.Prelude.Decimal.{parse_int}
use busybar_bridge.Prelude.Int.{ℤ, pos_part, neg_part}
use busybar_bridge.Prelude.Map.{
  Value, str, int, int32, int64, float64, number, other, lookup, delete, lookup-insert,
  lookup-delete,
}
use busybar_bridge.Prelude.Result.{ok}
use busybar_bridge.Prelude.Text.{Text, codes, text_eq}
use busybar_bridge.Hass.Event.{Event, marshal, unmarshal, read_device, read_type, read_timestamp}

-- A number of a document is read as a `float64`, which holds every integer up to 2^53; a larger
-- one may be read as its neighbour, for which `other` stands.
float_of : ℤ → Value
float_of n = if leb (pos_part n) (2 ^ 53) && leb (neg_part n) (2 ^ 53) then float64 n else other 0

-- What `encoding/json` reads back of a value that it wrote.
unfoldable pub json_value : Value → Value
unfolding float_of
json_value (str s) = str s
json_value (int n) = float_of n
json_value (int32 n) = float_of n
json_value (int64 n) = float_of n
json_value (float64 n) = float64 n
json_value (number s) = elim (parse_int s) [ none ↦ other 0 | some n ↦ float_of n ]
json_value (other n) = other n

pub json_object : List (Text × Value) → List (Text × Value)
json_object [] = []
json_object ((k, v) ∷ m) = (k, json_value v) ∷ json_object m

unfoldable pub json_option : Option Value → Option Value
json_option none = none
json_option (some v) = some (json_value v)

lookup-json_object :
    (k : Text) (m : List (Text × Value)) → lookup k (json_object m) ≡ json_option (lookup k m)
unfolding lookup json_object json_option
lookup-json_object k [] = refl
lookup-json_object k ((j, v) ∷ m) = ground (arith, lookup-json_object k m)

abbrev pub is_standard : Text → Bool
is_standard k =
    text_eq (codes "device") k || text_eq (codes "type") k || text_eq (codes "timestamp") k

-- How a decoded event stands to the one that was encoded.
pub record Restores (e d : Event) : Type 0 where
  pub device : d.device ≡ e.device
  pub type : d.type ≡ e.type
  pub timestamp : d.timestamp ≡ e.timestamp
  pub fields :
      (k : Text)
      → lookup k d.fields ≡ (if is_standard k then none else json_option (lookup k e.fields))

lookup-marshal :
    (e : Event) (k : Text)
    → lookup k (marshal e) ≡ (
        if text_eq (codes "timestamp") k
        then some (int e.timestamp)
        else if text_eq (codes "type") k
        then some (str e.type)
        else if text_eq (codes "device") k
        then some (str e.device)
        else lookup k e.fields)
unfolding marshal
lookup-marshal e k = simp lookup-insert

module _ (s : Event) (raw : List (Text × Value)) where
  read_device-str :
      (v : Text)
      → lookup (codes "device") raw ≡ some (str v)
      → read_device s raw ≡ (record s { device = v }, delete (codes "device") raw)
  unfolding read_device
  read_device-str v h = ground arith

  read_type-str :
      (v : Text)
      → lookup (codes "type") raw ≡ some (str v)
      → read_type s raw ≡ (record s { type = v }, delete (codes "type") raw)
  unfolding read_type
  read_type-str v h = ground arith

  read_timestamp-float64 :
      (n : ℤ)
      → lookup (codes "timestamp") raw ≡ some (float64 n)
      → read_timestamp s raw ≡ (record s { timestamp = n }, delete (codes "timestamp") raw)
  unfolding read_timestamp
  read_timestamp-float64 n h = ground arith

-- What is left of an object when the standard fields are deleted.
abbrev rest_of : List (Text × Value) → List (Text × Value)
rest_of raw = delete (codes "timestamp") (delete (codes "type") (delete (codes "device") raw))

lookup-rest_of :
    (raw : List (Text × Value)) (k : Text)
    → lookup k (rest_of raw) ≡ (if is_standard k then none else lookup k raw)
lookup-rest_of raw k = ground (
  arith,
  lookup-delete (codes "timestamp") k (delete (codes "type") (delete (codes "device") raw)),
  lookup-delete (codes "type") k (delete (codes "device") raw),
  lookup-delete (codes "device") k raw,
)

unmarshal_fields :
    (start : Event) (raw : List (Text × Value)) (device type : Text) (n : ℤ)
    → lookup (codes "device") raw ≡ some (str device)
    → lookup (codes "type") raw ≡ some (str type)
    → lookup (codes "timestamp") raw ≡ some (float64 n)
    → unmarshal (ok raw) start
      ≡ ok (record start { device = device; type = type; timestamp = n; fields = rest_of raw })
unfolding unmarshal text_eq
unmarshal_fields start raw device type n hd ht hn =
    let s₁ = record start { device = device } in
    let raw₁ = delete (codes "device") raw in
    let s₂ = record s₁ { type = type } in
    let raw₂ = delete (codes "type") raw₁ in
    rw (
      read_device-str start raw device hd,
      read_type-str s₁ raw₁ type (lookup-delete (codes "device") (codes "type") raw ∙ ht),
      read_timestamp-float64 s₂ raw₂ n (
          lookup-delete (codes "type") (codes "timestamp") raw₁
          ∙ lookup-delete (codes "device") (codes "timestamp") raw
          ∙ hn),
    )

float_of_safe : (n : ℤ) → pos_part n ≤ 2 ^ 53 → neg_part n ≤ 2 ^ 53 → float_of n ≡ float64 n
unfolding float_of
float_of_safe n h k = ground arith

rest_value :
    (e : Event) (k : Text)
    → (if is_standard k then none else lookup k (json_object (marshal e)))
      ≡ (if is_standard k then none else json_option (lookup k e.fields))
rest_value e k = ground (arith, lookup-json_object k (marshal e), lookup-marshal e k)

-- Decoding the object of an encoded event, over any earlier contents of the receiver, succeeds and
-- gives back the device, the type and the timestamp; a field of the data map comes back as
-- `encoding/json` reads it, except that fields with one of the three standard names are gone.
-- The timestamp is at most 2^53 in magnitude, where a float64 is exact.
pub unmarshal-marshal :
    (e start : Event)
    → pos_part e.timestamp ≤ 2 ^ 53
    → neg_part e.timestamp ≤ 2 ^ 53
    → (d : Event) × (unmarshal (ok (json_object (marshal e))) start ≡ ok d) × Restores e d
unfolding text_eq json_option json_value
unmarshal-marshal e start h k =
    let raw = json_object (marshal e) in
    let look =
      λ (j : Text). lookup-json_object j (marshal e) ∙ ap json_option (lookup-marshal e j) in
    (
      record start {
        device = e.device;
        type = e.type;
        timestamp = e.timestamp;
        fields = rest_of raw;
      },
      unmarshal_fields start raw e.device e.type e.timestamp (look (codes "device"))
          (look (codes "type"))
          (look (codes "timestamp") ∙ ap some (float_of_safe e.timestamp h k)),
      record {
        device = refl;
        type = refl;
        timestamp = refl;
        fields = λ j. lookup-rest_of raw j ∙ rest_value e j;
      },
    )
