-- ===== src/Serialization.antt =====
-- The conversions to and from bytes of ractor/src/serialization.rs, without `blanket_serde`. A number,
-- also a signed one and a float, is its bit pattern; `none` is a panic. The text of a string is left
-- to the standard library.
pub mod RoundTrip
use ractor.Prelude.{
  ℕ, zero, suc, ◌+◌, ◌*◌, ◌/◌, Bool, true, false, ◌&&◌, ◌||◌, Option, none, some, List, [], ◌∷◌,
  ◌++◌, map, if◌then◌else◌, ltb, leb, ◌==◌, length, take, drop, replicate,
}
use ractor.Prelude.Bytes.{be_bytes, be_value}

-- `implement_numeric`, for a type of `k` bytes.
unfoldable pub numeric_into_bytes : ℕ → ℕ → List ℕ
numeric_into_bytes k n = be_bytes k n

unfoldable pub numeric_from_bytes : ℕ → List ℕ → Option ℕ
numeric_from_bytes k bytes = if ltb (length bytes) k then none else some (be_value 0 (take k bytes))

unfoldable pub bool_into_bytes : Bool → List ℕ
bool_into_bytes b = if b then 1 ∷ [] else 0 ∷ []

unfoldable pub bool_from_bytes : List ℕ → Option Bool
bool_from_bytes [] = none
bool_from_bytes (b ∷ bytes) = some (b == 1)

-- `char::from_u32`: the surrogates and what is past the last code point are no characters.
unfoldable pub char_from_u32 : ℕ → Option ℕ
char_from_u32 u = if ltb u 0xd800 || (leb 0xe000 u && ltb u 0x11_0000) then some u else none

unfoldable pub char_into_bytes : ℕ → List ℕ
char_into_bytes c = numeric_into_bytes 4 c

unfoldable pub to_char : Option ℕ → Option ℕ
to_char (some u) = char_from_u32 u
to_char none = none

unfoldable pub char_from_bytes : List ℕ → Option ℕ
char_from_bytes bytes = to_char (numeric_from_bytes 4 bytes)

-- `copy_from_slice` into a part of a buffer.
unfoldable pub write_slice : ℕ → List ℕ → List ℕ → List ℕ
write_slice offset bytes buf = take offset buf ++ bytes ++ drop (offset + length bytes) buf

-- The loop of `implement_vectorized_numeric`, from an offset on.
unfoldable pub write_items : ℕ → ℕ → List ℕ → List ℕ → List ℕ
write_items k offset [] buf = buf
write_items k offset (item ∷ items) buf =
    write_items k (offset + 1) items (write_slice (offset * k) (be_bytes k item) buf)

unfoldable pub vec_into_bytes : ℕ → List ℕ → List ℕ
vec_into_bytes k items = write_items k 0 items (replicate (length items * k) 0)

-- So many items from an offset on.
unfoldable pub read_items : ℕ → ℕ → ℕ → List ℕ → List ℕ
read_items k zero offset bytes = []
read_items k (suc n) offset bytes =
    be_value 0 (take k (drop (offset * k) bytes)) ∷ read_items k n (offset + 1) bytes

unfoldable pub vec_from_bytes : ℕ → List ℕ → List ℕ
vec_from_bytes k bytes = read_items k (length bytes / k) 0 bytes

unfoldable pub bools_into_bytes : List Bool → List ℕ
bools_into_bytes = map (λ b. if b then 1 else 0)

unfoldable pub bools_from_bytes : List ℕ → List Bool
bools_from_bytes = map (λ b. b == 1)

unfoldable pub chars_into_bytes : List ℕ → List ℕ
chars_into_bytes cs = vec_into_bytes 4 cs

unfoldable pub push_char : Option ℕ → Option (List ℕ) → Option (List ℕ)
push_char none cs = none
push_char (some c) none = none
push_char (some c) (some cs) = some (c ∷ cs)

unfoldable pub chars_from_u32s : List ℕ → Option (List ℕ)
chars_from_u32s [] = some []
chars_from_u32s (u ∷ us) = push_char (char_from_u32 u) (chars_from_u32s us)

unfoldable pub chars_from_bytes : List ℕ → Option (List ℕ)
chars_from_bytes bytes = chars_from_u32s (vec_from_bytes 4 bytes)

-- The types that implement `BytesConvertable`, and their values.
pub data Convertable : Type 0 where
  unit flag character bytes flags characters : Convertable
  numeric numerics : ℕ → Convertable

abbrev pub Value : Convertable → Type 0
Value unit = Unit
Value flag = Bool
Value character = ℕ
Value bytes = List ℕ
Value flags = List Bool
Value characters = List ℕ
Value (numeric k) = ℕ
Value (numerics k) = List ℕ

unfoldable pub value_into_bytes : (t : Convertable) → Value t → List ℕ
value_into_bytes unit v = []
value_into_bytes flag v = bool_into_bytes v
value_into_bytes character v = char_into_bytes v
value_into_bytes bytes v = v
value_into_bytes flags v = bools_into_bytes v
value_into_bytes characters v = chars_into_bytes v
value_into_bytes (numeric k) v = numeric_into_bytes k v
value_into_bytes (numerics k) v = vec_into_bytes k v

unfoldable pub value_from_bytes : (t : Convertable) → List ℕ → Option (Value t)
value_from_bytes unit bs = some tt
value_from_bytes flag bs = bool_from_bytes bs
value_from_bytes character bs = char_from_bytes bs
value_from_bytes bytes bs = some bs
value_from_bytes flags bs = some (bools_from_bytes bs)
value_from_bytes characters bs = chars_from_bytes bs
value_from_bytes (numeric k) bs = numeric_from_bytes k bs
value_from_bytes (numerics k) bs = some (vec_from_bytes k bs)
