-- ===== src/Serialization/RoundTrip.antt =====
-- Values come back from their bytes (ractor/src/serialization.rs).
use mathlib.Core.List.{append_assoc, append-nil}
use native.Mathlib.Nat.{le-div_iff_mul-le, div-lt_iff_lt-mul}
use ractor.Prelude.{
  ℕ, zero, suc, ◌+◌, ◌*◌, ◌/◌, ◌^◌, ◌≤◌, ◌<◌, ◌≡◌, refl, sym, ap, ap₂, ◌∙◌, Bool, true, false, some,
  List, [], ◌∷◌, ◌++◌, arith, length, take, drop, replicate, All, length-append, take-append_length,
  drop-append_length, ◌⊎◌, inl, inr,
}
use ractor.Prelude.Bytes.{be_bytes, be_value, be_value-be_bytes, length-be_bytes}
use ractor.Serialization.{
  numeric_into_bytes, numeric_from_bytes, bool_into_bytes, bool_from_bytes, char_from_u32,
  char_into_bytes, to_char, char_from_bytes, push_char, write_slice, write_items, vec_into_bytes,
  read_items, vec_from_bytes, bools_into_bytes, bools_from_bytes, chars_into_bytes, chars_from_u32s,
  chars_from_bytes, Convertable, unit, flag, character, bytes, flags, characters, numeric, numerics,
  Value, value_into_bytes, value_from_bytes,
}

-- The bytes of the items, one after the other.
all_bytes : ℕ → List ℕ → List ℕ
all_bytes k [] = []
all_bytes k (n ∷ ns) = be_bytes k n ++ all_bytes k ns

length-all_bytes : (k : ℕ) (ns : List ℕ) → length (all_bytes k ns) ≡ length ns * k
unfolding all_bytes
length-all_bytes k [] = omega arith
length-all_bytes k (n ∷ ns) = grind (
  arith,
  length-append (be_bytes k n) (all_bytes k ns),
  length-be_bytes k n,
  length-all_bytes k ns,
)

drop_middle :
    (k : ℕ) (pre mid post : List ℕ) (n : ℕ)
    → length pre ≡ k
    → length mid ≡ n
    → drop (k + n) (pre ++ mid ++ post) ≡ post
drop_middle k pre mid post n h l =
    drop-append_length (k + n) (pre ++ mid) post (length-append pre mid ∙ omega arith)

write_slice_middle :
    (pre mid post bs : List ℕ) (offset : ℕ)
    → length pre ≡ offset
    → length mid ≡ length bs
    → write_slice offset bs (pre ++ mid ++ post) ≡ pre ++ bs ++ post
unfolding write_slice
write_slice_middle pre mid post bs offset h l =
    ap (λ front. front ++ bs ++ drop (offset + length bs) (pre ++ mid ++ post))
      (ap (take offset) (append_assoc pre mid post) ∙ take-append_length offset pre (mid ++ post) h)
    ∙ ap (λ back. pre ++ bs ++ back) (drop_middle offset pre mid post (length bs) h l)

length-replicate : (n : ℕ) → length (replicate {A = ℕ} n 0) ≡ n
length-replicate zero = refl
length-replicate (suc n) = ap suc (length-replicate n)

replicate_add : (m n : ℕ) → replicate {A = ℕ} (m + n) 0 ≡ replicate m 0 ++ replicate n 0
replicate_add zero n = ap (λ i. replicate i 0) (omega arith)
replicate_add (suc m) n =
    let step : suc m + n ≡ suc (m + n) = omega arith in
    ap (λ i. replicate i 0) step ∙ ap (λ r. 0 ∷ r) (replicate_add m n)

write_items-all_bytes :
    (k offset : ℕ) (ns pre : List ℕ)
    → length pre ≡ offset * k
    → write_items k offset ns (pre ++ replicate (length ns * k) 0) ≡ pre ++ all_bytes k ns
unfolding write_items all_bytes
write_items-all_bytes k offset [] pre h =
    let nothing : 0 * k ≡ 0 = omega arith in ap (λ n. pre ++ replicate n 0) nothing
write_items-all_bytes k offset (n ∷ ns) pre h =
    let sizes : suc (length ns) * k ≡ k + length ns * k = grind arith in
    ap
      (λ zeros.
        write_items k (offset + 1) ns (write_slice (offset * k) (be_bytes k n) (pre ++ zeros)))
      (ap (λ i. replicate i 0) sizes ∙ replicate_add k (length ns * k))
    ∙ ap (λ buf. write_items k (offset + 1) ns (write_slice (offset * k) (be_bytes k n) buf))
        (sym (append_assoc pre (replicate k 0) (replicate (length ns * k) 0)))
    ∙ ap (write_items k (offset + 1) ns) (
        write_slice_middle pre (replicate k 0) (replicate (length ns * k) 0) (be_bytes k n)
          (offset * k) h (length-replicate k ∙ sym (length-be_bytes k n)))
    ∙ write_items-all_bytes k (offset + 1) ns (pre ++ be_bytes k n)
        (grind (arith, length-append pre (be_bytes k n), length-be_bytes k n))
    ∙ append_assoc pre (be_bytes k n) (all_bytes k ns)

vec_into_bytes-all_bytes : (k : ℕ) (ns : List ℕ) → vec_into_bytes k ns ≡ all_bytes k ns
unfolding vec_into_bytes
vec_into_bytes-all_bytes k ns = write_items-all_bytes k 0 ns [] (omega arith)

read_items-all_bytes :
    (k offset : ℕ) (ns pre extra : List ℕ)
    → length pre ≡ offset * k
    → All (λ n. n < 256 ^ k) ns
    → read_items k (length ns) offset (pre ++ (all_bytes k ns ++ extra)) ≡ ns
unfolding read_items all_bytes
read_items-all_bytes k offset [] pre extra h f = refl
read_items-all_bytes k offset (n ∷ ns) pre extra h f =
    let rest = all_bytes k ns ++ extra in
    let front : pre ++ (be_bytes k n ++ all_bytes k ns ++ extra) ≡ pre ++ (be_bytes k n ++ rest) =
      ap (λ bs. pre ++ bs) (append_assoc (be_bytes k n) (all_bytes k ns) extra) in
    let here : be_value 0 (take k (drop (offset * k) (pre ++ (be_bytes k n ++ rest)))) ≡ n =
      ap (λ bs. be_value 0 (take k bs))
        (drop-append_length (offset * k) pre (be_bytes k n ++ rest) h)
      ∙ ap (be_value 0) (take-append_length k (be_bytes k n) rest (length-be_bytes k n))
      ∙ be_value-be_bytes k n f.0 in
    let later : read_items k (length ns) (offset + 1) (pre ++ (be_bytes k n ++ rest)) ≡ ns =
      ap (read_items k (length ns) (offset + 1)) (sym (append_assoc pre (be_bytes k n) rest))
      ∙ read_items-all_bytes k (offset + 1) ns (pre ++ be_bytes k n) extra
          (grind (arith, length-append pre (be_bytes k n), length-be_bytes k n)) f.1 in
    ap (read_items k (suc (length ns)) offset) front ∙ ap₂ ◌∷◌ here later

div_exact : (k n r : ℕ) → 1 ≤ k → r < k → (n * k + r) / k ≡ n
div_exact k n r low short = omega (
  arith,
  (le-div_iff_mul-le {k = k} {x = n} {y = n * k + r} low).1 (omega arith),
  (div-lt_iff_lt-mul {k = k} {x = n * k + r} {y = n + 1} low).1 (grind arith),
)

-- A vector comes back from its bytes, also where some more follow that make no item.
pub vec_from_bytes-vec_into_bytes :
    (k : ℕ) (ns extra : List ℕ)
    → 1 ≤ k
    → length extra < k
    → All (λ n. n < 256 ^ k) ns
    → vec_from_bytes k (vec_into_bytes k ns ++ extra) ≡ ns
unfolding vec_from_bytes
vec_from_bytes-vec_into_bytes k ns extra low short f =
    let size : length (vec_into_bytes k ns ++ extra) ≡ length ns * k + length extra =
      length-append (vec_into_bytes k ns) extra
      ∙ ap (λ bs. length bs + length extra) (vec_into_bytes-all_bytes k ns)
      ∙ ap (λ n. n + length extra) (length-all_bytes k ns) in
    let items : length (vec_into_bytes k ns ++ extra) / k ≡ length ns =
      ap (λ n. n / k) size ∙ div_exact k (length ns) (length extra) low short in
    ap (λ n. read_items k n 0 (vec_into_bytes k ns ++ extra)) items
    ∙ ap (λ bs. read_items k (length ns) 0 (bs ++ extra)) (vec_into_bytes-all_bytes k ns)
    ∙ read_items-all_bytes k 0 ns [] extra (omega arith) f

numeric_from_bytes-numeric_into_bytes :
    (k n : ℕ) → n < 256 ^ k → numeric_from_bytes k (numeric_into_bytes k n) ≡ some n
unfolding numeric_from_bytes numeric_into_bytes
numeric_from_bytes-numeric_into_bytes k n h =
    let exact : take k (be_bytes k n) ≡ be_bytes k n =
      ap (take k) (sym (append-nil (be_bytes k n)))
      ∙ take-append_length k (be_bytes k n) [] (length-be_bytes k n) in
    ground (arith, length-be_bytes k n, exact, be_value-be_bytes k n h)

-- The Unicode scalar values.
abbrev pub IsChar : ℕ → Type 0
IsChar c = (c < 0xd800) ⊎ ((0xe000 ≤ c) × (c < 0x11_0000))

char_from_u32-IsChar : (c : ℕ) → IsChar c → char_from_u32 c ≡ some c
unfolding char_from_u32
char_from_u32-IsChar c (inl h) = ground arith
char_from_u32-IsChar c (inr (h, k)) = ground arith

IsChar-lt : (c : ℕ) → IsChar c → c < 256 ^ 4
IsChar-lt c (inl h) = omega arith
IsChar-lt c (inr (h, k)) = omega arith

char_from_bytes-char_into_bytes : (c : ℕ) → IsChar c → char_from_bytes (char_into_bytes c) ≡ some c
unfolding char_from_bytes char_into_bytes to_char
char_from_bytes-char_into_bytes c h =
    ap to_char (numeric_from_bytes-numeric_into_bytes 4 c (IsChar-lt c h))
    ∙ char_from_u32-IsChar c h

chars_from_u32s-IsChar : (cs : List ℕ) → All IsChar cs → chars_from_u32s cs ≡ some cs
unfolding chars_from_u32s push_char
chars_from_u32s-IsChar [] h = refl
chars_from_u32s-IsChar (c ∷ cs) h =
    ap₂ push_char (char_from_u32-IsChar c h.0) (chars_from_u32s-IsChar cs h.1)

All-lt : (cs : List ℕ) → All IsChar cs → All (λ n. n < 256 ^ 4) cs
All-lt [] h = tt
All-lt (c ∷ cs) h = (IsChar-lt c h.0, All-lt cs h.1)

chars_from_bytes-chars_into_bytes :
    (cs : List ℕ) → All IsChar cs → chars_from_bytes (chars_into_bytes cs) ≡ some cs
unfolding chars_from_bytes chars_into_bytes
chars_from_bytes-chars_into_bytes cs h =
    ap (λ bs. chars_from_u32s (vec_from_bytes 4 bs)) (sym (append-nil (vec_into_bytes 4 cs)))
    ∙ ap chars_from_u32s
        (vec_from_bytes-vec_into_bytes 4 cs [] (omega arith) (omega arith) (All-lt cs h))
    ∙ chars_from_u32s-IsChar cs h

bools_from_bytes-bools_into_bytes : (bs : List Bool) → bools_from_bytes (bools_into_bytes bs) ≡ bs
unfolding bools_from_bytes bools_into_bytes
bools_from_bytes-bools_into_bytes [] = refl
bools_from_bytes-bools_into_bytes (true ∷ bs) = ap (◌∷◌ true) (bools_from_bytes-bools_into_bytes bs)
bools_from_bytes-bools_into_bytes (false ∷ bs) =
    ap (◌∷◌ false) (bools_from_bytes-bools_into_bytes bs)

-- The values of a type in the program: its words have its width, and its characters are characters.
abbrev pub Fits : (t : Convertable) → Value t → Type 0
Fits character c = IsChar c
Fits characters cs = All IsChar cs
Fits (numeric k) n = n < 256 ^ k
Fits (numerics k) ns = (1 ≤ k) × All (λ n. n < 256 ^ k) ns
Fits _ v = Unit

-- Each value of a convertable type comes back from its bytes, without a panic.
pub value_from_bytes-value_into_bytes :
    (t : Convertable) (v : Value t) → Fits t v → value_from_bytes t (value_into_bytes t v) ≡ some v
unfolding value_from_bytes value_into_bytes bool_from_bytes bool_into_bytes
value_from_bytes-value_into_bytes unit v h = refl
value_from_bytes-value_into_bytes flag true h = refl
value_from_bytes-value_into_bytes flag false h = refl
value_from_bytes-value_into_bytes character c h = char_from_bytes-char_into_bytes c h
value_from_bytes-value_into_bytes bytes bs h = refl
value_from_bytes-value_into_bytes flags bs h = ap some (bools_from_bytes-bools_into_bytes bs)
value_from_bytes-value_into_bytes characters cs h = chars_from_bytes-chars_into_bytes cs h
value_from_bytes-value_into_bytes (numeric k) n h = numeric_from_bytes-numeric_into_bytes k n h
value_from_bytes-value_into_bytes (numerics k) ns h =
    ap (λ bs. some (vec_from_bytes k bs)) (sym (append-nil (vec_into_bytes k ns)))
    ∙ ap some (vec_from_bytes-vec_into_bytes k ns [] h.0 h.0 h.1)
