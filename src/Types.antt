-- ===== src/Types.antt =====
-- The scalar types: kernel/kds/types.c. A 64-bit signed number is its two's complement word; the
-- text of a number is made and read by the kernel's `scnprintf` and `kstrtoll`, of which the second
-- is a parameter. A buffer is the list of its bytes.
pub mod Integers
pub mod Hex
pub mod Tests
use kdbs.Common.{
  ℕ, zero, suc, ◌+◌, ◌-◌, ◌*◌, ◌/◌, ◌%◌, ◌^◌, Bool, true, false, not, ◌&&◌, ◌||◌, List, [], ◌∷◌,
  ◌++◌, Option, none, some, length, take, ltb, leb, ◌==◌, if◌then◌else◌, Errno, Result, ok, err,
  einval, enospc, erange,
}
use kdbs.Common.Fields.{le_bytes, le_value}
use kdbs.Common.Text.{codes, same_text}

-- `kds_type_val_t`.
pub data TypeVal : Type 0 where
  int8 int16 int32 int64 float decimal bool varchar char : TypeVal

-- `kds_type_desc_t` without its functions, which the type's value selects.
pub record TypeDesc : Type 0 where
  pub type_val : TypeVal
  pub name : List ℕ
  pub fixed_len : ℕ

abbrev desc : TypeVal → List ℕ → ℕ → TypeDesc
desc type_val name fixed_len = record { type_val = type_val; name = name; fixed_len = fixed_len }

abbrev pub type_table : List TypeDesc
type_table =
    desc int8 (codes "int8") 1
    ∷ desc int16 (codes "int16") 2
    ∷ desc int32 (codes "int32") 4
    ∷ desc int64 (codes "int64") 8
    ∷ desc float (codes "float") 4
    ∷ desc decimal (codes "decimal") 8
    ∷ desc bool (codes "bool") 1
    ∷ desc varchar (codes "varchar") 0
    ∷ desc char (codes "char") 0
    ∷ []

abbrev pub find_name : List TypeDesc → List ℕ → Option TypeDesc
find_name [] name = none
find_name (d ∷ ds) name = if same_text d.name name then some d else find_name ds name

-- `kds_type_lookup_by_name` on a name that is there.
unfoldable pub type_lookup_by_name : List ℕ → Option TypeDesc
type_lookup_by_name name = find_name type_table name

-- The number of a type, as in the enum.
abbrev pub type_number : TypeVal → ℕ
type_number int8 = 0
type_number int16 = 1
type_number int32 = 2
type_number int64 = 3
type_number float = 4
type_number decimal = 5
type_number bool = 6
type_number varchar = 7
type_number char = 8

abbrev pub find_val : List TypeDesc → ℕ → Option TypeDesc
find_val [] v = none
find_val (d ∷ ds) v = if type_number d.type_val == v then some d else find_val ds v

unfoldable pub type_lookup_by_val : ℕ → Option TypeDesc
type_lookup_by_val v = find_val type_table v

-- `min` and `max` of a type of `w` bytes: the words of the numbers from -2 ^ (8 w - 1) on, below
-- 2 ^ (8 w - 1).
abbrev pub is_in_range : ℕ → ℕ → Bool
is_in_range w v = ltb v (256 ^ w / 2) || leb (2 ^ 64 - 256 ^ w / 2) v

abbrev pub store_int : ℕ → Result ℕ → Result (List ℕ)
store_int w (err e) = err e
store_int w (ok v) = if is_in_range w v then ok (le_bytes w v) else err erange

-- `encode_int_generic`, for the widths 1, 2, 4 and 8: the bytes that are written, and as many is
-- `*out_len`.
unfoldable pub encode_int : (List ℕ → Result ℕ) → ℕ → List ℕ → ℕ → Result (List ℕ)
encode_int kstrtoll w str buf_size =
    if ltb buf_size w then err enospc else store_int w (kstrtoll str)

-- A number of `w` bytes as a 64-bit word.
abbrev pub sign_extend : ℕ → ℕ → ℕ
sign_extend w v = if ltb v (256 ^ w / 2) then v else v + (2 ^ 64 - 256 ^ w)

-- `decode_int_generic` up to the number that it prints.
unfoldable pub decode_int : ℕ → List ℕ → Result ℕ
decode_int w bs = if not (length bs == w) then err einval else ok (sign_extend w (le_value bs))

-- The order of words as signed numbers.
abbrev pub below : ℕ → ℕ → Bool
below a b = ltb ((a + 2 ^ 63) % 2 ^ 64) ((b + 2 ^ 63) % 2 ^ 64)

pub data Order : Type 0 where
  less same more : Order

-- `compare_int64_generic`; `(av > bv) - (av < bv)` is an `Order`.
unfoldable pub compare_int : ℕ → List ℕ → List ℕ → Order
compare_int w a b =
    let av = sign_extend w (le_value a) in
    let bv = sign_extend w (le_value b) in
    if not (length a == w) || not (length b == w)
    then same
    else if below bv av
    then more
    else if below av bv
    then less
    else same

unfoldable pub encode_bool : List ℕ → ℕ → Result (List ℕ)
encode_bool str buf_size =
    if ltb buf_size 1
    then err enospc
    else ok ((if same_text str (codes "1") || same_text str (codes "true") then 1 else 0) ∷ [])

-- The text that `decode_bool` prints, before it is cut to the buffer.
unfoldable pub decode_bool : List ℕ → Result (List ℕ)
decode_bool [] = err einval
decode_bool (v ∷ []) = ok (if v == 0 then codes "false" else codes "true")
decode_bool (v ∷ (w ∷ bs)) = err einval

unfoldable pub encode_varchar : List ℕ → ℕ → Result (List ℕ)
encode_varchar str buf_size =
    if ltb 65535 (length str) || ltb buf_size (length str) then err enospc else ok str

unfoldable pub decode_varchar : List ℕ → ℕ → Result (List ℕ)
decode_varchar bs out_size = if leb out_size (length bs) then err enospc else ok bs

-- `hex_nibble`; `none` is -1.
abbrev pub hex_nibble : ℕ → Option ℕ
hex_nibble c =
    if leb b'0' c && leb c b'9'
    then some (c - b'0')
    else if leb b'a' c && leb c b'f'
    then some (c - b'a' + 10)
    else if leb b'A' c && leb c b'F'
    then some (c - b'A' + 10)
    else none

abbrev pub join_nibbles : Option ℕ → Option ℕ → Result (List ℕ) → Result (List ℕ)
join_nibbles (some hi) (some lo) (ok bs) = ok ((hi * 16 + lo) ∷ bs)
join_nibbles _ _ _ = err einval

-- The loop of `parse_hex_bytes`; all its errors are -EINVAL.
unfoldable pub parse_hex : ℕ → List ℕ → Result (List ℕ)
parse_hex zero [] = ok []
parse_hex zero (c ∷ s) = err einval
parse_hex (suc n) [] = err einval
parse_hex (suc n) (c ∷ []) = err einval
parse_hex (suc n) (c ∷ (d ∷ s)) = join_nibbles (hex_nibble c) (hex_nibble d) (parse_hex n s)

abbrev pub hex_digit : ℕ → ℕ
hex_digit n = if ltb n 10 then b'0' + n else b'a' + (n - 10)

-- `format_hex_bytes`.
unfoldable pub format_hex : List ℕ → List ℕ
format_hex [] = []
format_hex (b ∷ bs) = hex_digit (b / 16) ∷ (hex_digit (b % 16) ∷ format_hex bs)

unfoldable pub encode_float : List ℕ → ℕ → Result (List ℕ)
encode_float str buf_size = if ltb buf_size 4 then err enospc else parse_hex 4 str

unfoldable pub decode_float : List ℕ → ℕ → Result (List ℕ)
decode_float bs out_size =
    if not (length bs == 4)
    then err einval
    else if ltb out_size 9
    then err enospc
    else ok (format_hex bs)
