-- ===== src/Types/Tests.antt =====
-- The encodings on some values. The number -5 is the word 2 ^ 64 - 5.
use kdbs.Common.{ℕ, ◌≡◌, refl, List, inl, inr, arith, Result, ok, if◌then◌else◌}
use kdbs.Common.Fields.{le_bytes}
use kdbs.Types.{compare_int, below, less, more, same}
use kdbs.Types.Integers.{compare_int-encode}

abbrev minus_five : ℕ
minus_five = 18446744073709551611

abbrev always : List ℕ → Result ℕ
always s = ok minus_five

compare_int-encode_example :
    compare_int 2 (le_bytes 2 minus_five) (le_bytes 2 3)
    ≡ (if below 3 minus_five then more else if below minus_five 3 then less else same)
compare_int-encode_example =
    compare_int-encode 2 minus_five 3 (inr (inl refl)) (omega arith) (omega arith) refl refl
