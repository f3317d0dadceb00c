-- ===== src/Text/Numbers.antt =====
-- Python's `str`, `hex` digits and `upper`, for numbers and texts that the generators print.
use chipchamp.Prelude.{
  ℕ, zero, suc, ◌+◌, ◌-◌, ◌/◌, ◌%◌, ◌&&◌, [], ◌∷◌, ◌++◌, map, leb, ltb, length, replicate,
  if◌then◌else◌,
}
use chipchamp.Prelude.Int.{ℤ, pos, negsuc}
use chipchamp.Text.{Text}

abbrev digit : ℕ → ℕ
digit d = if ltb d 10 then b'0' + d else b'a' + (d - 10)

-- the digits before those in the last argument; a round divides, so `n + 1` rounds are enough
digits_from : ℕ → ℕ → ℕ → Text → Text
digits_from zero base n later = later
digits_from (suc f) base n later =
    let more = digits_from f base (n / base) (digit (n % base) ∷ later) in
    if ltb n base then digit n ∷ later else more

unfoldable pub decimal : ℕ → Text
unfolding digits_from
decimal n = digits_from (suc n) 10 n []

unfoldable pub hex : ℕ → Text
unfolding digits_from
hex n = digits_from (suc n) 16 n []

-- with a sign, if it is below 0
unfoldable pub decimal_ℤ : ℤ → Text
unfolding decimal
decimal_ℤ (pos n) = decimal n
decimal_ℤ (negsuc n) = b'-' ∷ decimal (suc n)

unfoldable pub hex_ℤ : ℤ → Text
unfolding hex
hex_ℤ (pos n) = hex n
hex_ℤ (negsuc n) = b'-' ∷ hex (suc n)

-- `:03x`, of a number that is not below 0
unfoldable pub hex_three : ℤ → Text
unfolding hex_ℤ
hex_three z = replicate (3 - length (hex_ℤ z)) b'0' ++ hex_ℤ z

abbrev upper_code : ℕ → ℕ
upper_code c = if leb b'a' c && leb c b'z' then c - 32 else c

unfoldable pub upper : Text → Text
upper = map upper_code
