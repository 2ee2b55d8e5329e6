-- ===== src/Task/Uuid.antt =====
-- The UUID texts of pkg/platform/database/taskstore/postgres.go: `parseUUID` and `formatUUID`. A
-- UUID is its 16 bytes.
use backend_infrastructure_g.Base.{
  ℕ, ◌+◌, ◌-◌, ◌*◌, ◌/◌, ◌%◌, ◌&&◌, Option, none, some, List, [], ◌∷◌, ◌++◌, Text, codes, length,
  take, drop, leb, ltb, ◌==◌, if◌then◌else◌,
}

-- `strings.ReplaceAll(value, "-", "")`.
unfoldable pub without_dashes : Text → Text
without_dashes [] = []
without_dashes (c ∷ s) = let rest = without_dashes s in if c == b'-' then rest else c ∷ rest

-- One digit of `hex.DecodeString`, which takes both cases.
unfoldable pub hex_value : ℕ → Option ℕ
hex_value c =
    if leb b'0' c && leb c b'9'
    then some (c - b'0')
    else (if leb b'a' c && leb c b'f'
        then some (c - b'a' + 10)
        else (if leb b'A' c && leb c b'F' then some (c - b'A' + 10) else none))

abbrev byte_of : Option ℕ → Option ℕ → Option (List ℕ) → Option (List ℕ)
byte_of (some hi) (some lo) (some rest) = some ((hi * 16 + lo) ∷ rest)
byte_of _ _ _ = none

-- `hex.DecodeString`; an odd length is an error.
unfoldable pub decode_hex : Text → Option (List ℕ)
unfolding hex_value
decode_hex [] = some []
decode_hex (a ∷ []) = none
decode_hex (a ∷ b ∷ s) = byte_of (hex_value a) (hex_value b) (decode_hex s)

abbrev of_length : ℕ → Option (List ℕ) → Option (List ℕ)
of_length n none = none
of_length n (some bytes) = if length bytes == n then some bytes else none

unfoldable pub parse_uuid : Text → Option (List ℕ)
unfolding without_dashes decode_hex
parse_uuid value = of_length 16 (decode_hex (without_dashes value))

unfoldable pub hex_digit : ℕ → ℕ
hex_digit n = if ltb n 10 then n + b'0' else n - 10 + b'a'

-- `hex.EncodeToString`.
unfoldable pub encode_hex : List ℕ → Text
unfolding hex_digit
encode_hex [] = []
encode_hex (b ∷ bytes) = hex_digit (b / 16) ∷ hex_digit (b % 16) ∷ encode_hex bytes

abbrev slice : ℕ → ℕ → Text → Text
slice from to s = take (to - from) (drop from s)

-- `formatUUID`; an invalid (NULL) value is the empty text.
unfoldable pub format_uuid : Option (List ℕ) → Text
unfolding encode_hex
format_uuid none = []
format_uuid (some bytes) =
    let hex = encode_hex bytes in
    slice 0 8 hex
    ++ (codes "-"
        ++ (slice 8 12 hex
            ++ (codes "-"
                ++ (slice 12 16 hex
                    ++ (codes "-" ++ (slice 16 20 hex ++ (codes "-" ++ slice 20 32 hex)))))))
