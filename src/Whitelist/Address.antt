-- ===== src/Whitelist/Address.antt =====
-- `ValidateEVMAddress` of pkg/auth/evm.go, with the functions of the standard library that it calls.
use Prim.Native.Char.{Char, code}
use Prim.Native.String.{String, [], ◌∷◌, len}
use canton_middleware.Prelude.{Bool, true, false, leb, ◌==◌, ◌&&◌, ◌||◌}

abbrev pub is_hex_digit : Char → Bool
is_hex_digit c =
    (leb b'0' (code c) && leb (code c) b'9')
    || (leb b'a' (code c) && leb (code c) b'f')
    || (leb b'A' (code c) && leb (code c) b'F')

-- Whether `hex.DecodeString` takes a text of an even length.
unfoldable pub is_hex : String → Bool
is_hex [] = true
is_hex (c ∷ s) = let rest = is_hex s in is_hex_digit c && rest

-- `strings.HasPrefix(address, "0x")`, and that the rest is hexadecimal.
abbrev pub is_prefixed_hex : String → Bool
is_prefixed_hex [] = false
is_prefixed_hex (c ∷ []) = false
is_prefixed_hex (c ∷ d ∷ s) = code c == b'0' && code d == b'x' && is_hex s

-- With 42 bytes the part behind the prefix has an even length.
unfoldable pub validate_evm_address : String → Bool
validate_evm_address address = len address == 42 && is_prefixed_hex address
