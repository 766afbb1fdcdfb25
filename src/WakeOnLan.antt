-- ===== src/WakeOnLan.antt =====
-- wake_on_lan.py: MAC addresses and the magic packet. A raised `ValueError` is `none`.
pub mod Digits
pub mod Laws
use Prim.Native.Char.{Char, code}
use Prim.Native.String.{[], ◌∷◌}
use ha_unifi_drive.Prelude.{
  ℕ, zero, suc, ◌+◌, ◌-◌, ◌*◌, String, Bool, true, false, not, ◌&&◌, ◌||◌, Option, none, some, List,
  [], ◌∷◌, ◌++◌, ltb, leb, ◌==◌, text_eq, strip, lower, keep_chars, ◌⧺◌, split, natural, is_digit,
  count_chars, length, all, if◌then◌else◌,
}

unfoldable pub is_hex : ℕ → Bool
is_hex c = (leb b'0' c && leb c b'9') || (leb b'a' c && leb c b'f') || (leb b'A' c && leb c b'F')

abbrev pub colon : Char
colon = ":"

-- The twelve characters in pairs with colons between: `none` for another number of them.
abbrev pub paired : String → Option String
paired (a ∷ b ∷ c ∷ d ∷ e ∷ f ∷ g ∷ h ∷ i ∷ j ∷ k ∷ l ∷ []) =
    some
      (a ∷ b ∷ colon ∷ c ∷ d ∷ colon ∷ e ∷ f ∷ colon ∷ g ∷ h ∷ colon ∷ i ∷ j ∷ colon ∷ k ∷ l ∷ [])
paired _ = none

abbrev pub in_lower : Option String → Option String
in_lower none = none
in_lower (some s) = some (lower s)

-- `normalize_mac_address`
unfoldable pub normalize_mac_address : String → Option String
normalize_mac_address mac = in_lower (paired (keep_chars is_hex (strip mac)))

-- `mask_mac_address`, on a text.
abbrev masked : Option String → String
masked (some (_ ∷ _ ∷ _ ∷ _ ∷ _ ∷ _ ∷ _ ∷ _ ∷ _ ∷ _ ∷ _ ∷ _ ∷ i ∷ j ∷ _ ∷ k ∷ l ∷ [])) =
    "**:**:**:**:" ⧺ (i ∷ j ∷ colon ∷ k ∷ l ∷ [])
masked _ = "REDACTED"

unfoldable pub mask_mac_address : Option String → Option String
unfolding normalize_mac_address
mask_mac_address none = none
mask_mac_address (some mac) =
    if text_eq (strip mac) "" then none else some (masked (normalize_mac_address (strip mac)))

-- The value of a hexadecimal digit, and `bytes.fromhex`, on digits in lower case.
abbrev pub hex_value : ℕ → ℕ
hex_value c = if leb c b'9' then c - b'0' else 10 + (c - b'a')

unfoldable pub bytes_from_hex : String → List ℕ
bytes_from_hex (a ∷ b ∷ s) = (16 * hex_value (code a) + hex_value (code b)) ∷ bytes_from_hex s
bytes_from_hex _ = []

unfoldable pub times {ℓ} : {A : Type ℓ} → ℕ → List A → List A
times zero xs = []
times (suc n) xs = xs ++ times n xs

-- The magic packet: six bytes 255, and the address sixteen times.
unfoldable pub magic_packet : String → List ℕ
unfolding times bytes_from_hex keep_chars
magic_packet mac =
    times 6 (255 ∷ []) ++ times 16 (bytes_from_hex (keep_chars (λ c. not (c == b':')) mac))

-- What `IPv4Address` accepts of a text: four octets, without leading zeros.
abbrev all_digits : String → Bool
all_digits [] = true
all_digits (c ∷ s) = is_digit (code c) && all_digits s

abbrev leading_zero : String → Bool
leading_zero (c ∷ d ∷ s) = code c == b'0'
leading_zero _ = false

abbrev at_most : Option ℕ → ℕ → Bool
at_most none bound = false
at_most (some n) bound = leb n bound

abbrev is_octet : String → Bool
is_octet part =
    all_digits part
    && leb (count_chars part) 3
    && not (leading_zero part)
    && at_most (natural part) 255

unfoldable pub is_ipv4 : String → Bool
unfolding split natural
is_ipv4 address = let parts = split b'.' address in length parts == 4 && all is_octet parts

-- `async_send_magic_packet` up to the socket: what is sent, one datagram after the other, if the
-- address, the port and the number of packets are valid.
unfoldable pub datagrams : String → String → ℕ → ℕ → Option (List (List ℕ))
unfolding times is_ipv4
datagrams mac address port packets = elim (normalize_mac_address mac) [
  | none ↦ none
  | some normalized ↦
      if is_ipv4 (strip address) && leb 1 port && leb port 65535 && leb 1 packets
      then some (times packets (magic_packet normalized ∷ []))
      else none
]
