-- ===== src/WakeOnLan/Laws.antt =====
-- A normalized address stays as it is when it is normalized again, and packets have their length.
use Prim.Native.Char.{Char, code}
use Prim.Native.String.{[], ◌∷◌}
use ha_unifi_drive.Prelude.{
  String, ◌≡◌, refl, true, not, Option, none, some, [], ◌∷◌, length, ◌==◌, strip, lower, lower_char,
  keep_chars,
}
use ha_unifi_drive.WakeOnLan.Digits.{
  fits, all_hex, keep-all_hex, lower_char-fits, lower_char-again, hex-fits, not_space-fits,
  not_colon-fits, strip-stays, colon-not_hex, colon-lower, head_hex, tail_hex,
}
use ha_unifi_drive.WakeOnLan.{
  is_hex, colon, paired, in_lower, normalize_mac_address, bytes_from_hex, times, magic_packet,
}

abbrev word_of : (a b c d e f g h i j k l : Char) → String
word_of a b c d e f g h i j k l =
    a ∷ b ∷ colon ∷ c ∷ d ∷ colon ∷ e ∷ f ∷ colon ∷ g ∷ h ∷ colon ∷ i ∷ j ∷ colon ∷ k ∷ l ∷ []

module _ (a b c d e f g h i j k l : Char) (ha : fits (code a) ≡ true) (hb : fits (code b) ≡ true)
    (hc : fits (code c) ≡ true) (hd : fits (code d) ≡ true) (he : fits (code e) ≡ true)
    (hf : fits (code f) ≡ true) (hg : fits (code g) ≡ true) (hh : fits (code h) ≡ true)
    (hi : fits (code i) ≡ true) (hj : fits (code j) ≡ true) (hk : fits (code k) ≡ true)
    (hl : fits (code l) ≡ true) where
  abbrev word : String
  word = word_of a b c d e f g h i j k l

  keep-word : keep_chars is_hex word ≡ a ∷ b ∷ c ∷ d ∷ e ∷ f ∷ g ∷ h ∷ i ∷ j ∷ k ∷ l ∷ []
  unfolding keep_chars
  keep-word =
      rw
        (
          colon-not_hex,
          hex-fits (code a) ha,
          hex-fits (code b) hb,
          hex-fits (code c) hc,
          hex-fits (code d) hd,
          hex-fits (code e) he,
          hex-fits (code f) hf,
          hex-fits (code g) hg,
          hex-fits (code h) hh,
          hex-fits (code i) hi,
          hex-fits (code j) hj,
          hex-fits (code k) hk,
          hex-fits (code l) hl,
        )
        refl

  lower-word : lower word ≡ word
  unfolding lower
  lower-word =
      rw
        (
          colon-lower,
          lower_char-again a ha,
          lower_char-again b hb,
          lower_char-again c hc,
          lower_char-again d hd,
          lower_char-again e he,
          lower_char-again f hf,
          lower_char-again g hg,
          lower_char-again h hh,
          lower_char-again i hi,
          lower_char-again j hj,
          lower_char-again k hk,
          lower_char-again l hl,
        )
        refl

  strip-word : strip word ≡ word
  strip-word = strip-stays a _ (not_space-fits (code a) ha) (rw (not_space-fits (code l) hl) refl)

  normal-again : normalize_mac_address word ≡ some word
  unfolding normalize_mac_address
  normal-again = rw (strip-word, keep-word, lower-word) refl

  digits-word :
      keep_chars (λ c. not (c == b':')) word ≡ a ∷ b ∷ c ∷ d ∷ e ∷ f ∷ g ∷ h ∷ i ∷ j ∷ k ∷ l ∷ []
  unfolding keep_chars
  digits-word =
      rw
        (
          not_colon-fits (code a) ha,
          not_colon-fits (code b) hb,
          not_colon-fits (code c) hc,
          not_colon-fits (code d) hd,
          not_colon-fits (code e) he,
          not_colon-fits (code f) hf,
          not_colon-fits (code g) hg,
          not_colon-fits (code h) hh,
          not_colon-fits (code i) hi,
          not_colon-fits (code j) hj,
          not_colon-fits (code k) hk,
          not_colon-fits (code l) hl,
        )
        refl

  magic_packet-word : length (magic_packet word) ≡ 102
  unfolding magic_packet bytes_from_hex times
  magic_packet-word = rw digits-word refl

-- A normalized address: normalizing it again gives it back, its packet has 102 bytes, and there is
-- no whitespace around it.
abbrev pub IsNormal : String → Type 0
IsNormal n = (normalize_mac_address n ≡ some n) × (length (magic_packet n) ≡ 102) × (strip n ≡ n)

abbrev IsNormalOrNone : Option String → Type 0
IsNormalOrNone none = Unit
IsNormalOrNone (some n) = IsNormal n

lowered-IsNormal :
    (a b c d e f g h i j k l : Char)
    → all_hex (a ∷ b ∷ c ∷ d ∷ e ∷ f ∷ g ∷ h ∷ i ∷ j ∷ k ∷ l ∷ []) ≡ true
    → IsNormal (lower (word_of a b c d e f g h i j k l))
unfolding lower
lowered-IsNormal a b c d e f g h i j k l hex =
    let ha = lower_char-fits a (head_hex a (b ∷ c ∷ d ∷ e ∷ f ∷ g ∷ h ∷ i ∷ j ∷ k ∷ l ∷ []) hex) in
    let ra = tail_hex a (b ∷ c ∷ d ∷ e ∷ f ∷ g ∷ h ∷ i ∷ j ∷ k ∷ l ∷ []) hex in
    let hb = lower_char-fits b (head_hex b (c ∷ d ∷ e ∷ f ∷ g ∷ h ∷ i ∷ j ∷ k ∷ l ∷ []) ra) in
    let rb = tail_hex b (c ∷ d ∷ e ∷ f ∷ g ∷ h ∷ i ∷ j ∷ k ∷ l ∷ []) ra in
    let hc = lower_char-fits c (head_hex c (d ∷ e ∷ f ∷ g ∷ h ∷ i ∷ j ∷ k ∷ l ∷ []) rb) in
    let rc = tail_hex c (d ∷ e ∷ f ∷ g ∷ h ∷ i ∷ j ∷ k ∷ l ∷ []) rb in
    let hd = lower_char-fits d (head_hex d (e ∷ f ∷ g ∷ h ∷ i ∷ j ∷ k ∷ l ∷ []) rc) in
    let rd = tail_hex d (e ∷ f ∷ g ∷ h ∷ i ∷ j ∷ k ∷ l ∷ []) rc in
    let he = lower_char-fits e (head_hex e (f ∷ g ∷ h ∷ i ∷ j ∷ k ∷ l ∷ []) rd) in
    let re = tail_hex e (f ∷ g ∷ h ∷ i ∷ j ∷ k ∷ l ∷ []) rd in
    let hf = lower_char-fits f (head_hex f (g ∷ h ∷ i ∷ j ∷ k ∷ l ∷ []) re) in
    let rf = tail_hex f (g ∷ h ∷ i ∷ j ∷ k ∷ l ∷ []) re in
    let hg = lower_char-fits g (head_hex g (h ∷ i ∷ j ∷ k ∷ l ∷ []) rf) in
    let rg = tail_hex g (h ∷ i ∷ j ∷ k ∷ l ∷ []) rf in
    let hh = lower_char-fits h (head_hex h (i ∷ j ∷ k ∷ l ∷ []) rg) in
    let rh = tail_hex h (i ∷ j ∷ k ∷ l ∷ []) rg in
    let hi = lower_char-fits i (head_hex i (j ∷ k ∷ l ∷ []) rh) in
    let ri = tail_hex i (j ∷ k ∷ l ∷ []) rh in
    let hj = lower_char-fits j (head_hex j (k ∷ l ∷ []) ri) in
    let rj = tail_hex j (k ∷ l ∷ []) ri in
    let hk = lower_char-fits k (head_hex k (l ∷ []) rj) in
    let rk = tail_hex k (l ∷ []) rj in
    let hl = lower_char-fits l (head_hex l [] rk) in
    rw colon-lower (
      normal-again (lower_char a) (lower_char b) (lower_char c) (lower_char d) (lower_char e)
          (lower_char f) (lower_char g) (lower_char h) (lower_char i) (lower_char j) (lower_char k)
          (lower_char l) ha hb hc hd he hf hg hh hi hj hk hl,
      magic_packet-word (lower_char a) (lower_char b) (lower_char c) (lower_char d) (lower_char e)
          (lower_char f) (lower_char g) (lower_char h) (lower_char i) (lower_char j) (lower_char k)
          (lower_char l) ha hb hc hd he hf hg hh hi hj hk hl,
      strip-word (lower_char a) (lower_char b) (lower_char c) (lower_char d) (lower_char e)
          (lower_char f) (lower_char g) (lower_char h) (lower_char i) (lower_char j) (lower_char k)
          (lower_char l) ha hb hc hd he hf hg hh hi hj hk hl,
    )

lower-paired : (s : String) → all_hex s ≡ true → IsNormalOrNone (in_lower (paired s))
unfolding lower
lower-paired [] hex = tt
lower-paired (a ∷ []) hex = tt
lower-paired (a ∷ b ∷ []) hex = tt
lower-paired (a ∷ b ∷ c ∷ []) hex = tt
lower-paired (a ∷ b ∷ c ∷ d ∷ []) hex = tt
lower-paired (a ∷ b ∷ c ∷ d ∷ e ∷ []) hex = tt
lower-paired (a ∷ b ∷ c ∷ d ∷ e ∷ f ∷ []) hex = tt
lower-paired (a ∷ b ∷ c ∷ d ∷ e ∷ f ∷ g ∷ []) hex = tt
lower-paired (a ∷ b ∷ c ∷ d ∷ e ∷ f ∷ g ∷ h ∷ []) hex = tt
lower-paired (a ∷ b ∷ c ∷ d ∷ e ∷ f ∷ g ∷ h ∷ i ∷ []) hex = tt
lower-paired (a ∷ b ∷ c ∷ d ∷ e ∷ f ∷ g ∷ h ∷ i ∷ j ∷ []) hex = tt
lower-paired (a ∷ b ∷ c ∷ d ∷ e ∷ f ∷ g ∷ h ∷ i ∷ j ∷ k ∷ []) hex = tt
lower-paired (a ∷ b ∷ c ∷ d ∷ e ∷ f ∷ g ∷ h ∷ i ∷ j ∷ k ∷ l ∷ []) hex =
    lowered-IsNormal a b c d e f g h i j k l hex
lower-paired (a ∷ b ∷ c ∷ d ∷ e ∷ f ∷ g ∷ h ∷ i ∷ j ∷ k ∷ l ∷ m ∷ s) hex = tt

-- Whatever text is given, a MAC address that is normalized stays as it is when it is normalized
-- again, its magic packet has 102 bytes, and it has no whitespace at its ends.
pub normalize_mac_address-IsNormal :
    (mac n : String) → normalize_mac_address mac ≡ some n → IsNormal n
unfolding normalize_mac_address
normalize_mac_address-IsNormal mac n h =
    rw h at (lower-paired (keep_chars is_hex (strip mac)) (keep-all_hex (strip mac)))
