-- ===== src/Credential/Base64.antt =====
-- `base64.b64encode` and the lenient `base64.b64decode` of the standard library, over bytes.
use postfix_m365_relay.Base.{
  ℕ, zero, suc, ◌+◌, ◌-◌, ◌*◌, ◌/◌, ◌%◌, ◌<◌, ◌≡◌, refl, false, Option, none, some, List, [], ◌∷◌,
  arith, ltb, leb, ◌==◌, if◌then◌else◌, Text,
}
use postfix_m365_relay.Credential.Ascii.{within}

-- The character of a value below 64, and the value of a character.
encode_char : ℕ → ℕ
encode_char v =
    if ltb v 26
    then v + b'A'
    else if ltb v 52
    then v + 71
    else if ltb v 62
    then v - 4
    else if v == 62
    then b'+'
    else b'/'

decode_char : ℕ → Option ℕ
decode_char c =
    if within b'A' b'Z' c
    then some (c - b'A')
    else if within b'a' b'z' c
    then some (c - 71)
    else if within b'0' b'9' c
    then some (c + 4)
    else if c == b'+'
    then some 62
    else if c == b'/'
    then some 63
    else none

unfoldable pub b64encode : List ℕ → Text
unfolding encode_char
b64encode [] = []
b64encode (a ∷ []) = encode_char (a / 4) ∷ encode_char (a % 4 * 16) ∷ b'=' ∷ b'=' ∷ []
b64encode (a ∷ b ∷ []) =
    encode_char (a / 4) ∷ encode_char (a % 4 * 16 + b / 16) ∷ encode_char (b % 16 * 4) ∷ b'=' ∷ []
b64encode (a ∷ b ∷ c ∷ rest) =
    encode_char (a / 4)
    ∷ encode_char (a % 4 * 16 + b / 16)
    ∷ encode_char (b % 16 * 4 + c / 64)
    ∷ encode_char (c % 64)
    ∷ b64encode rest

abbrev push_byte : ℕ → Option (List ℕ) → Option (List ℕ)
push_byte b none = none
push_byte b (some bs) = some (b ∷ bs)

-- What the decoder does with the value of one character: `left` holds the bits not yet written.
abbrev put_sextet : ℕ → ℕ → ℕ → (ℕ → ℕ → Option (List ℕ)) → Option (List ℕ)
put_sextet zero left v next = next 1 v
put_sextet (suc zero) left v next = push_byte (left * 4 + v / 16) (next 2 (v % 16))
put_sextet (suc (suc zero)) left v next = push_byte (left * 16 + v / 4) (next 3 (v % 4))
put_sextet (suc (suc (suc q))) left v next = push_byte (left * 64 + v) (next 0 0)

-- `quad` is the place within a group of four, `pads` the padding seen. A character outside of the
-- alphabet is skipped; `none` is `binascii.Error`.
decode_from : Text → ℕ → ℕ → ℕ → Option (List ℕ)
unfolding decode_char
decode_from [] quad left pads = if quad == 0 then some [] else none
decode_from (c ∷ s) quad left pads =
    let skip = decode_from s quad left pads in
    let padded = decode_from s quad left (pads + 1) in
    let next = λ (q : ℕ) (l : ℕ). decode_from s q l 0 in
    if c == b'='
    then (if leb 2 quad then (if leb 4 (quad + (pads + 1)) then some [] else padded) else skip)
    else elim (decode_char c) [ none ↦ skip | some v ↦ put_sextet quad left v next ]

unfoldable pub b64decode : Text → Option (List ℕ)
unfolding decode_from
b64decode s = decode_from s 0 0 0

decode_char-encode_char : (v : ℕ) → v < 64 → decode_char (encode_char v) ≡ some v
unfolding decode_char encode_char
decode_char-encode_char v h = ground arith

encode_char-ne-pad : (v : ℕ) → v < 64 → (encode_char v == b'=') ≡ false
unfolding encode_char
encode_char-ne-pad v h = ground arith

-- One step of the decoder at the character of a value.
decode_from-char :
    (v : ℕ) (s : Text) (quad left pads : ℕ)
    → v < 64
    → decode_from (encode_char v ∷ s) quad left pads
      ≡ put_sextet quad left v (λ q l. decode_from s q l 0)
unfolding decode_from
decode_from-char v s quad left pads h =
    rw (encode_char-ne-pad v h) (rw (decode_char-encode_char v h) refl)

module _ (v w x y : ℕ) (hv : v < 64) (hw : w < 64) where
  decode_from-group :
      (s : Text) (left pads : ℕ)
      → x < 64
      → y < 64
      → decode_from (encode_char v ∷ encode_char w ∷ encode_char x ∷ encode_char y ∷ s) 0 left pads
        ≡ push_byte
            (v * 4 + w / 16)
            (push_byte (w % 16 * 16 + x / 4) (push_byte (x % 4 * 64 + y) (decode_from s 0 0 0)))
  decode_from-group s left pads hx hy = rw (decode_from-char v _ 0 left pads hv) (
      rw (decode_from-char w _ 1 v 0 hw)
        (rw (decode_from-char x _ 2 (w % 16) 0 hx) (rw (decode_from-char y s 3 (x % 4) 0 hy) refl)))

  decode_from-one_byte :
      decode_from (encode_char v ∷ encode_char w ∷ b'=' ∷ b'=' ∷ []) 0 0 0
      ≡ some ((v * 4 + w / 16) ∷ [])
  decode_from-one_byte =
      rw (decode_from-char v _ 0 0 0 hv)
        (rw (decode_from-char w _ 1 v 0 hw) (unfold decode_from in refl))

  decode_from-two_bytes :
      x < 64
      → decode_from (encode_char v ∷ encode_char w ∷ encode_char x ∷ b'=' ∷ []) 0 0 0
        ≡ some ((v * 4 + w / 16) ∷ (w % 16 * 16 + x / 4) ∷ [])
  decode_from-two_bytes hx = rw (decode_from-char v _ 0 0 0 hv) (
      rw (decode_from-char w _ 1 v 0 hw)
        (rw (decode_from-char x _ 2 (w % 16) 0 hx) (unfold decode_from in refl)))

-- Bytes.
abbrev pub AllBytes : List ℕ → Type 0
AllBytes [] = Unit {0}
AllBytes (b ∷ bs) = (b < 256) × AllBytes bs

-- The three bytes of a group, put together from its four values.
module _ (a b c : ℕ) (hb : b < 256) (hc : c < 256) where
  first_byte : a / 4 * 4 + (a % 4 * 16 + b / 16) / 16 ≡ a
  first_byte = omega arith

  second_byte : (a % 4 * 16 + b / 16) % 16 * 16 + (b % 16 * 4 + c / 64) / 4 ≡ b
  second_byte = omega arith

  third_byte : (b % 16 * 4 + c / 64) % 4 * 64 + c % 64 ≡ c
  third_byte = omega arith

decode_from-encode : (bs : List ℕ) → AllBytes bs → decode_from (b64encode bs) 0 0 0 ≡ some bs
unfolding b64encode
decode_from-encode [] h = unfold decode_from in refl
decode_from-encode (a ∷ []) h =
    rw (decode_from-one_byte (a / 4) (a % 4 * 16) 0 0 (omega arith) (omega arith)) (ground arith)
decode_from-encode (a ∷ b ∷ []) h =
    rw
      (decode_from-two_bytes (a / 4) (a % 4 * 16 + b / 16) (b % 16 * 4) 0 (omega arith)
        (omega arith) (omega arith))
      (ground arith)
decode_from-encode (a ∷ b ∷ c ∷ rest) (ha, (hb, (hc, hr))) =
    rw
      (decode_from-group (a / 4) (a % 4 * 16 + b / 16) (b % 16 * 4 + c / 64) (c % 64) (omega arith)
        (omega arith) (b64encode rest) 0 0 (omega arith) (omega arith))
      (rw (decode_from-encode rest hr)
        (cc (first_byte a b c hb hc, second_byte a b c hb hc, third_byte a b c hb hc)))

-- Decoding undoes encoding.
pub b64decode-b64encode : (bs : List ℕ) → AllBytes bs → b64decode (b64encode bs) ≡ some bs
unfolding b64decode
b64decode-b64encode bs h = decode_from-encode bs h
