-- ===== src/Channel/Data.antt =====
-- What a data channel carries: `byteLength`, and the arguments of `send`.
use webrtc_node.Base.{
  ℕ, ◌+◌, Str, List, [], ◌∷◌, Bool, true, false, ◌&&◌, ltb, leb, if◌then◌else◌, length,
}

-- `opened` is the state "open".
pub data ReadyState : Type 0 where
  connecting opened closing closed : ReadyState

abbrev pub is_closed : ReadyState → Bool
is_closed closed = true
is_closed _ = false

abbrev is_high : ℕ → Bool
is_high c = leb 0xd800 c && leb c 0xdbff

abbrev is_low : ℕ → Bool
is_low c = leb 0xdc00 c && leb c 0xdfff

abbrev utf8_width : ℕ → ℕ
utf8_width c = if ltb c 0x80 then 1 else if ltb c 0x800 then 2 else 3

-- A surrogate pair takes four bytes: three are counted at its first half and one at its second. A
-- lone surrogate becomes the replacement character, which takes three.
unfoldable pub utf8_length : Bool → Str → ℕ
utf8_length after_high [] = 0
utf8_length after_high (c ∷ s) =
    (if after_high && is_low c then 1 else utf8_width c) + utf8_length (is_high c) s

-- `Buffer.byteLength(value, "utf8")`.
unfoldable pub byte_length : Str → ℕ
unfolding utf8_length
byte_length s = utf8_length false s

-- A string, a Blob, an ArrayBuffer or a view of one, or another value.
pub data Payload : Type 0 where
  text : Str → Payload
  blob bytes : List ℕ → Payload
  other : Payload

unfoldable pub size : Payload → ℕ
unfolding byte_length
size (text s) = byte_length s
size (blob bs) = length bs
size (bytes bs) = length bs
size other = 0

abbrev pub total : List Payload → ℕ
total [] = 0
total (p ∷ ps) = size p + total ps
