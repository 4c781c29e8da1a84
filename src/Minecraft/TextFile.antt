-- ===== src/Minecraft/TextFile.antt =====
-- src/minecraft.rs: the text of a launcher file or a log, in one of four encodings. What the system
-- gives of the file and the decoder of Windows-1251 are arguments.
pub mod Read
use p2p_core.Base.{
  ℕ, Bool, List, Option, [], drop, false, if◌then◌else◌, length, ltb, none, some, true, ◌*◌, ◌-◌,
  ◌∷◌,
}
use p2p_core.Base.Words.{Bytes, from_be, from_le}
use p2p_core.Text.Chars.{Chars}
use p2p_core.Text.Encodings.{chars_of, from_utf16_lossy}
use p2p_core.Text.Search.{starts_with}
use p2p_core.Text.Utf8.{from_utf8_lossy, utf8_from, Utf8}

-- What is read of the file: all of a JSON file, and the last 32 KB of another one.
abbrev pub read_limit : ℕ
read_limit = 32 * 1024

unfoldable pub read_part : Bool → Bytes → Bytes
read_part is_json bytes =
    if is_json
    then bytes
    else if ltb read_limit (length bytes)
    then drop (length bytes - read_limit) bytes
    else bytes

-- `chunks_exact(2)`, each read in the order of the bytes.
unfoldable pub units_of : (Bytes → ℕ) → Bytes → List ℕ
units_of from_bytes [] = []
units_of from_bytes (a ∷ []) = []
units_of from_bytes (a ∷ b ∷ bs) = from_bytes (a ∷ b ∷ []) ∷ units_of from_bytes bs

abbrev is_empty : Bytes → Bool
is_empty [] = true
is_empty (b ∷ bs) = false

module _ (windows_1251 : Bytes → Chars) where
  unfoldable pub decode_text : Bytes → Chars
  unfolding units_of
  decode_text bytes =
      if is_empty bytes
      then []
      else if starts_with (0xef ∷ 0xbb ∷ 0xbf ∷ []) bytes
      then chars_of (from_utf8_lossy (drop 3 bytes))
      else if starts_with (0xff ∷ 0xfe ∷ []) bytes
      then from_utf16_lossy (units_of from_le (drop 2 bytes))
      else if starts_with (0xfe ∷ 0xff ∷ []) bytes
      then from_utf16_lossy (units_of from_be (drop 2 bytes))
      else if utf8_from Utf8.between bytes
      then chars_of bytes
      else windows_1251 bytes

  -- `none` is a file that cannot be opened, measured or read.
  unfoldable pub read_text_lossy : Bool → Option Bytes → Option Chars
  unfolding read_part decode_text
  read_text_lossy is_json none = none
  read_text_lossy is_json (some file) = some (decode_text (read_part is_json file))
