-- ===== src/PublicFunction/Crc.antt =====
-- `byte_int`, `get_bcc_data`, `GenerateCRC32` and `DecTo2Hex` of public_function.cpp.
use Prim.Native.Nat.{bit_and, bit_or, bit_xor}
use jia_tuan_server.Common.{
  ℕ, zero, suc, ◌*◌, ◌/◌, ◌%◌, ◌^◌, List, [], ◌∷◌, ◌==◌, if◌then◌else◌, Bytes,
}

-- The loop of `get_bcc_data`, over the bytes that are left.
unfoldable pub bcc_loop : ℕ → Bytes → ℕ
bcc_loop bcc [] = bcc
bcc_loop bcc (c ∷ rest) = bcc_loop (bit_xor bcc c) rest

unfoldable pub get_bcc_data : Bytes → ℕ
unfolding bcc_loop
get_bcc_data text = bcc_loop 0 text

-- `DecTo2Hex` of a number that is not negative.
unfoldable pub dec_to_2hex : ℕ → ℕ × ℕ
dec_to_2hex dec = ((dec / 2 ^ 8) % 2 ^ 8, dec % 2 ^ 8)

-- Four bytes of the buffer.
pub record Word : Type 0 where
  pub byte0 : ℕ
  pub byte1 : ℕ
  pub byte2 : ℕ
  pub byte3 : ℕ

abbrev pub masked : ℕ → ℕ → ℕ → ℕ
masked byte places mask = bit_and (byte * 2 ^ places) mask

unfoldable pub byte_int : Word → ℕ
byte_int w =
    bit_or
      (bit_or (bit_or (bit_and w.byte3 0xff) (masked w.byte2 8 0xff00))
        (masked w.byte1 16 0xff0000))
      (masked w.byte0 24 0xff000000)

-- The loop over the bits of a word, with `left` rounds to go.
unfoldable pub crc_bits : (left crc temp : ℕ) → ℕ
crc_bits zero crc temp = crc
crc_bits (suc left) crc temp =
    let shifted = (crc * 2) % 2 ^ 32 in
    let flips = bit_and (bit_xor crc temp) 0x80000000 == 0 in
    crc_bits left (if flips then shifted else bit_xor 0x04c11db7 shifted) ((temp * 2) % 2 ^ 32)

abbrev pub without_cd : ℕ → ℕ
without_cd byte = if byte == 0xcd then 0 else byte

-- What is done to the last word.
abbrev pub clean : Word → Word
clean w = record {
  byte0 = without_cd w.byte0;
  byte1 = without_cd w.byte1;
  byte2 = without_cd w.byte2;
  byte3 = without_cd w.byte3;
}

-- The loop over the words: the checksum, and the buffer as it is left.
unfoldable pub crc_words : ℕ → List Word → ℕ × List Word
crc_words crc [] = (crc, [])
crc_words crc (w ∷ []) = (crc_bits 32 crc (byte_int (clean w)), clean w ∷ [])
crc_words crc (w ∷ v ∷ rest) =
    let (total, left) = crc_words (crc_bits 32 crc (byte_int w)) (v ∷ rest) in (total, w ∷ left)

unfoldable pub generate_crc32 : List Word → ℕ × List Word
generate_crc32 words = crc_words 0xffffffff words
