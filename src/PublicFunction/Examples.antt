-- ===== src/PublicFunction/Examples.antt =====
-- Runs of the functions of public_function.cpp on concrete bytes.
use jia_tuan_server.Common.{ℕ, ◌/◌, ◌+◌, ◌≡◌, refl, none, some, [], ◌∷◌, arith}
use jia_tuan_server.PublicFunction.Bcc.{get_bcc_data-detects}
use jia_tuan_server.PublicFunction.Bcd.{
  tohex, digits_byte, ascii_str_to_bcd, Packed, ascii_str_to_bcd-Packed, ascii_str_to_bcd_diverges,
}
use jia_tuan_server.PublicFunction.Crc.{
  Word, byte_int, crc_bits, crc_words, generate_crc32, bcc_loop, get_bcc_data, dec_to_2hex,
}

abbrev digits : ℕ → ℕ
digits p = b'7'

abbrev zeros : ℕ → ℕ
zeros i = 0

seventy_seven : digits_byte b'7' b'7' ≡ 0x77
unfolding digits_byte tohex
seventy_seven = refl

abbrev word : ℕ → Word
word last = record { byte0 = 0; byte1 = 0; byte2 = 0; byte3 = last }

crc_of_zeros : (generate_crc32 (word 0xcd ∷ [])).0 ≡ 0xc704dd7b
unfolding generate_crc32 crc_words crc_bits byte_int
crc_of_zeros = refl

bcc_of_three : get_bcc_data (1 ∷ 2 ∷ 4 ∷ []) ≡ 7
unfolding get_bcc_data bcc_loop
bcc_of_three = refl

two_bytes : dec_to_2hex 0x12345 ≡ (0x23, 0x45)
unfolding dec_to_2hex
two_bytes = refl

ascii_str_to_bcd-Packed_example :
    (after : ℕ → ℕ) × (ascii_str_to_bcd 3 zeros digits 3 ≡ some after)
    × Packed 0 ((3 + 1) / 2) digits zeros after
ascii_str_to_bcd-Packed_example =
    ascii_str_to_bcd-Packed 3 3 digits zeros (omega arith) (omega arith)

ascii_str_to_bcd_diverges_example : ascii_str_to_bcd 1000 zeros digits 255 ≡ none
ascii_str_to_bcd_diverges_example = ascii_str_to_bcd_diverges 1000 255 zeros digits (omega arith)

get_bcc_data-detects_example : ◌≡◌ {A = ℕ} 2 2
get_bcc_data-detects_example =
    get_bcc_data-detects (1 ∷ []) (4 ∷ []) 2 2 (omega arith, tt) (omega arith, tt) (omega arith)
      (omega arith) refl
