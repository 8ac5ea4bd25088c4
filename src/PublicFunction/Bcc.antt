-- ===== src/PublicFunction/Bcc.antt =====
-- What `get_bcc_data` of public_function.cpp detects.
use Prim.Native.Nat.{bit_xor}
use jia_tuan_server.Common.{
  ℕ, ◌≡◌, ◌<◌, sym, ap, ◌∙◌, refl, Bool, true, ◌&&◌, [], ◌∷◌, ◌++◌, ◌==◌, ==_iff, ltb, arith, Bytes,
  holds_to, holds_to_lem,
}
use jia_tuan_server.PublicFunction.Crc.{bcc_loop, get_bcc_data}

-- The sum of two bytes is a byte, and gives each back with the other.
abbrev undoes : ℕ → ℕ → Bool
undoes a c =
    ltb (bit_xor a c) 256 && ((bit_xor (bit_xor a c) c == a) && (bit_xor a (bit_xor a c) == c))

undo_table : holds_to (λ a. holds_to (λ c. undoes a c) 255) 255 ≡ true
unfolding holds_to
undo_table = refl

undo_lem :
    (a c : ℕ)
    → a < 256
    → c < 256
    → (bit_xor a c < 256) × (bit_xor (bit_xor a c) c ≡ a) × (bit_xor a (bit_xor a c) ≡ c)
undo_lem a c small_a small_c =
    let row = holds_to_lem _ 255 a undo_table (omega arith) in
    let found : undoes a c ≡ true = holds_to_lem _ 255 c row (omega arith) in
    ground (arith, ==_iff (bit_xor (bit_xor a c) c) a, ==_iff (bit_xor a (bit_xor a c)) c)

abbrev pub AllBytes : Bytes → Type 0
AllBytes [] = Unit
AllBytes (c ∷ cs) = (c < 256) × AllBytes cs

-- The rest of a text keeps apart what was computed before it.
bcc_loop-injective :
    (text : Bytes) (a b : ℕ)
    → AllBytes text
    → a < 256
    → b < 256
    → bcc_loop a text ≡ bcc_loop b text
    → a ≡ b
unfolding bcc_loop
bcc_loop-injective [] a b bytes small_a small_b same = same
bcc_loop-injective (c ∷ rest) a b (small, bytes) small_a small_b same =
    let (fits_a, back_a, _) = undo_lem a c small_a small in
    let (fits_b, back_b, _) = undo_lem b c small_b small in
    let sums = bcc_loop-injective rest (bit_xor a c) (bit_xor b c) bytes fits_a fits_b same in
    sym back_a ∙ ap (λ x. bit_xor x c) sums ∙ back_b

bcc_loop-detects :
    (before after : Bytes) (acc c d : ℕ)
    → AllBytes before
    → AllBytes after
    → acc < 256
    → c < 256
    → d < 256
    → bcc_loop acc (before ++ c ∷ after) ≡ bcc_loop acc (before ++ d ∷ after)
    → c ≡ d
unfolding bcc_loop
bcc_loop-detects [] after acc c d bytes bytes' small small_c small_d same =
    let (fits_c, _, back_c) = undo_lem acc c small small_c in
    let (fits_d, _, back_d) = undo_lem acc d small small_d in
    let sums = bcc_loop-injective after (bit_xor acc c) (bit_xor acc d) bytes' fits_c fits_d same in
    sym back_c ∙ ap (bit_xor acc) sums ∙ back_d
bcc_loop-detects (b ∷ before) after acc c d (small_b, bytes) bytes' small small_c small_d same =
    let (fits, _, _) = undo_lem acc b small small_b in
    bcc_loop-detects before after (bit_xor acc b) c d bytes bytes' fits small_c small_d same

-- The check byte detects a change of any single byte: two texts of bytes that differ at most at one
-- position have the same check byte only if they are the same there.
pub get_bcc_data-detects :
    (before after : Bytes) (c d : ℕ)
    → AllBytes before
    → AllBytes after
    → c < 256
    → d < 256
    → get_bcc_data (before ++ c ∷ after) ≡ get_bcc_data (before ++ d ∷ after)
    → c ≡ d
unfolding get_bcc_data
get_bcc_data-detects before after c d bytes bytes' small_c small_d same =
    bcc_loop-detects before after 0 c d bytes bytes' (omega arith) small_c small_d same
