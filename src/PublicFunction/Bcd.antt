-- ===== src/PublicFunction/Bcd.antt =====
-- `tohex` and `AsciiStrToBcd` of public_function.cpp.
use Prim.Native.Nat.{bit_or}
use jia_tuan_server.Common.{
  ℕ, zero, suc, ◌+◌, ◌*◌, ◌-◌, ◌/◌, ◌%◌, ◌^◌, ◌≤◌, ◌<◌, ◌≡◌, refl, ◌∙◌, subst, Bool, true, false,
  ◌&&◌, ◌||◌, Option, none, some, ◌==◌, ltb, if◌then◌else◌, update, arith, Bool-cases, ==_iff, inl,
  inr,
}

unfoldable pub tohex : ℕ → ℕ
tohex b =
    if ltb 0x2f b && ltb b 0x3a
    then b - 0x30
    else if b == b'a' || b == b'A'
    then 0xa
    else if b == b'b' || b == b'B'
    then 0xb
    else if b == b'c' || b == b'C'
    then 0xc
    else if b == b'd' || b == b'D' || b == b'='
    then 0xd
    else if b == b'e' || b == b'E'
    then 0xe
    else if b == b'f' || b == b'F'
    then 0xf
    else 0

-- The byte of two digits: `i=j<<4`, and then `i|=j`.
unfoldable pub digits_byte : ℕ → ℕ → ℕ
digits_byte high low = bit_or ((tohex high * 2 ^ 4) % 2 ^ 8) (tohex low)

-- The loop, at most `fuel` rounds of it. `b` is the text by its offsets, `p` how far it is read, and
-- `k` and `m` are the counters of the source, each an `unsigned char`. `none`: it has not ended.
unfoldable pub bcd_loop : (fuel len : ℕ) (b : ℕ → ℕ) (p k m : ℕ) → (outbuf : ℕ → ℕ) → Option (ℕ → ℕ)
bcd_loop zero len b p k m outbuf = none
bcd_loop (suc fuel) len b p k m outbuf =
    let next =
      bcd_loop fuel len b (p + 2) ((k + 2) % 2 ^ 8) ((m + 1) % 2 ^ 8)
        (update outbuf m (digits_byte (b p) (b (p + 1)))) in
    if ltb k len then next else some outbuf

abbrev pub even_length : ℕ → ℕ
even_length len = if len % 2 == 0 then len else len + 1

unfoldable pub ascii_str_to_bcd : (fuel : ℕ) (outbuf b : ℕ → ℕ) (len : ℕ) → Option (ℕ → ℕ)
unfolding bcd_loop
ascii_str_to_bcd fuel outbuf b len = bcd_loop fuel (even_length len) b 0 0 0 outbuf

tohex_digit : (b : ℕ) → tohex b ≤ 15
unfolding tohex
tohex_digit b = ground arith

-- The two halves of a byte do not meet, for the numbers up to `high` and `low`.
halves_apart : (high low : ℕ) → Bool
halves_apart high zero = bit_or ((high * 2 ^ 4) % 2 ^ 8) 0 == 16 * high
halves_apart high (suc low) =
    let lower = halves_apart high low in
    lower && bit_or ((high * 2 ^ 4) % 2 ^ 8) (suc low) == 16 * high + suc low

all_apart : ℕ → Bool
all_apart zero = halves_apart 0 15
all_apart (suc high) = let lower = all_apart high in lower && halves_apart (suc high) 15

halves_apart_lem :
    (high low l : ℕ)
    → halves_apart high low ≡ true
    → l ≤ low
    → bit_or ((high * 2 ^ 4) % 2 ^ 8) l ≡ 16 * high + l
unfolding halves_apart
halves_apart_lem high zero l h small = elim (Bool-cases (l == 0)) [
  | inl e ↦ rw ((==_iff l 0).0 e) (ground arith)
  | inr e ↦ absurd (ground (arith, ==_iff l 0))
]
halves_apart_lem high (suc low) l h small = elim (Bool-cases (l == suc low)) [
  | inl e ↦ rw ((==_iff l (suc low)).0 e) (ground arith)
  | inr e ↦ halves_apart_lem high low l (ground arith) (ground (arith, ==_iff l (suc low)))
]

all_apart_lem : (last high : ℕ) → all_apart last ≡ true → high ≤ last → halves_apart high 15 ≡ true
unfolding all_apart
all_apart_lem zero high h small = subst (λ n. halves_apart n 15 ≡ true) (omega arith) h
all_apart_lem (suc last) high h small = elim (Bool-cases (high == suc last)) [
  | inl e ↦ rw ((==_iff high (suc last)).0 e) (ground arith)
  | inr e ↦ all_apart_lem last high (ground arith) (ground (arith, ==_iff high (suc last)))
]

digits_apart : all_apart 15 ≡ true
unfolding all_apart halves_apart
digits_apart = refl

digits_byte_lem : (high low : ℕ) → digits_byte high low ≡ 16 * tohex high + tohex low
unfolding digits_byte
digits_byte_lem high low =
    halves_apart_lem (tohex high) 15 (tohex low)
      (all_apart_lem 15 (tohex high) digits_apart (tohex_digit high)) (tohex_digit low)

-- The bytes from the offset `m` to `n` are the digits of the text in pairs, the others are as before.
abbrev pub Packed : (m n : ℕ) (b before after : ℕ → ℕ) → Type 0
Packed m n b before after =
    (i : ℕ)
    → (m ≤ i → i < n → after i ≡ 16 * tohex (b (2 * i)) + tohex (b (2 * i + 1)))
      × (i < m → after i ≡ before i)
      × (n ≤ i → after i ≡ before i)

Packed-step :
    (m n : ℕ) (b before after : ℕ → ℕ)
    → m < n
    → Packed (m + 1) n b (update before m (digits_byte (b (2 * m)) (b (2 * m + 1)))) after
    → Packed m n b before after
Packed-step m n b before after room rest i = (
  λ low high. elim (Bool-cases (i == m)) [
    | inl e ↦
        let here : i ≡ m = (==_iff i m).0 e in
        (rest i).1 (omega (arith, here))
        ∙ rw (e, here) (digits_byte_lem (b (2 * m)) (b (2 * m + 1)))
    | inr e ↦ (rest i).0 (ground (arith, ==_iff i m)) high
  ],
  λ low. (rest i).1 (omega arith) ∙ untouched _ (λ e. omega (arith, e)),
  λ high. (rest i).2 high ∙ untouched _ (λ e. omega (arith, e)),
)
  where
    untouched : (v : ℕ) → (i ≡ m → ⊥) → update before m v i ≡ before i
    untouched v other = ground (arith, ==_iff i m)

bcd_loop-Packed :
    (rounds fuel n m : ℕ) (b before : ℕ → ℕ)
    → m + rounds ≡ n
    → n ≤ 127
    → rounds < fuel
    → (after : ℕ → ℕ) × (bcd_loop fuel (2 * n) b (2 * m) (2 * m) m before ≡ some after)
      × Packed m n b before after
unfolding bcd_loop
bcd_loop-Packed rounds zero n m b before e small enough = absurd (omega arith)
bcd_loop-Packed zero (suc fuel) n m b before e small enough =
    let stops : ltb (2 * m) (2 * n) ≡ false = ground arith in
    (before, rw stops refl, λ i. (λ low high. absurd (omega arith), λ low. refl, λ high. refl))
bcd_loop-Packed (suc rounds) (suc fuel) n m b before e small enough =
    let next = update before m (digits_byte (b (2 * m)) (b (2 * m + 1))) in
    let (after, run, packed) =
      bcd_loop-Packed rounds fuel n (m + 1) b next (omega arith) small (omega arith) in
    let goes_on : ltb (2 * m) (2 * n) ≡ true = ground arith in
    let k : (2 * m + 2) % 2 ^ 8 ≡ 2 * (m + 1) = omega arith in
    let c : (m + 1) % 2 ^ 8 ≡ m + 1 = omega arith in
    let p : 2 * m + 2 ≡ 2 * (m + 1) = omega arith in
    (after, rw (goes_on, k, c, p) run, Packed-step m n b before after (omega arith) packed)

-- The even length of `len` bytes, by the number of its pairs.
even_length_lem : (len : ℕ) → even_length len ≡ 2 * ((len + 1) / 2)
even_length_lem len = ground arith

-- A text of at most 254 bytes is packed: the call ends, within half as many rounds and one more, the
-- first bytes of the output are the pairs of digits of the text, and no other byte changes.
pub ascii_str_to_bcd-Packed :
    (fuel len : ℕ) (b before : ℕ → ℕ)
    → len ≤ 254
    → (len + 1) / 2 < fuel
    → (after : ℕ → ℕ) × (ascii_str_to_bcd fuel before b len ≡ some after)
      × Packed 0 ((len + 1) / 2) b before after
unfolding ascii_str_to_bcd
ascii_str_to_bcd-Packed fuel len b before short enough = rw (even_length_lem len) (
    bcd_loop-Packed ((len + 1) / 2) fuel ((len + 1) / 2) 0 b before (omega arith) (omega arith)
      enough)

bcd_loop-none :
    (fuel len : ℕ) (b : ℕ → ℕ) (p k m : ℕ) (outbuf : ℕ → ℕ)
    → 255 ≤ len
    → k < 255
    → k % 2 ≡ 0
    → bcd_loop fuel len b p k m outbuf ≡ none
unfolding bcd_loop
bcd_loop-none zero len b p k m outbuf long low even = refl
bcd_loop-none (suc fuel) len b p k m outbuf long low even =
    let goes_on : ltb k len ≡ true = ground arith in
    rw goes_on (bcd_loop-none fuel len b _ _ _ _ long (omega arith) (omega arith))

-- The call never ends on a text of 255 bytes or more, since its counter has one byte.
pub ascii_str_to_bcd_diverges :
    (fuel len : ℕ) (outbuf b : ℕ → ℕ) → 255 ≤ len → ascii_str_to_bcd fuel outbuf b len ≡ none
unfolding ascii_str_to_bcd
ascii_str_to_bcd_diverges fuel len outbuf b long =
    bcd_loop-none fuel (even_length len) b 0 0 0 outbuf (ground arith) (omega arith) (omega arith)
