-- ===== src/Server/Reading.antt =====
-- What `buffered_on_read` of src/server_threaded.c makes of its input before it parses it.
use jia_tuan_server.Common.{
  ℕ, zero, suc, ◌-◌, ◌<◌, ◌≡◌, refl, ap, Bool, true, false, none, some, [], ◌∷◌, ◌++◌, arith, leb,
  Bytes, length, length-append, replicate, has,
}
use jia_tuan_server.Database.{Mysql}
use jia_tuan_server.Server.World.{World}
use jia_tuan_server.Server.Client.{Client}
use jia_tuan_server.Server.Request.{
  buf_max_size, overflow, unterminated, done, stopped, or_stop, c_string, received, Json,
  buffered_on_read,
}

-- The bytes before the first zero byte.
pub until_zero : Bytes → Bytes
until_zero [] = []
until_zero (zero ∷ rest) = []
until_zero (suc c ∷ rest) = suc c ∷ until_zero rest

c_string-padded :
    (input : Bytes) (n : ℕ) → c_string (input ++ replicate (suc n) 0) ≡ some (until_zero input)
unfolding c_string until_zero
c_string-padded [] n = refl
c_string-padded (zero ∷ rest) n = refl
c_string-padded (suc c ∷ rest) n = rw (c_string-padded rest n)

c_string-full : (input : Bytes) → has 0 input ≡ false → c_string (input ++ []) ≡ none
unfolding c_string
c_string-full [] h = refl
c_string-full (zero ∷ rest) h = ground arith
c_string-full (suc c ∷ rest) h = rw (c_string-full rest (ground arith))

c_string-zero :
    (input : Bytes) → has 0 input ≡ true → c_string (input ++ []) ≡ some (until_zero input)
unfolding c_string until_zero
c_string-zero [] h = ground arith
c_string-zero (zero ∷ rest) h = refl
c_string-zero (suc c ∷ rest) h = rw (c_string-zero rest (ground arith))

replicate_pos : (n : ℕ) → 0 < n → replicate {A = ℕ} n 0 ≡ replicate (suc (n - 1)) 0
replicate_pos zero h = absurd (omega arith)
replicate_pos (suc n) h = ap (λ (k : ℕ). replicate {A = ℕ} (suc k) 0) (omega arith)

-- An input of more than 4096 bytes overflows the array; one of exactly 4096 bytes with no zero
-- byte is read past its end; any other is taken up to its first zero byte.
pub received_cases :
    (input : Bytes)
    → (4096 < length input → received input ≡ stopped overflow)
      × (length input ≡ 4096 → has 0 input ≡ false → received input ≡ stopped unterminated)
      × (length input ≡ 4096 → has 0 input ≡ true → received input ≡ done (until_zero input))
      × (length input < 4096 → received input ≡ done (until_zero input))
unfolding received or_stop
received_cases input = (
  λ h. let big : leb (length input) buf_max_size ≡ false = ground arith in rw big,
  λ h e.
      let fits : leb (length input) buf_max_size ≡ true = ground arith in
      let full : (buf_max_size - length input) ≡ 0 = omega arith in
      rw (fits, full, c_string-full input e),
  λ h e.
      let fits : leb (length input) buf_max_size ≡ true = ground arith in
      let full : (buf_max_size - length input) ≡ 0 = omega arith in
      rw (fits, full, c_string-zero input e),
  λ h.
      let fits : leb (length input) buf_max_size ≡ true = ground arith in
      rw (
        fits,
        replicate_pos (buf_max_size - length input) (omega arith),
        c_string-padded input (buf_max_size - length input - 1),
      ),
)

until_zero_cut : (a b : Bytes) → until_zero (a ++ 0 ∷ b) ≡ until_zero a
unfolding until_zero
until_zero_cut [] b = refl
until_zero_cut (zero ∷ a) b = refl
until_zero_cut (suc c ∷ a) b = ap (λ r. suc c ∷ r) (until_zero_cut a b)

-- In a request of fewer than 4096 bytes, a zero byte and all that follows it change nothing of
-- what `buffered_on_read` does.
pub read_ignores_tail :
    (j : Json) (m : Mysql) (write_fails : Bool) (a b : Bytes) (c : Client) (w : World) (s : m.State)
    → length (a ++ 0 ∷ b) < 4096
    → buffered_on_read j m write_fails (a ++ 0 ∷ b) c w s ≡ buffered_on_read j m write_fails a c w s
unfolding buffered_on_read
read_ignores_tail j m write_fails a b c w s small =
    let short : length a < 4096 = omega (arith, length-append a (0 ∷ b)) in
    rw ((received_cases (a ++ 0 ∷ b)).3 small, (received_cases a).3 short, until_zero_cut a b)
