-- ===== src/Http/Method/Names.antt =====
-- The states `s_start_req` and `s_req_method` of `http_parser_execute` read the names of the methods.
use jia_tuan_server.Common.{
  ℕ, ◌+◌, Bool, true, false, not, ◌&&◌, Option, none, some, [], ◌∷◌, ◌==◌, Bytes, take, same_bytes,
}
use jia_tuan_server.Http.Chars.{entry}
use jia_tuan_server.Http.Method.{
  method_string, first_method, invalid, finished, onward, method_char,
}

-- The texts that the two states read, put together for one text: from the first letter, behind the
-- line ends that `s_start_req` skips, up to the blank. These two are no functions of the source.
-- The characters from the second one on, up to the blank: the method and what is left.
unfoldable pub method_loop : (method index : ℕ) → Bytes → Option (ℕ × Bytes)
method_loop m i [] = none
method_loop m i (ch ∷ rest) = elim (method_char m i ch) [
  | invalid ↦ none
  | finished ↦ some (m, rest)
  | onward m' ↦ method_loop m' (i + 1) rest
]

unfoldable pub read_method : Bytes → Option (ℕ × Bytes)
unfolding method_loop
read_method [] = none
read_method (ch ∷ rest) = elim (first_method ch) [ none ↦ none | some m ↦ method_loop m 1 rest ]

-- The text `name` has `ch` at `i`, and agrees with the text of `m` before it.
abbrev switches : (m i ch : ℕ) → Option ℕ → Bool
switches m i ch none = true
switches m i ch (some m') =
    same_bytes (take i (method_string m')) (take i (method_string m))
    && (entry (method_string m') i == ch)

no_zero : Bytes → Bool
no_zero [] = true
no_zero (x ∷ xs) = not (x == 0) && no_zero xs

abbrev is_read : ℕ → Option (ℕ × Bytes) → Bool
is_read m none = false
is_read m (some (m', rest)) = m == m' && same_bytes rest []

abbrev starts : (ch : ℕ) → Option ℕ → Bool
starts ch none = true
starts ch (some m) = same_bytes (take 1 (method_string m)) (ch ∷ [])
