-- ===== src/Http/Execute/Body.antt =====
-- The cases of `http_parser_execute` for the body of a message.
use Prim.Native.Nat.{min}
use jia_tuan_server.Common.{
  ℕ, ◌+◌, ◌-◌, Bool, true, false, not, ◌&&◌, ◌||◌, Option, none, some, ◌∷◌, ◌==◌, if◌then◌else◌,
  Bytes, length,
}
use jia_tuan_server.Http.Tokens.{unhex}
use jia_tuan_server.Http.State.{
  message_done, chunk_size, chunk_size_start, chunk_size_almost_done, chunk_parameters, chunk_data,
  chunk_data_almost_done, chunk_data_done, header_field_start,
}
use jia_tuan_server.Http.Parser.{ullong_max, hpe_invalid_chunk_size, hpe_invalid_content_length}
use jia_tuan_server.Http.Execute.Value.Scan.{push_length, may_overflow, with_flags}
use jia_tuan_server.Http.Execute.Macros.{
  message_complete, chunk_header, chunk_complete, body, Settings, Exec, Step, Jump, go, again,
  leave, abort, to, with_parser, fail_with, strict, mark_at, new_message, notify, data_call,
}

-- A length that is neither 0 nor unknown.
abbrev pub is_length : ℕ → Bool
is_length n = not (n == 0) && not (n == ullong_max)

module _ {User : Type 0} where
  -- An assertion.
  abbrev pub assert : Bool → Step User → Step User
  assert holds next = if holds then next else abort

  abbrev pub with_length : ℕ → Exec User → Exec User
  with_length n x = with_parser (record x.parser { content_length = n }) x

  unfoldable pub at_body_identity_eof : ℕ → Exec User → (ch : ℕ) → Bytes → Jump User
  at_body_identity_eof p x ch rest = record {
    taken = length rest;
    ch = ch;
    step = go (mark_at body p x);
  }

  abbrev pub chunk_start : Exec User → Option ℕ → Step User
  chunk_start x none = fail_with hpe_invalid_chunk_size x
  chunk_start x (some d) = go (to chunk_size (with_length d x))

  unfoldable pub at_chunk_size_start : Exec User → ℕ → Step User
  unfolding unhex
  at_chunk_size_start x ch =
      assert (x.parser.nread == 1 && x.parser.flags.chunked) (chunk_start x (unhex ch))

  abbrev pub chunk_digit : Exec User → ℕ → Option ℕ → Step User
  chunk_digit x ch none =
      if ch == 0x3b || ch == 0x20
      then go (to chunk_parameters x)
      else fail_with hpe_invalid_chunk_size x
  chunk_digit x ch (some d) =
      if may_overflow 16 x.parser.content_length
      then fail_with hpe_invalid_content_length x
      else go (with_length (push_length 16 x.parser.content_length d) x)

  unfoldable pub at_chunk_size : Exec User → ℕ → Step User
  unfolding unhex
  at_chunk_size x ch =
      assert x.parser.flags.chunked
        (if ch == 0x0d then go (to chunk_size_almost_done x) else chunk_digit x ch (unhex ch))

  unfoldable pub at_chunk_parameters : Exec User → ℕ → Step User
  at_chunk_parameters x ch =
      assert x.parser.flags.chunked (if ch == 0x0d then go (to chunk_size_almost_done x) else go x)

  unfoldable pub at_chunk_data : ℕ → Exec User → (ch : ℕ) → Bytes → Jump User
  at_chunk_data p x ch rest =
      let n = x.parser.content_length in
      let to_read = min n (length (ch ∷ rest)) in
      let y : Exec User = with_length (n - to_read) (mark_at body p x) in
      record {
        taken = to_read - 1;
        ch = ch;
        step =
            assert (x.parser.flags.chunked && is_length n)
              (if n - to_read == 0 then go (to chunk_data_almost_done y) else go y);
      }

module _ (st : Settings) (buf : Bytes) where
  open st use {User}

  unfoldable pub at_body_identity : ℕ → Exec User → (ch : ℕ) → Bytes → Jump User
  unfolding data_call
  at_body_identity p x ch rest =
      let n = x.parser.content_length in
      let to_read = min n (length (ch ∷ rest)) in
      let y : Exec User = with_length (n - to_read) (mark_at body p x) in
      record {
        taken = to_read - 1;
        ch = ch;
        step = assert (is_length n) (
            if n - to_read == 0
            then data_call st body buf (p + to_read) false (to message_done y) again
            else go y);
      }

  unfoldable pub at_message_done : Exec User → ℕ → Step User
  unfolding notify new_message
  at_message_done x ch =
      notify st message_complete true (to (new_message x.parser) x)
        λ y. if y.parser.upgrade then leave true y else go y

  unfoldable pub at_chunk_size_almost_done : Exec User → ℕ → Step User
  unfolding notify
  at_chunk_size_almost_done x ch = assert x.parser.flags.chunked (
      strict (ch == 0x0a) x (
        let y : Exec User = with_parser (record x.parser { nread = 0 }) x in
        notify st chunk_header true
          (if y.parser.content_length == 0
            then to header_field_start
                (with_parser (with_flags (record y.parser.flags { trailing = true }) y.parser) y)
            else to chunk_data y)
          go))

  unfoldable pub at_chunk_data_almost_done : ℕ → Exec User → ℕ → Step User
  unfolding data_call
  at_chunk_data_almost_done p x ch =
      assert (x.parser.flags.chunked && x.parser.content_length == 0)
        (strict (ch == 0x0d) x (data_call st body buf p true (to chunk_data_done x) go))

  unfoldable pub at_chunk_data_done : Exec User → ℕ → Step User
  unfolding notify
  at_chunk_data_done x ch = assert x.parser.flags.chunked (
      strict (ch == 0x0a) x (
        notify st chunk_complete true
          (to chunk_size_start (with_parser (record x.parser { nread = 0 }) x)) go))
