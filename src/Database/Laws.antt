-- ===== src/Database/Laws.antt =====
-- What the functions of src/dbmanager.cpp answer, and the texts that they send.
use mathlib.Core.List.{append_assoc, append-nil}
use jia_tuan_server.Common.{
  ℕ, zero, suc, ◌≡◌, refl, sym, ap, ◌∙◌, true, false, Option, none, some, List, [], ◌∷◌, ◌++◌,
  Bytes, codes,
}
use jia_tuan_server.Database.{
  Mysql, Cout, put, print_row, fetch_loop, executed, print_result, execute_sql, login_sql,
  user_login_func,
}

-- What is put out for rows: each cell and a blank behind it, and a line end behind each row.
abbrev pub pieces_of_row : List (Option Bytes) → List (Option Bytes)
pieces_of_row [] = some (codes "\n") ∷ []
pieces_of_row (cell ∷ cells) = cell ∷ some (codes " ") ∷ pieces_of_row cells

abbrev pub pieces : List (List (Option Bytes)) → List (Option Bytes)
pieces [] = []
pieces (row ∷ rows) = pieces_of_row row ++ pieces rows

-- The texts up to the first NULL.
abbrev pub up_to_null : List (Option Bytes) → Bytes
up_to_null [] = []
up_to_null (none ∷ ts) = []
up_to_null (some t ∷ ts) = t ++ up_to_null ts

abbrev pub first_rows : ℕ → List (List (Option Bytes)) → List (List (Option Bytes))
first_rows zero rows = []
first_rows (suc n) [] = []
first_rows (suc n) (row ∷ rows) = row ∷ first_rows n rows

abbrev put_all : List (Option Bytes) → Cout → Cout
put_all [] out = out
put_all (t ∷ ts) out = put_all ts (put t out)

put_all-++ :
    (ts us : List (Option Bytes)) (out : Cout)
    → put_all (ts ++ us) out ≡ put_all us (put_all ts out)
put_all-++ [] us out = refl
put_all-++ (t ∷ ts) us out = put_all-++ ts us (put t out)

print_row-put_all :
    (row : List (Option Bytes)) (out : Cout) → print_row row out ≡ put_all (pieces_of_row row) out
unfolding print_row
print_row-put_all [] out = refl
print_row-put_all (cell ∷ cells) out =
    print_row-put_all cells (put (some (codes " ")) (put cell out))

fetch_loop-put_all :
    (n : ℕ) (rows : List (List (Option Bytes))) (out : Cout)
    → fetch_loop n rows out ≡ put_all (pieces (first_rows n rows)) out
unfolding fetch_loop
fetch_loop-put_all zero rows out = refl
fetch_loop-put_all (suc n) [] out = refl
fetch_loop-put_all (suc n) (row ∷ rows) out =
    fetch_loop-put_all n rows (print_row row out)
    ∙ ap (put_all (pieces (first_rows n rows))) (print_row-put_all row out)
    ∙ sym (put_all-++ (pieces_of_row row) (pieces (first_rows n rows)) out)

put_all-bad :
    (ts : List (Option Bytes)) (text : Bytes)
    → (put_all ts (record { good = false; text = text })).text ≡ text
put_all-bad [] text = refl
put_all-bad (none ∷ ts) text = put_all-bad ts text
put_all-bad (some t ∷ ts) text = put_all-bad ts text

put_all-good :
    (ts : List (Option Bytes)) (text : Bytes)
    → (put_all ts (record { good = true; text = text })).text ≡ text ++ up_to_null ts
put_all-good [] text = sym (append-nil text)
put_all-good (none ∷ ts) text = put_all-bad ts text ∙ sym (append-nil text)
put_all-good (some t ∷ ts) text = put_all-good ts (text ++ t) ∙ append_assoc text t (up_to_null ts)

-- The text that separates the account from the password in the query of a login.
abbrev pub separator : Bytes
separator = codes " and user_pass = "

login_sql_shift :
    (u v p : Bytes) → login_sql (u ++ (separator ++ v)) p ≡ login_sql u (v ++ (separator ++ p))
unfolding login_sql
login_sql_shift u v p = simp append_assoc

module _ (m : Mysql) where
  open m use {State, query, field_count, use_result}

  result_lem :
      (n : ℕ) (rows : List (List (Option Bytes))) (out : Cout) (s : State)
      → print_result m n (some rows) out s ≡ executed (fetch_loop n rows out, s)
  unfolding print_result
  result_lem zero rows out s = refl
  result_lem (suc n) rows out s = refl

  -- A login with the account `u and user_pass = v` and the password `p` is, to the server and in
  -- its answer, the login with the account `u` and the password `v and user_pass = p`.
  pub login_is_ambiguous :
      (u v p : Bytes) (s : State)
      → user_login_func m (u ++ (separator ++ v)) p s
        ≡ user_login_func m u (v ++ (separator ++ p)) s
  unfolding user_login_func
  login_is_ambiguous u v p s = rw (login_sql_shift u v p)

  -- Let the server accept a query with a result. Then `executeSQL` returns, and on a good `cout` it
  -- prints the cells of the first rows of the result, as many rows as the result has columns, with a
  -- blank behind each cell and a line end behind each row, up to the first cell that is NULL; from
  -- there on it prints nothing.
  pub execute_sql_prints :
      (sql text : Bytes) (s : State) (rows : List (List (Option Bytes)))
      → (query sql s).0 ≡ false
      → use_result (query sql s).1 ≡ some rows
      → (out : Cout) × (execute_sql m sql (record { good = true; text = text }) s
          ≡ executed (out, (query sql s).1))
        × (out.text ≡ text ++ up_to_null (pieces (first_rows (field_count (query sql s).1) rows)))
  unfolding execute_sql print_result
  execute_sql_prints sql text s rows accepted result =
      let n = field_count (query sql s).1 in
      let out : Cout = record { good = true; text = text } in
      (
        fetch_loop n rows out,
        rw (accepted, result) (result_lem n rows out (query sql s).1),
        ap (λ (c : Cout). c.text) (fetch_loop-put_all n rows out)
            ∙ put_all-good (pieces (first_rows n rows)) text,
      )
