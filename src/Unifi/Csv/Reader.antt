-- ===== src/Unifi/Csv/Reader.antt =====
-- A reader of comma-separated values whose fields are all in quotes, after RFC 4180, and that it reads
-- what the export writes.
use mathlib.Core.List.{append_assoc}
use tuxwall.Base.{
  ℕ, Bool, true, false, Option, none, some, List, [], ◌∷◌, ◌++◌, map, ◌==◌, ◌≡◌, refl, sym, ap, ◌∙◌,
  arith, append_nil, All, Bool-cases, inl, inr, if◌then◌else◌,
}
use tuxwall.Unifi.Csv.{
  Text, quote, comma, newline, Client, rows_of, row_of, header, doubled, quoted, join, line_of,
  csv_of, export_clients_csv,
}

-- Before a field, inside its quotes, and behind a quote that may be the first of two.
pub data Mode : Type 0 where
  field_start in_quotes quote_seen : Mode

-- What is read: the rows so far, the fields of the row, and the field.
pub record Read : Type 0 where
  pub rows : List (List Text)
  pub row : List Text
  pub field : Text

abbrev pub end_row : Read → Read
end_row r = record { rows = r.rows ++ (r.row ++ r.field ∷ []) ∷ []; row = []; field = [] }

abbrev pub end_field : Read → Read
end_field r = record r { row = r.row ++ r.field ∷ []; field = [] }

abbrev pub push : ℕ → Read → Read
push c r = record r { field = r.field ++ c ∷ [] }

pub read : Mode → Read → Text → Option (List (List Text))
read field_start r [] = none
read in_quotes r [] = none
read quote_seen r [] = some (end_row r).rows
read field_start r (c ∷ cs) = let go = read in_quotes r cs in if c == quote then go else none
read in_quotes r (c ∷ cs) =
    let stop = read quote_seen r cs in
    let go = read in_quotes (push c r) cs in if c == quote then stop else go
read quote_seen r (c ∷ cs) =
    let again = read in_quotes (push quote r) cs in
    let next = read field_start (end_field r) cs in
    let below = read field_start (end_row r) cs in
    if c == quote then again else if c == comma then next else if c == newline then below else none

abbrev pub empty : Read
empty = record { rows = []; row = []; field = [] }

unfoldable pub read_csv : Text → Option (List (List Text))
read_csv t = read field_start empty t

-- The fields of a row, read up to the last quote.
abbrev at_end : List (List Text) → List Text → Text → List Text → Read
at_end rows done t [] = record { rows = rows; row = done; field = t }
at_end rows done t (u ∷ us) = at_end rows (done ++ t ∷ []) u us

end_row-at_end :
    (rows : List (List Text)) (done : List Text) (t : Text) (us : List Text)
    → end_row (at_end rows done t us)
      ≡ record { rows = rows ++ (done ++ t ∷ us) ∷ []; row = []; field = [] }
end_row-at_end rows done t [] = refl
end_row-at_end rows done t (u ∷ us) =
    end_row-at_end rows (done ++ t ∷ []) u us
    ∙ ap (λ l. record { rows = rows ++ l ∷ []; row = []; field = [] })
        (append_assoc done (t ∷ []) (u ∷ us))

read-push :
    (c : ℕ) (rest : Text) (r : Read)
    → read in_quotes r (doubled (c ∷ []) ++ rest) ≡ read in_quotes (push c r) rest
unfolding read doubled
read-push c rest r = elim (Bool-cases (c == quote)) [
  | inl e ↦ ground (arith, e)
  | inr e ↦ ground (arith, e)
]

doubled-cons : (c : ℕ) (cs : Text) → doubled (c ∷ cs) ≡ doubled (c ∷ []) ++ doubled cs
unfolding doubled
doubled-cons c cs = ground arith

read-doubled :
    (t rest : Text) (r : Read)
    → read in_quotes r (doubled t ++ quote ∷ rest)
      ≡ read quote_seen (record r { field = r.field ++ t }) rest
unfolding read doubled
read-doubled [] rest r =
    ap (λ f. read quote_seen (record r { field = f }) rest) (sym (append_nil r.field))
read-doubled (c ∷ cs) rest r =
    ap (λ l. read in_quotes r (l ++ quote ∷ rest)) (doubled-cons c cs)
    ∙ ap (read in_quotes r) (append_assoc (doubled (c ∷ [])) (doubled cs) (quote ∷ rest))
    ∙ read-push c (doubled cs ++ quote ∷ rest) r
    ∙ read-doubled cs rest (push c r)
    ∙ ap (λ f. read quote_seen (record r { field = f }) rest) (append_assoc r.field (c ∷ []) cs)

read-quoted :
    (t rest : Text) (rows : List (List Text)) (done : List Text)
    → read field_start (record { rows = rows; row = done; field = [] }) (quoted t ++ rest)
      ≡ read quote_seen (record { rows = rows; row = done; field = t }) rest
unfolding read
read-quoted t rest rows done =
    let r : Read = record { rows = rows; row = done; field = [] } in
    ap (read in_quotes r) (append_assoc (doubled t) (quote ∷ []) rest) ∙ read-doubled t rest r

read-line_of :
    (t : Text) (us : List Text) (rest : Text) (rows : List (List Text)) (done : List Text)
    → read field_start (record { rows = rows; row = done; field = [] }) (line_of (t ∷ us) ++ rest)
      ≡ read quote_seen (at_end rows done t us) rest
unfolding read join
read-line_of t [] rest rows done = read-quoted t rest rows done
read-line_of t (u ∷ us) rest rows done =
    ap (read field_start (record { rows = rows; row = done; field = [] }))
      (append_assoc (quoted t) (comma ∷ line_of (u ∷ us)) rest)
    ∙ read-quoted t (comma ∷ line_of (u ∷ us) ++ rest) rows done
    ∙ read-line_of u us rest rows (done ++ t ∷ [])

-- No row is without a field.
abbrev pub is_row : List Text → Bool
is_row [] = false
is_row (t ∷ us) = true

read-csv_of :
    (row : List Text) (more : List (List Text)) (rows : List (List Text))
    → All (λ r. is_row r ≡ true) (row ∷ more)
    → read field_start (record { rows = rows; row = []; field = [] }) (csv_of (row ∷ more))
      ≡ some (rows ++ row ∷ more)
unfolding read csv_of join
read-csv_of [] more rows h = ground (arith, h)
read-csv_of (t ∷ us) [] rows h =
    ap (read field_start (record { rows = rows; row = []; field = [] }))
      (sym (append_nil (line_of (t ∷ us))))
    ∙ read-line_of t us [] rows []
    ∙ ap (λ r. some r.rows) (end_row-at_end rows [] t us)
read-csv_of (t ∷ us) (next ∷ more) rows h =
    read-line_of t us (newline ∷ csv_of (next ∷ more)) rows []
    ∙ ap (λ r. read field_start r (csv_of (next ∷ more))) (end_row-at_end rows [] t us)
    ∙ read-csv_of next more (rows ++ (t ∷ us) ∷ []) h.1
    ∙ ap some (append_assoc rows ((t ∷ us) ∷ []) (next ∷ more))

clients-All : (clients : List Client) → All (λ r. is_row r ≡ true) (map row_of clients)
clients-All [] = tt
clients-All (c ∷ cs) = (refl, clients-All cs)

-- The exported file is read back as the header and one row of twelve fields for each client, whatever
-- characters the fields hold, quotes, commas and line ends included.
pub read_csv-export_clients_csv :
    (clients : List Client) → read_csv (export_clients_csv clients) ≡ some (rows_of clients)
unfolding read_csv export_clients_csv
read_csv-export_clients_csv clients =
    read-csv_of header (map row_of clients) [] (refl, clients-All clients)
