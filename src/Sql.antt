-- ===== src/Sql.antt =====
-- internal/clients/xsql/common.go and what the clients use of database/sql. The database is not part
-- of the repository: how it answers a statement is a parameter, a function of all that was sent
-- before. The state of a client is that history.
use crossplane_provider_hana.Prelude.{
  Bool, true, false, zero, suc, ◌||◌, Option, none, some, List, [], ◌∷◌, ◌++◌, ◌==◌, if◌then◌else◌,
}
use crossplane_provider_hana.Text.{Text, lit, text_eq}
use crossplane_provider_hana.Errors.{Err, Result, ok, err, other, no_rows, bind}
use crossplane_provider_hana.Exec.{Exec}
use crossplane_provider_hana.Numbers.{ℤ, itoa, parse_int}
use crossplane_provider_hana.Numbers.ℤ.{pos, negsuc}

-- What is asked of a connection: a statement, or the begin or the end of a transaction.
pub data Kind : Type 0 where
  statement begin commit rollback : Kind

pub record Stmt : Type 0 where
  pub kind : Kind
  pub sql : Text
  pub args : List Text

-- What a column of a row may hold.
pub data Cell : Type 0 where
  null : Cell
  str : Text → Cell
  bool : Bool → Cell
  int : ℤ → Cell
  time : Text → Cell  -- an instant, by its RFC 3339 text

abbrev pub Row : Type 0
Row = List Cell

-- *sql.Rows: the rows that Next visits, and what Err reports after them.
pub record Rows : Type 0 where
  pub rows : List Row
  pub broken : Option Err

abbrev pub History : Type 0
History = List Stmt

pub record Database : Type 0 where
  pub on_exec : History → Stmt → Option Err
  pub on_query : History → Stmt → Result Rows

abbrev pub Sql : Type 0 → Type 0
Sql A = Exec History A

abbrev pub plain : Text → Stmt
plain query = record { kind = Kind.statement; sql = query; args = [] }

-- BeginTx, Commit and Rollback
abbrev pub control : Kind → Stmt
control kind = record { kind = kind; sql = []; args = [] }

abbrev outcome : Option Err → Result (Unit {0})
outcome none = ok tt
outcome (some e) = err e

-- sql.Row: the first row, the failure of the query, or sql.ErrNoRows
abbrev first_of_rows : List Row → Option Err → Result Row
first_of_rows (r ∷ rs) broken = ok r
first_of_rows [] none = err no_rows
first_of_rows [] (some e) = err e

abbrev pub first_row : Result Rows → Result Row
first_row (err e) = err e
first_row (ok r) = first_of_rows r.rows r.broken

module _ (db : Database) where
  -- db.ExecContext(ctx, query)
  unfoldable pub exec : Text → Sql (Unit {0})
  exec query h = (outcome (db.on_exec h (plain query)), h ++ plain query ∷ [])

  unfoldable pub transaction : Kind → Sql (Unit {0})
  transaction kind h = (outcome (db.on_exec h (control kind)), h ++ control kind ∷ [])

  -- db.QueryContext(ctx, query, args...)
  unfoldable pub query : Text → List Text → Sql Rows
  query text args h = (
    db.on_query h (record { kind = Kind.statement; sql = text; args = args }),
    h ++ record { kind = Kind.statement; sql = text; args = args } ∷ [],
  )

  -- db.QueryRowContext(ctx, query, args...), before its Scan
  unfoldable pub query_row : Text → List Text → Sql Row
  unfolding query
  query_row text args h = (first_row (query text args h).0, (query text args h).1)

-- strconv.ParseBool
unfoldable pub parse_bool : Text → Result Bool
parse_bool s =
    if s == lit "1"
      || s == lit "t"
      || s == lit "T"
      || s == lit "TRUE"
      || s == lit "true"
      || s == lit "True"
    then ok true
    else if s == lit "0"
        || s == lit "f"
        || s == lit "F"
        || s == lit "FALSE"
        || s == lit "false"
        || s == lit "False"
    then ok false
    else err (other (lit "sql/driver: couldn't convert to type bool"))

-- Rows.Scan into a *string, a *bool, a *time.Time and a *sql.NullString.
unfoldable pub scan_text : Cell → Result Text
unfolding itoa
scan_text null = err (other (lit "converting NULL to string is unsupported"))
scan_text (str s) = ok s
scan_text (bool true) = ok (lit "true")
scan_text (bool false) = ok (lit "false")
scan_text (int i) = ok (itoa i)
scan_text (time t) = ok t

unfoldable pub scan_bool : Cell → Result Bool
unfolding parse_bool
scan_bool null = err (other (lit "sql/driver: couldn't convert <nil> (<nil>) into type bool"))
scan_bool (str s) = parse_bool s
scan_bool (bool b) = ok b
scan_bool (int (pos zero)) = ok false
scan_bool (int (pos (suc zero))) = ok true
scan_bool (int (pos (suc (suc n)))) = err (other (lit "sql/driver: couldn't convert to type bool"))
scan_bool (int (negsuc n)) = err (other (lit "sql/driver: couldn't convert to type bool"))
scan_bool (time t) = err (other (lit "sql/driver: couldn't convert (time.Time) into type bool"))

unfoldable pub scan_time : Cell → Result Text
scan_time (time t) = ok t
scan_time c = err (other (lit "unsupported Scan into type *time.Time"))

unfoldable pub scan_null_text : Cell → Result (Option Text)
unfolding itoa
scan_null_text null = ok none
scan_null_text (str s) = ok (some s)
scan_null_text (bool true) = ok (some (lit "true"))
scan_null_text (bool false) = ok (some (lit "false"))
scan_null_text (int i) = ok (some (itoa i))
scan_null_text (time t) = ok (some t)

abbrev parsed_int : Option ℤ → Result ℤ
parsed_int (some i) = ok i
parsed_int none = err (other (lit "converting to a int64: invalid syntax"))

-- Rows.Scan into an *int and a *sql.NullInt64.
unfoldable pub scan_int : Cell → Result ℤ
unfolding parse_int
scan_int (int i) = ok i
scan_int (str s) = parsed_int (parse_int s)
scan_int c = err (other (lit "converting to a int: unsupported"))

unfoldable pub scan_null_int : Cell → Result (Option ℤ)
unfolding scan_int
scan_null_int null = ok none
scan_null_int (int i) = ok (some i)
scan_null_int (str s) = bind (scan_int (str s)) λ i. ok (some i)
scan_null_int c = err (other (lit "converting to a int64: unsupported"))

-- Scan with another number of destinations than the row has columns.
abbrev pub wrong_columns : Err
wrong_columns = other (lit "sql: expected another number of destination arguments in Scan")

-- sql.NullString's field String is empty where the column is NULL.
abbrev pub null_text : Option Text → Text
null_text none = []
null_text (some s) = s
