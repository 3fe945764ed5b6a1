-- ===== src/Model/AccountRepository.antt =====
-- model/AccountRepository.cpp. What SQLite reports of `save` is not looked at, as in the source.
use upi_w_o_internet.Common.{String, Option, none, some, List, [], ◌∷◌, map, if◌then◌else◌}
use upi_w_o_internet.Common.Result.{Action, ok}
use upi_w_o_internet.Common.Text.{c_str}
use upi_w_o_internet.Model.Records.{Account}
use upi_w_o_internet.Model.Sqlite.{
  Sqlite, Row, integer, text, sql_find_account, sql_save_account, sql_all_accounts,
}

module _ (q : Sqlite) where
  open q use {Db, prepares, run, column_text, column_int64}

  unfoldable pub read_account : Row → Account
  read_account row = record {
    vpa = column_text row 0;
    holder_name = column_text row 1;
    balance = column_int64 row 2;
    version = column_int64 row 3;
  }

  -- One step: the first row, if there is one.
  unfoldable pub first_account : List Row → Option Account
  unfolding read_account
  first_account [] = none
  first_account (row ∷ rows) = some (read_account row)

  unfoldable pub find_by_id : String → Action Db (Option Account)
  unfolding first_account
  find_by_id vpa d =
      if prepares sql_find_account d
      then (let (r, d') = run sql_find_account (text (c_str vpa) ∷ []) d in
          (ok (first_account r.rows), d'))
      else (ok none, d)

  unfoldable pub save : Account → Action Db (Unit {0})
  save account d =
      if prepares sql_save_account d
      then (let (r, d') =
            run sql_save_account
              (text (c_str account.vpa)
                ∷ text (c_str account.holder_name)
                ∷ integer account.balance
                ∷ integer account.version
                ∷ [])
              d in
          (ok tt, d'))
      else (ok tt, d)

  unfoldable pub find_all : Action Db (List Account)
  unfolding read_account
  find_all d =
      if prepares sql_all_accounts d
      then (let (r, d') = run sql_all_accounts [] d in (ok (map read_account r.rows), d'))
      else (ok [], d)
