-- ===== src/Model/TransactionRepository.antt =====
-- model/TransactionRepository.cpp. `save` returns the transaction with the id that it is given.
use Prim.Native.String.{◌++◌ as ◌<>◌}
use upi_w_o_internet.Common.{
  String, Bool, true, false, Option, none, some, List, [], ◌∷◌, map, if◌then◌else◌,
}
use upi_w_o_internet.Common.Result.{Action, ok, err, runtime_error}
use upi_w_o_internet.Common.Text.{c_str}
use upi_w_o_internet.Model.Records.{Transaction, status_to_string, parse_status}
use upi_w_o_internet.Model.Sqlite.{
  Sqlite, Row, Run, integer, text, sql_save_tx, sql_exists_tx, sql_top_tx,
}

-- The first step of a statement gives SQLITE_ROW; SQLITE_DONE.
abbrev pub steps_to_row : Run → Bool
steps_to_row r = elim r.rows [ [] ↦ false | row ∷ rows ↦ true ]

abbrev pub no_error : Option String → Bool
no_error none = true
no_error (some e) = false

abbrev pub steps_to_done : Run → Bool
steps_to_done r = elim r.rows [ [] ↦ no_error r.error | row ∷ rows ↦ false ]

module _ (q : Sqlite) where
  open q use {Db, prepares, run, errmsg, last_insert_rowid, column_text, column_int64, column_int}

  unfoldable pub save : Transaction → Action Db Transaction
  unfolding status_to_string
  save tx d =
      if prepares sql_save_tx d
      then (let (r, d') =
            run sql_save_tx
              (text (c_str tx.packet_hash)
                ∷ text (c_str tx.sender_vpa)
                ∷ text (c_str tx.receiver_vpa)
                ∷ integer tx.amount
                ∷ integer tx.signed_at
                ∷ integer tx.settled_at
                ∷ text (c_str tx.bridge_node_id)
                ∷ integer tx.hop_count
                ∷ text (c_str (status_to_string tx.status))
                ∷ [])
              d in
          if steps_to_done r
          then (ok (record tx { id = last_insert_rowid d' }), d')
          else (err (runtime_error ("Failed to execute tx save: " <> errmsg d')), d'))
      else (err (runtime_error ("Failed to prepare tx save statement: " <> errmsg d)), d)

  unfoldable pub exists_by_packet_hash : String → Action Db Bool
  exists_by_packet_hash packet_hash d =
      if prepares sql_exists_tx d
      then (let (r, d') = run sql_exists_tx (text (c_str packet_hash) ∷ []) d in
          (ok (steps_to_row r), d'))
      else (err (runtime_error "Failed to prepare exists statement"), d)

  unfoldable pub read_transaction : Row → Transaction
  unfolding parse_status
  read_transaction row = record {
    id = column_int64 row 0;
    packet_hash = column_text row 1;
    sender_vpa = column_text row 2;
    receiver_vpa = column_text row 3;
    amount = column_int64 row 4;
    signed_at = column_int64 row 5;
    settled_at = column_int64 row 6;
    bridge_node_id = column_text row 7;
    hop_count = column_int row 8;
    status = parse_status (column_text row 9);
  }

  unfoldable pub find_top20_by_order_by_id_desc : Action Db (List Transaction)
  unfolding read_transaction
  find_top20_by_order_by_id_desc d =
      if prepares sql_top_tx d
      then (let (r, d') = run sql_top_tx [] d in (ok (map read_transaction r.rows), d'))
      else (err (runtime_error "Failed to prepare findTop20 statement"), d)
