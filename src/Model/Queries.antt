-- ===== src/Model/Queries.antt =====
-- TransactionRepository: what its queries read of the log.
use upi_w_o_internet.Common.{refl, String, inl, inr, Bool-cases, List}
use upi_w_o_internet.Common.Int.{pos}
use upi_w_o_internet.Common.Result.{ok}
use upi_w_o_internet.Common.Text.{c_str}
use upi_w_o_internet.Model.Records.{Transaction, parse_status}
use upi_w_o_internet.Model.Sqlite.{Sqlite}
use upi_w_o_internet.Model.Tables.{has_hash, TransactionRow}
use upi_w_o_internet.Model.Documented.{IsSqlite}
use upi_w_o_internet.Model.TransactionRepository
use upi_w_o_internet.Model.Views.{Yields}

-- The transaction that a row stands for.
abbrev pub row_transaction : TransactionRow → Transaction
row_transaction t = record {
  id = pos t.id;
  packet_hash = t.packet_hash;
  sender_vpa = t.sender_vpa;
  receiver_vpa = t.receiver_vpa;
  amount = t.amount;
  signed_at = t.signed_at;
  settled_at = t.settled_at;
  bridge_node_id = t.bridge_node_id;
  hop_count = t.hop_count;
  status = parse_status t.status;
}

module _ (q : Sqlite) (laws : IsSqlite q) where
  open laws use {view}

  -- `existsByPacketHash` says whether the log has the hash, and changes nothing.
  pub exists_by_packet_hash-Yields :
      (h : String) (d : q.Db)
      → Yields q laws
          (TransactionRepository.exists_by_packet_hash q h d)
          (ok (has_hash (c_str h) (view d).current.transactions))
          (view d)
  unfolding TransactionRepository.exists_by_packet_hash
  exists_by_packet_hash-Yields h d =
      elim (Bool-cases (has_hash (c_str h) (view d).current.transactions)) [
        | inl old ↦
            let p = laws.exists_yes (c_str h) d old in
            rw (laws.prepares_exists d, p.0, old) (refl, p.1)
        | inr new ↦
            let p = laws.exists_no (c_str h) d new in
            rw (laws.prepares_exists d, p.0, new) (refl, p.1)
      ]
