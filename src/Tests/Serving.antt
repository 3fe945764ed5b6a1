-- ===== src/Tests/Serving.antt =====
-- A payment that is sent, spread and flushed while the program serves.
use upi_w_o_internet.Common.{
  String, ◌≡◌, refl, sym, ◌∙◌, inl, inr, ap, List, [], ◌∷◌, take, length, arith,
}
use upi_w_o_internet.Common.Int.{pos}
use upi_w_o_internet.Common.Bytes.{Bytes, bytes_of_text}
use upi_w_o_internet.Common.Map.{lookup, insert}
use upi_w_o_internet.Common.Result.{Result-cases, ok, lift, ok-injective}
use upi_w_o_internet.Model.Json.{instruction_to_json, instruction_from_json}
use upi_w_o_internet.Model.Json.Roundtrip.{instruction_from_json-instruction_to_json}
use upi_w_o_internet.Model.Database
use upi_w_o_internet.Service.Idempotency.{new_seen}
use upi_w_o_internet.Service.Mesh.{
  seed_default_devices, BridgeUpload, collect_bridge_uploads, gossip_once, gossip_round,
  snapshot_from, send_all, spread as spread_packet, offer, hold, holds, update_device,
  get_held_packets, inject, get_device,
}
use upi_w_o_internet.Service.Bridge.{read_instruction}
use upi_w_o_internet.Service.Bridge.Keeping.{Different}
use upi_w_o_internet.Crypto.Base64.{base64_encode}
use upi_w_o_internet.Crypto.HybridCrypto.{decrypt}
use upi_w_o_internet.Crypto.Returns.{Returns, bind-Returned, lift-Returns}
use upi_w_o_internet.Crypto.Service.{Serializer, json_text, decrypt_text, hybrid_service}
use upi_w_o_internet.Controller.Api.{has_all, Server, mesh_gossip, mesh_flush}
use upi_w_o_internet.Controller.Api.Flush.{AllDifferent}
use upi_w_o_internet.Controller.Send.{
  has_payment_fields, demo_send, send_payment, send_instruction, read_payment as read_body,
  packet_ttl, start_device,
}
use upi_w_o_internet.Crypto.ServerKey.{new_server_key, get_public_key_base64}
use upi_w_o_internet.Main.{Context, start}
use upi_w_o_internet.Main.Tables.{new_database-Yields}
use upi_w_o_internet.Main.Serving.{
  Platform, Reach, here, next, sends, gossips, flushes, crypto, send_to,
}
use upi_w_o_internet.Main.Serving.Invariant.{IsServing, Reach-IsServing}
use upi_w_o_internet.Tests.MemoryDb.{memory_db, memory_db-IsSqlite}
use upi_w_o_internet.Tests.Ledger.{pay, alice_not_bob}
use upi_w_o_internet.Tests.ToySsl.{toy_ssl}
use upi_w_o_internet.Tests.ToyJson.{toy_values, toy_values-IsJson, exact}
use upi_w_o_internet.Tests.Pipeline.{readings}
use upi_w_o_internet.Tests.ToySsl.{zeros, unary, spell}
use upi_w_o_internet.Crypto.HybridCrypto.{encrypt, aes_encrypt, rsa_wrap}
use upi_w_o_internet.Crypto.Wire.{pack}
use upi_w_o_internet.Crypto.Service.{encrypt_text}
use upi_w_o_internet.Tests.Delivery.{toy_http, toy_world, toy_request}

-- Every text is that of Rs 100 from alice to bob.
abbrev pay_io : Serializer toy_values
pay_io = record {
  dump = λ v. ok (123 ∷ []);
  parse = λ bs. ok (instruction_to_json toy_values (pay "alice@demo" "bob@demo"));
}

abbrev payment : toy_values.Value
payment = instruction_to_json toy_values (pay "alice@demo" "bob@demo")

parse-Returns : (bs : Bytes) → Returns (λ j. j ≡ payment) (lift (pay_io.parse bs))
unfolding Returns
parse-Returns bs live j h = cc

decrypt-Returns :
    (b64 : Bytes)
    → Returns (λ j. j ≡ payment) (decrypt toy_ssl (json_text toy_values pay_io) tt b64)
unfolding decrypt
decrypt-Returns b64 = search (bind-Returned, lift-Returns, parse-Returns) depth 9

read_payment : instruction_from_json toy_values payment ≡ ok (pay "alice@demo" "bob@demo")
read_payment =
    instruction_from_json-instruction_to_json toy_values toy_values-IsJson
      (pay "alice@demo" "bob@demo") (omega arith) (omega arith, omega arith)

pays_bob :
    (ciphertext : String)
    → Different (hybrid_service toy_ssl toy_values pay_io tt) memory_db ciphertext
unfolding Different read_instruction decrypt_text Returns
pays_bob ciphertext i read =
    elim (Result-cases (decrypt_text toy_ssl toy_values pay_io tt ciphertext)) [
      | inr (e, failed) ↦ absurd (cc (failed, read))
      | inl (j, opened) ↦
          let same : j ≡ payment = decrypt-Returns (bytes_of_text ciphertext) 0 j opened in
          let read' : instruction_from_json toy_values j ≡ ok i =
            rw (opened, read_instruction) at read in
          let paid : i ≡ pay "alice@demo" "bob@demo" =
            ok-injective (sym read' ∙ ap (instruction_from_json toy_values) same ∙ read_payment) in
          rw paid alice_not_bob
    ]

abbrev platform : Platform
platform = record {
  q = memory_db;
  laws = memory_db-IsSqlite;
  ssl = toy_ssl;
  json = toy_values;
  io = pay_io;
  sha256 = λ bs. take 32 bs;
  http = toy_http;
  as_double = λ body key. ok (exact (pos 50));
}

abbrev first : Server memory_db
first = record {
  mesh = seed_default_devices;
  seen = new_seen;
  db = (Database.new_database memory_db).1;
}

abbrev context : Context memory_db toy_ssl
context = record { server = first; server_key = tt }

all_pay_bob :
    (ups : List BridgeUpload)
    → AllDifferent (hybrid_service toy_ssl toy_values pay_io tt) memory_db ups
all_pay_bob [] = tt
all_pay_bob (up ∷ ups) = (pays_bob up.packet.ciphertext, all_pay_bob ups)

abbrev spread : Server memory_db
spread =
    (mesh_gossip memory_db
      (record first { mesh = send_to platform tt toy_world toy_request seed_default_devices })).1

-- The bridge has the packet to upload.
one_upload : length (collect_bridge_uploads spread.mesh) ≡ 1
unfolding has_payment_fields has_all mesh_gossip gossip_once gossip_round snapshot_from send_all
    spread_packet offer hold holds update_device get_held_packets collect_bridge_uploads
    seed_default_devices demo_send send_payment send_instruction read_body packet_ttl start_device
    inject get_device lookup insert base64_encode encrypt_text encrypt aes_encrypt rsa_wrap zeros
    unary pack spell
one_upload = refl

no_ids_used : ((memory_db-IsSqlite).view spread.db).current.sequence ≡ 0
unfolding mesh_gossip
no_ids_used = ap (λ t. t.current.sequence) (new_database-Yields memory_db memory_db-IsSqlite).1

abbrev flushed : Server memory_db
flushed = (mesh_flush memory_db (crypto platform tt) (λ i. readings) spread).1

served : Reach platform tt first flushed
served =
    next (next (next here (sends toy_world toy_request)) gossips)
      (flushes (λ i. readings) (omega (arith, no_ids_used, one_upload)) (all_pay_bob _))

Reach-IsServing_example : IsServing platform tt flushed
unfolding new_server_key get_public_key_base64 base64_encode start Database.new_database
Reach-IsServing_example = Reach-IsServing platform tt refl context flushed refl served
