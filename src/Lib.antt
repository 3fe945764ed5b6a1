-- ===== src/Lib.antt =====
-- UPIMesh: a payment backend that settles encrypted packets which phones pass on to one another.
--
-- The program has four layers; paths are given below cpp/.
-- model/ keeps accounts and transactions in an in-memory SQLite;
-- service/ has the table of claimed hashes, settlement, the ingestion pipeline and the simulated mesh;
-- crypto/ decrypts packets; controller/ is the HTTP surface. A packet is uploaded by a bridge, hashed,
-- claimed, decrypted, checked for its age and settled.
--
-- Common: integers with the wrap-around of 64 bits, exceptions as values, texts, maps and lists.
-- Model.Records: model/Account.h, Transaction.h, MeshPacket.h, PaymentInstruction.h.
-- Model.Json: their JSON conversions. nlohmann::json and the arithmetic of doubles are a parameter
--   (`Json`); Rounding has what IEEE 754 gives of the doubles (`IsDouble`), and why paise survive the
--   way to rupees and back; Roundtrip what the library's documentation gives (`IsJson`).
-- Model.Sqlite, Model.Tables, Model.Documented: the SQLite connection is a parameter, since its code
--   is not in the repository. `Sqlite` lists the calls; `IsSqlite` says what the documentation says of
--   the statements in the source, over what the tables hold (`Store`). It takes memory to suffice and
--   the ids to stay below 2^63. Tests.MemoryDb is an instance.
-- Model.Database, Model.AccountRepository, Model.TransactionRepository: the files of these names, each
--   method a function from the connection to its result and the connection after it. Texts are bound
--   up to their first NUL, as `c_str` hands them over. Model.Views: what each call does to the tables;
--   Model.Queries: what the queries of the log read. Model.Ledger: the accounts as a ledger.
-- Service.Settlement: service/SettlementService.cpp. `read_accounts` is the part before the lock,
--   `settle_locked` the part under it, `settle_attempts` the loop, on the rounds left: three, as in
--   the source. Spec is the specification, which Locking and Refinement compare with the code;
--   Conservation and Once are about what it does, Rounds is about the loop. Interleaving is the schedule
--   in which two threads read before either writes, LostUpdate what that does to the balances.
-- Service.Settlement.Threads: calls of settle in any number of threads. Each call of a repository and
--   the update hold the connection's recursive mutex, so a call is a sequence of sections, and a
--   schedule is the list of the threads that take their turn, one section each. Alone compares a thread
--   that runs with no other with settle; Keeping has the rule for what every section keeps; Sections,
--   Sound and Invariant are about the sections and the state between two of them; Schedules and Turns
--   about all schedules.
-- Service.Idempotency: service/IdempotencyService.cpp, each operation under the mutex as one step and
--   a schedule as a list of events.
-- Service.Bridge: service/BridgeIngestionService.cpp. Decryption and the JSON conversion are a
--   parameter (`CryptoService`); the clock's readings are arguments. Settling: the
--   upload that passes every check; Keeping: what an upload leaves as it was.
-- Service.Mesh: service/MeshSimulatorService.cpp; a device is named by its key. Gossip, Keeping,
--   Staying and Reaching are about a round of gossip; Passing has rules for a loop over what is passed on.
-- Crypto: crypto/HybridCryptoService.cpp and crypto/ServerKeyHolder.cpp over the calls of OpenSSL
--   (`OpenSsl`), a parameter. The state of an action is the number of contexts and BIOs that are
--   allocated. Base64 is the chains of BIOs, Wire the packed format, Hex the text of a digest, Release
--   what happens to the contexts. Laws is what OpenSSL's documentation says (`IsOpenSsl`); Returns has
--   rules for an action that returned,
--   Sealing what `encrypt` has done when it returns, Roundtrip what `decrypt` makes of it. Service is
--   the crypto service that the pipeline is given; Delivery and Arrival follow an instruction from the
--   sender to the bridge and to the accounts.
-- Controller.Api: controller/ApiController.cpp; `Server` is what AppContext refers to that has a
--   state. A handler gives the values that the source puts into the response. Requests are a
--   parameter (`Http`). Flush is about a flush of all uploads. Controller.Send: demoSend and
--   getServerKey; the draws of uuid_generate, the clock and the number of draws of RAND_bytes made
--   before are an argument (`World`). Controller.Routes: the table of routes in ApiController.h.
-- Main: main.cpp up to the start of the server; Start and Reset are about the state it serves from.
--   Main.Serving: the program while it serves, as a relation of steps: any sequence of requests and
--   rounds of the evictor, one after another.
-- Checks: crypto/verify_phase1.cpp, model/verify_phase2.cpp, service/verify_phase3.cpp,
--   craft_packet.cpp, crypto/cross_lang_test.cpp and model/test_amounts.cpp, what they print as values.
--   Threads that the source starts are let through one at a time; the program that cross_lang_test.cpp
--   calls is a parameter. Phase1.Outcome, Phase2.Outcome, Phase3.Claims and Phase3.Payments are about
--   what they report.
-- Tests: concrete instances and the theorems at concrete inputs.
--
-- Not modelled: log lines, the HTTP server and its static files, the page and the scripts, the
-- vendored JSON library, and what its macro makes of MeshPacket, which nothing calls.
-- A sum of 64 bits, or of an int, wraps as two's complement hardware does; C++ leaves that undefined.
-- The number of packets that one device holds is taken to fit an int, and BIO_new to find memory.
-- The threads of the payments in verify_phase3.cpp are modelled one after another.
pub mod Common
pub mod Model
pub mod Crypto
pub mod Service
pub mod Controller
pub mod Main
pub mod Checks
mod Tests
