-- ===== src/Checks.antt =====
-- The programs that check the library: model/verify_phase2.cpp, service/verify_phase3.cpp,
-- crypto/verify_phase1.cpp, crypto/cross_lang_test.cpp, model/test_amounts.cpp
-- and craft_packet.cpp. A program gives what it prints as values.
pub mod Verdict
pub mod Phase2
pub mod Phase3
pub mod Phase1
pub mod CraftPacket
pub mod Amounts
pub mod CrossLang
