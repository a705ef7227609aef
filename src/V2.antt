-- ===== src/V2.antt =====
-- blockchain/v0.2/: version 0.1 with difficulty and mining. Its other files are those of version 0.1,
-- letter by letter.
pub mod Files
pub mod Difficulty
pub mod Mine
pub mod Valid
pub mod Created
pub mod Next
