-- ===== src/Trains/Mapper/Candidates.antt =====
-- The candidates for a realtime id (`IdMapper.candidates`).
