-- ===== src/Audio/Demux.antt =====
-- The packets of a transport stream are read within the buffer, and nothing is made up.
